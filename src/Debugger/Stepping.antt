-- ===== src/Debugger/Stepping.antt =====
-- When the debugger stops: after counted steps, and at breakpoints.
use sigma16_emulator.Base.{
  ℕ, zero, suc, ◌+◌, ◌-◌, ◌%◌, ◌^◌, ◌<◌, ◌≡◌, ◌≢◌, refl, arith, false, ==_iff, ==_ne, List, [], ◌∷◌,
  ◌++◌, length, ◌∙◌, ap,
}
use sigma16_emulator.Text.{codes, decimal, newline}
use sigma16_emulator.Machine.{
  World, Event, exec_start, exec_end, M, ok, stop, ret, print, choose, ◌>>=◌, ◌>>◌,
}
use sigma16_emulator.Trace.{sigma16_trace}
use sigma16_emulator.Debugger.{
  Breakpoint, Debugger, ctx, check_breakpoints, debugger_interactive, count_step, at_event,
  yield_debugger, count_event,
}

-- The events that announce an instruction.
abbrev pub IsInst : Event → Type 0
IsInst exec_start = ⊥
IsInst exec_end = ⊥
IsInst _ = Unit

-- No breakpoint of the list lies at the address.
abbrev pub Misses : ℕ → List Breakpoint → Type 0
Misses pc [] = Unit
Misses pc (bp ∷ bps) = (pc ≢ bp.addr) × Misses pc bps

check_breakpoints-Misses :
    (bps : List Breakpoint) (w : World Debugger)
    → Misses w.vm.cpu.pc bps
    → check_breakpoints bps w ≡ ok tt w
unfolding check_breakpoints ◌>>◌
check_breakpoints-Misses [] w h = refl
check_breakpoints-Misses (bp ∷ bps) w (ne, h) = rw (==_ne _ _ ne) (check_breakpoints-Misses bps w h)

-- What happens where a breakpoint is hit.
abbrev pub hit : Breakpoint → M Debugger (Unit {0})
hit bp = do
  print (codes "breakpoint " ++ decimal bp.id ++ codes " hit" ++ newline)
  debugger_interactive

-- Where the program counter is at a breakpoint of the list and at none before it, that breakpoint is
-- announced by its number and the prompt is entered; breakpoints after it are not looked at.
pub check_breakpoints-hit :
    (pre post : List Breakpoint) (bp : Breakpoint) (w : World Debugger)
    → Misses w.vm.cpu.pc pre
    → w.vm.cpu.pc ≡ bp.addr
    → check_breakpoints (pre ++ bp ∷ post) w ≡ hit bp w
unfolding check_breakpoints ◌>>◌
check_breakpoints-hit [] post bp w h e = rw ((==_iff _ _).1 e)
check_breakpoints-hit (x ∷ pre) post bp w (ne, h) e =
    rw (==_ne _ _ ne) (check_breakpoints-hit pre post bp w h e)

-- One event counted.
abbrev pub tick : Debugger → Debugger
tick d = record d { n_steps = d.n_steps - 1; n_events = (d.n_events + 1) % 2 ^ 32 }

abbrev pub ticks : ℕ → World Debugger → World Debugger
ticks zero w = w
ticks (suc n) w = ticks n (record w { host = tick w.host })

-- The count of events, an `int` given by its 32-bit pattern, can be raised `k` times.
abbrev pub CanCount : ℕ → ℕ → Type 0
CanCount k n = (n < 2 ^ 32) × ((n + 2 ^ 31) % 2 ^ 32 + k < 2 ^ 32)

-- Neither tracing nor a breakpoint at the program counter.
abbrev pub IsQuiet : World Debugger → Type 0
IsQuiet w = (w.host.trace ≡ false) × Misses w.vm.cpu.pc w.host.breakpoints

at_event-IsInst : (e : Event) (w : World Debugger) → IsInst e → at_event e w ≡ ok tt w
unfolding at_event
at_event-IsInst exec_start w i = elim i [ ]
at_event-IsInst exec_end w i = elim i [ ]
at_event-IsInst _ w i = refl

-- The step counter of a debugger that is quiet.
count_step-tick :
    (w : World Debugger)
    → 1 < w.host.n_steps
    → w.host.n_steps < 2 ^ 31
    → count_step w ≡ ok tt (record w { host = record (w.host) { n_steps = w.host.n_steps - 1 } })
unfolding count_step ◌>>◌
count_step-tick w lo hi =
    let below : w.host.n_steps ≢ 2 ^ 31 = omega arith in
    let fallen : (w.host.n_steps + 2 ^ 32 - 1) % 2 ^ 32 ≡ w.host.n_steps - 1 = omega arith in
    let more : w.host.n_steps - 1 ≢ 0 = omega arith in
    rw (==_ne _ _ below) (rw fallen (rw (==_ne _ _ more)))

pub count_event-tick :
    (w : World Debugger)
    → w.host.n_events ≢ 2 ^ 31 - 1
    → count_event w
      ≡ ok tt (record w { host = record (w.host) { n_events = (w.host.n_events + 1) % 2 ^ 32 } })
unfolding count_event ◌>>=◌
count_event-tick w room = rw (==_ne _ _ room)

pub >>-ok :
    (m k : M Debugger (Unit {0})) (w w' : World Debugger) → m w ≡ ok tt w' → (m >> k) w ≡ k w'
unfolding ◌>>◌ ◌>>=◌
>>-ok m k w w' e = ap (λ r. elim r [ ok a w'' ↦ k w'' | stop s w'' ↦ stop s w'' ]) e

-- What `yield_debugger` does after it has counted the event.
abbrev untraced : Event → M Debugger (Unit {0}) → M Debugger (Unit {0})
untraced e last =
    ctx >>= λ d. choose d.trace (sigma16_trace e) (ret tt) >> (count_step >> (at_event e >> last))

untraced-quiet :
    (e : Event) (last : M Debugger (Unit {0})) (w : World Debugger)
    → w.host.trace ≡ false
    → untraced e last w ≡ (count_step >> (at_event e >> last)) w
unfolding ◌>>=◌ ◌>>◌
untraced-quiet e last w quiet = rw quiet

yield_debugger-tick :
    (e : Event) (w : World Debugger)
    → IsInst e
    → IsQuiet w
    → w.host.n_events ≢ 2 ^ 31 - 1
    → 1 < w.host.n_steps
    → w.host.n_steps < 2 ^ 31
    → yield_debugger e w ≡ ok tt (record w { host = tick w.host })
unfolding yield_debugger ◌>>◌
yield_debugger-tick e w inst quiet room lo hi =
    let last : M Debugger (Unit {0}) = ctx >>= λ d. check_breakpoints d.breakpoints in
    let counted : World Debugger = record w {
      host = record (w.host) { n_events = (w.host.n_events + 1) % 2 ^ 32 };
    } in
    let stepped : World Debugger = record counted {
      host = record (counted.host) { n_steps = w.host.n_steps - 1 };
    } in
    >>-ok count_event (untraced e last) w counted (count_event-tick w room)
    ∙ untraced-quiet e last counted quiet.0
    ∙ >>-ok count_step (at_event e >> last) counted stepped (count_step-tick counted lo hi)
    ∙ >>-ok (at_event e) last stepped stepped (at_event-IsInst e stepped inst)
    ∙ check_breakpoints-Misses w.host.breakpoints stepped quiet.1

-- The events of a list, one after the other.
abbrev pub yields : List Event → M Debugger (Unit {0})
yields [] = ret tt
yields (e ∷ es) = yield_debugger e >> yields es

abbrev pub AllInst : List Event → Type 0
AllInst [] = Unit
AllInst (e ∷ es) = IsInst e × AllInst es

-- A debugger that neither traces nor has a breakpoint at the program counter lets fewer instructions
-- pass than it was told to step, where its count of events does not pass INT_MAX on the way: no prompt is
-- taken and nothing is written, and only its two counters move.
pub yields-ticks :
    (es : List Event) (w : World Debugger)
    → AllInst es
    → IsQuiet w
    → CanCount (length es) w.host.n_events
    → length es < w.host.n_steps
    → w.host.n_steps < 2 ^ 31
    → yields es w ≡ ok tt (ticks (length es) w)
yields-ticks [] w inst quiet fits lo hi = refl
yields-ticks (e ∷ es) w inst quiet fits lo hi =
    let more : 1 < w.host.n_steps = omega arith in
    let room : w.host.n_events ≢ 2 ^ 31 - 1 = omega (arith, fits.0, fits.1) in
    let next : World Debugger = record w { host = tick w.host } in
    let rest : length es < w.host.n_steps - 1 = omega arith in
    let bound : w.host.n_steps - 1 < 2 ^ 31 = omega arith in
    let fits' : CanCount (length es) ((w.host.n_events + 1) % 2 ^ 32) =
      (omega arith, omega (arith, fits.0, fits.1)) in
    >>-ok (yield_debugger e) (yields es) w next (yield_debugger-tick e w inst.0 quiet room more hi)
    ∙ yields-ticks es next inst.1 quiet fits' rest bound
