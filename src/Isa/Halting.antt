-- ===== src/Isa/Halting.antt =====
-- What a halted machine does when it is executed again, as `execute` of src/sigma16module.c does when it is
-- called twice.
use sigma16_emulator.Base.{
  ℕ, zero, suc, ◌+◌, ◌/◌, ◌%◌, ◌≡◌, sym, subst, refl, ap, ◌∙◌, Bool, true, false, if◌then◌else◌,
  ltb, ◌==◌, [], ◌∷◌, ◌++◌, Option, none, some, u16, get_elem?,
}
use sigma16_emulator.Memory.{mem_words}
use sigma16_emulator.Machine.{World, Stop, halted, undefined, silent}
use sigma16_emulator.Exec.{sigma16_vm_exec}
use sigma16_emulator.Exec.Invariant.{IsMachine}
use sigma16_emulator.Isa.{
  State, Next, next, over, AluOp, add, sub, mul, div, cmp, cmplt, cmpeq, cmpgt, inv, and, or, xor,
  RxOp, lea, load, store, jump, jumpc0, jumpc1, jumpf, jumpt, jal, Operation, alu, nop, trap, exp,
  rx, operations, rx_operations, exec_alu, exec_rx, exec_rx_code, write_chars, exec_trap, exec_exp,
  with_second, exec_operation, exec_code, isa_step, view, ◌and_then◌, set_status, skip, put,
  address,
}
use sigma16_emulator.Isa.Runs.{isa_run, final, sigma16_vm_exec-isa_run, silent-Preserves}
use sigma16_emulator.Exec.Runs.{sigma16_vm_exec-IsMachine}

-- An instruction that halts leaves the state as it was.
abbrev Stays : State → Next → Type 0
Stays s r = (t : State) → r ≡ over halted t → t ≡ s

if-Stays :
    {s : State} {x y : Next} (b : Bool) → Stays s x → Stays s y → Stays s (if b then x else y)
if-Stays true h k = h
if-Stays false h k = k

next-Stays : {s : State} (t : State) → Stays s (next t)
next-Stays t u e = cc

undefined-Stays : {s : State} (t : State) → Stays s (over undefined t)
undefined-Stays t u e = cc

halted-Stays : (s : State) → Stays s (over halted s)
halted-Stays s u e = cc

exec_alu-Stays : (op : AluOp) (d sa sb : ℕ) (s : State) → Stays s (exec_alu op d sa sb s)
unfolding exec_alu
exec_alu-Stays mul d sa sb s = if-Stays _ (next-Stays _) (undefined-Stays s)
exec_alu-Stays div d sa sb s =
    let quotient = put d (s.regs sa / s.regs sb) s in
    if-Stays (s.regs sb == 0) (next-Stays (skip 1 s)) (
      if-Stays (d == 15) (next-Stays (skip 1 quotient))
        (next-Stays (skip 1 (set_status (s.regs sa % s.regs sb) quotient))))
exec_alu-Stays add d sa sb s = next-Stays _
exec_alu-Stays sub d sa sb s = next-Stays _
exec_alu-Stays cmp d sa sb s = next-Stays _
exec_alu-Stays cmplt d sa sb s = next-Stays _
exec_alu-Stays cmpeq d sa sb s = next-Stays _
exec_alu-Stays cmpgt d sa sb s = next-Stays _
exec_alu-Stays inv d sa sb s = next-Stays _
exec_alu-Stays and d sa sb s = next-Stays _
exec_alu-Stays or d sa sb s = next-Stays _
exec_alu-Stays xor d sa sb s = next-Stays _

exec_rx-Stays : (op : RxOp) (d sa disp : ℕ) (s : State) → Stays s (exec_rx op d sa disp s)
unfolding exec_rx
exec_rx-Stays load d sa disp s =
    let a = address sa disp s in
    if-Stays (d == 0) (next-Stays (skip 2 s))
      (if-Stays (ltb a mem_words) (next-Stays (skip 2 (put d (s.mem a) s))) (undefined-Stays s))
exec_rx-Stays store d sa disp s = if-Stays _ (next-Stays _) (undefined-Stays s)
exec_rx-Stays lea d sa disp s = next-Stays _
exec_rx-Stays jump d sa disp s = next-Stays _
exec_rx-Stays jumpc0 d sa disp s = next-Stays _
exec_rx-Stays jumpc1 d sa disp s = next-Stays _
exec_rx-Stays jumpf d sa disp s = next-Stays _
exec_rx-Stays jumpt d sa disp s = next-Stays _
exec_rx-Stays jal d sa disp s = next-Stays _

exec_rx_code-Stays :
    (op : Option RxOp) (d sa disp : ℕ) (s : State) → Stays s (exec_rx_code op d sa disp s)
exec_rx_code-Stays none d sa disp s = λ t e. cc
exec_rx_code-Stays (some op) d sa disp s = exec_rx-Stays op d sa disp s

-- What is written before does not halt.
write_chars-Stays :
    (count a : ℕ) (u s : State) (f : State → Next)
    → ((v : State) → Stays s (f v))
    → Stays s (write_chars count a u and_then f)
unfolding write_chars
write_chars-Stays zero a u s f h = h u
write_chars-Stays (suc count) a u s f h =
    let written : State = record u { out = u.out ++ u.mem (u16 a) % 256 ∷ [] } in
    more (ltb (u16 a) mem_words) written (write_chars-Stays count (a + 1) written s f h)
  where
    more :
        (b : Bool) (v : State)
        → Stays s (write_chars count (a + 1) v and_then f)
        → Stays s ((if b then write_chars count (a + 1) v else over undefined u) and_then f)
    more true v k = k
    more false v k = undefined-Stays u

exec_trap-Stays : (d sa sb : ℕ) (s : State) → Stays s (exec_trap d sa sb s)
unfolding exec_trap
exec_trap-Stays d sa sb s =
    if-Stays (s.regs d == 0) (halted-Stays s) (
      if-Stays _ (write_chars-Stays (s.regs sb) (s.regs sa) s s _ λ v. next-Stays _) (next-Stays _))

with_second-Stays :
    (f : ℕ → State → Next) (s : State)
    → ((second : ℕ) → Stays s (f second s))
    → Stays s (with_second f s)
with_second-Stays f s h = if-Stays _ (h _) (undefined-Stays s)

exec_operation-Stays : (op : Operation) (word : ℕ) (s : State) → Stays s (exec_operation op word s)
unfolding exec_operation
exec_operation-Stays (alu op) word s = exec_alu-Stays op _ _ _ s
exec_operation-Stays nop word s = next-Stays _
exec_operation-Stays trap word s = exec_trap-Stays _ _ _ s
exec_operation-Stays exp word s =
    with_second-Stays exec_exp s λ second. if-Stays _ (next-Stays _) (undefined-Stays s)
exec_operation-Stays rx word s =
    let op = get_elem? rx_operations (word % 16) in
    let d = word / 256 % 16 in
    let sa = word / 16 % 16 in
    with_second-Stays (exec_rx_code op d sa) s λ second. exec_rx_code-Stays op d sa second s

exec_code-Stays : (op : Option Operation) (word : ℕ) (s : State) → Stays s (exec_code op word s)
exec_code-Stays none word s = undefined-Stays s
exec_code-Stays (some op) word s = exec_operation-Stays op word s

isa_step-Stays : (s : State) → Stays s (isa_step s)
unfolding isa_step
isa_step-Stays s =
    if-Stays _ (exec_code-Stays (get_elem? operations (s.mem s.pc / 4096)) _ s) (undefined-Stays s)

-- A run that has halted stands at an instruction that halts.
next-halted :
    (s t : State) (r : Next) (k : State → Option (Stop × State))
    → isa_step s ≡ r
    → (elim r [ next u ↦ k u | over why u ↦ some (why, u) ]) ≡ some (halted, t)
    → ((u : State) → k u ≡ some (halted, t) → isa_step t ≡ over halted t)
    → isa_step t ≡ over halted t
next-halted s t (next u) k q e h = h u e
next-halted s t (over why u) k q e h =
    let ended : isa_step s ≡ over halted t = cc in
    subst (λ (v : State). isa_step v ≡ over halted t) (sym (isa_step-Stays s t ended)) ended

isa_run-halted :
    (fuel : ℕ) (s t : State) → isa_run fuel s ≡ some (halted, t) → isa_step t ≡ over halted t
unfolding isa_run
isa_run-halted zero s t e = cc
isa_run-halted (suc fuel) s t e =
    next-halted s t (isa_step s) (isa_run fuel) refl e λ u e'. isa_run-halted fuel u t e'

isa_run_again :
    (fuel : ℕ) (t : State) → isa_step t ≡ over halted t → isa_run (suc fuel) t ≡ some (halted, t)
unfolding isa_run
isa_run_again fuel t e = rw (isa_run, e) refl

-- Where execution without tracing halts from a well-formed machine, executing the machine again, for any
-- positive bound on the rounds, halts too, and the program sees the same registers, program counter, memory
-- and output after it.
pub sigma16_vm_exec_again :
    {H : Type 0} (fuel again : ℕ) (w w' : World H)
    → IsMachine w
    → sigma16_vm_exec silent fuel w ≡ some (halted, w')
    → final (sigma16_vm_exec silent (suc again) w') ≡ some (halted, view w')
sigma16_vm_exec_again fuel again w w' i e =
    let i' : IsMachine w' =
      sigma16_vm_exec-IsMachine silent silent-Preserves fuel w w' halted i e in
    let seen : isa_run fuel (view w) ≡ some (halted, view w') =
      sym (sigma16_vm_exec-isa_run fuel w i) ∙ ap final e in
    sigma16_vm_exec-isa_run (suc again) w' i'
    ∙ isa_run_again again (view w') (isa_run-halted fuel (view w) (view w') seen)
