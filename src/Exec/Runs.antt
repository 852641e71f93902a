-- ===== src/Exec/Runs.antt =====
-- Executions of any length: the rounds as a relation, against the loop with its fuel.
use sigma16_emulator.Base.{ℕ, zero, suc, ◌≤◌, ◌≡◌, ◌⊎◌, inl, inr, refl, subst, arith, Option, some}
use sigma16_emulator.Machine.{World, Handler, Event, exec_start, Stop, Res, ok, stop}
use sigma16_emulator.Exec.{step, exec_loop, sigma16_vm_exec}
use sigma16_emulator.Exec.Keeps.{Holds, ends, stops}
use sigma16_emulator.Exec.Invariant.{IsMachine, Preserves}
use sigma16_emulator.Exec.Invariant.Handlers.{step-Preserves}

-- `Reaches w v`: some number of rounds, each of which goes on, leads from `w` to `v`.
pub data Reaches {H : Type 0} (h : Handler H) : World H → World H → Type 0 where
  here : {w : World H} → Reaches h w w
  next : {w v u : World H} → step h w ≡ ok tt v → Reaches h v u → Reaches h w u

-- What the loop makes of the result of a round, with `k` for the rounds after it.
abbrev pub continue_with :
    {H : Type 0} → (World H → Option (Stop × World H)) → Res H (Unit {0}) → Option (Stop × World H)
continue_with k x = elim x [ ok _ w' ↦ k w' | stop s w' ↦ some (s, w') ]

module _ {H : Type 0} where
  continue_with_mono :
      (f g : World H → Option (Stop × World H)) (x : Res H (Unit {0})) {r : Stop × World H}
      → ((w : World H) → f w ≡ some r → g w ≡ some r)
      → continue_with f x ≡ some r
      → continue_with g x ≡ some r
  continue_with_mono f g (ok a w) h e = h w e
  continue_with_mono f g (stop s w) h e = e

  -- A round that stops, or one that goes on to a result.
  continue_with-cases :
      (f : World H → Option (Stop × World H)) (x : Res H (Unit {0})) {s : Stop} {w : World H}
      → continue_with f x ≡ some (s, w)
      → (x ≡ stop s w) ⊎ ((v : World H) × (x ≡ ok tt v) × (f v ≡ some (s, w)))
  continue_with-cases f (ok a v) e = inr (v, refl, e)
  continue_with-cases f (stop s v) e = inl (ground arith)

module _ {H : Type 0} (h : Handler H) where
  -- A result of the loop is not changed by more fuel.
  pub exec_loop_mono :
      (n m : ℕ) (w : World H) {r : Stop × World H}
      → n ≤ m
      → exec_loop h n w ≡ some r
      → exec_loop h m w ≡ some r
  unfolding exec_loop
  exec_loop_mono zero m w le e = cc
  exec_loop_mono (suc n) zero w le e = elim le [ ]
  exec_loop_mono (suc n) (suc m) w le e =
      continue_with_mono (exec_loop h n) (exec_loop h m) (step h w)
        (λ v p. exec_loop_mono n m v (omega arith) p) e

  -- The loop returns only by a round that stops, after rounds that go on.
  pub exec_loop-Reaches :
      (n : ℕ) (w w' : World H) (s : Stop)
      → exec_loop h n w ≡ some (s, w')
      → (v : World H) × Reaches h w v × (step h v ≡ stop s w')
  unfolding exec_loop
  exec_loop-Reaches zero w w' s e = cc
  exec_loop-Reaches (suc n) w w' s e = elim (continue_with-cases (exec_loop h n) (step h w) e) [
    | inl stopped ↦ (w, here, stopped)
    | inr (v, on, rest) ↦
        let (u, run, last) = exec_loop-Reaches n v w' s rest in (u, next on run, last)
  ]

-- What `Holds` says of a result that is known.
Holds-ok :
    {H A : Type 0} {I : World H → Type 0} {Q : A → Type 0} {r : Res H A} {a : A} {w : World H}
    → Holds I Q r
    → r ≡ ok a w
    → I w
Holds-ok {I} (ends q i) e = subst I (cc) i
Holds-ok (stops i) e = cc

Holds-stop :
    {H A : Type 0} {I : World H → Type 0} {Q : A → Type 0} {r : Res H A} {s : Stop} {w : World H}
    → Holds I Q r
    → r ≡ stop s w
    → I w
Holds-stop (ends q i) e = cc
Holds-stop {I} (stops i) e = subst I (cc) i

module _ {H : Type 0} (h : Handler H) (handler_preserves : (e : Event) → Preserves (h e)) where
  pub Reaches-IsMachine : {w v : World H} → Reaches h w v → IsMachine w → IsMachine v
  Reaches-IsMachine here i = i
  Reaches-IsMachine (next on run) i =
      Reaches-IsMachine run (Holds-ok ((step-Preserves h handler_preserves).keeps _ i) on)

  exec_loop-IsMachine :
      (n : ℕ) (w w' : World H) (s : Stop)
      → IsMachine w
      → exec_loop h n w ≡ some (s, w')
      → IsMachine w'
  exec_loop-IsMachine n w w' s i e =
      let (v, run, last) = exec_loop-Reaches h n w w' s e in
      Holds-stop ((step-Preserves h handler_preserves).keeps v (Reaches-IsMachine run i)) last

  -- Under a trace handler that keeps the machine well formed, whatever execution from a well-formed
  -- machine ends in, the machine is well formed then.
  pub sigma16_vm_exec-IsMachine :
      (n : ℕ) (w w' : World H) (s : Stop)
      → IsMachine w
      → sigma16_vm_exec h n w ≡ some (s, w')
      → IsMachine w'
  unfolding sigma16_vm_exec
  sigma16_vm_exec-IsMachine n w w' s i e =
      elim (continue_with-cases (exec_loop h n) (h exec_start w) e) [
        | inl stopped ↦ Holds-stop ((handler_preserves exec_start).keeps w i) stopped
        | inr (v, on, rest) ↦
            exec_loop-IsMachine n v w' s (Holds-ok ((handler_preserves exec_start).keeps w i) on)
              rest
      ]
