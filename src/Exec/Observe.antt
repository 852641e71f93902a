-- ===== src/Exec/Observe.antt =====
-- Two runs of one action that see the same machine: the left one may stop at an undefined operation
-- where the right one does not; else both leave the same machine, and go on or stop alike. What they
-- write, and the state of their trace handlers, may differ.
pub mod Labels
pub mod Runs
use sigma16_emulator.Base.{ℕ, Bool, true, false, List, Option, none, some, ltb, inl, inr}
use sigma16_emulator.Base.Cases.{Bool-cases}
use sigma16_emulator.Cpu.{Cpu}
use sigma16_emulator.Machine.{
  Vm, World, Stop, undefined, Res, ok, stop, M, ret, finish, cpu, modify_cpu, print, choose,
  defined, ◌>>=◌, ◌>>◌,
}
use sigma16_emulator.Memory.{mem_words, fetch, read_mem, write_mem}

abbrev pub world : {H : Type 0} → Vm → List ℕ → H → World H
world vm out host = record { vm = vm; out = out; host = host }

-- `L` has to hold for the left run to stop where the right one does not; `I` is what the state of the
-- left trace handler satisfies wherever it goes on.
pub data Alike {H A : Type 0} (L : Type 0) (I : H → Type 0) : Res H A → Res H A → Type 0 where
  goes_on :
      {a : A} {vm : Vm} {o o' : List ℕ} {h h' : H}
      → I h
      → Alike L I (ok a (world vm o h)) (ok a (world vm o' h'))
  stops :
      {s : Stop} {vm : Vm} {o o' : List ℕ} {h h' : H}
      → Alike L I (stop s (world vm o h)) (stop s (world vm o' h'))
  lost : {w : World H} {r : Res H A} → L → Alike L I (stop undefined w) r

pub record Follows {H A : Type 0} (L : Type 0) (I : H → Type 0) (m m' : M H A) : Type 0 where
  pub follows :
      (vm : Vm) (o o' : List ℕ) (h h' : H)
      → I h
      → Alike L I (m (world vm o h)) (m' (world vm o' h'))

module _ {H : Type 0} {L : Type 0} {I : H → Type 0} where
  Alike-bind :
      {A B : Type 0} {f f' : A → M H B} {r r' : Res H A}
      → Alike L I r r'
      → ((a : A) → Follows L I (f a) (f' a))
      → Alike L I
          (elim r [ ok a w ↦ f a w | stop s w ↦ stop s w ])
          (elim r' [ ok a w ↦ f' a w | stop s w ↦ stop s w ])
  Alike-bind (goes_on {a} {vm} {o} {o'} {h} {h'} i) k = (k a).follows vm o o' h h' i
  Alike-bind stops k = stops
  Alike-bind (lost l) k = lost l

  pub Follows-bind :
      {A B : Type 0} {m m' : M H A} {f f' : A → M H B}
      → Follows L I m m'
      → ((a : A) → Follows L I (f a) (f' a))
      → Follows L I (m >>= f) (m' >>= f')
  unfolding ◌>>=◌
  Follows-bind g k = record { follows = λ vm o o' h h' i. Alike-bind (g.follows vm o o' h h' i) k }

  pub Follows-then :
      {B : Type 0} {m m' : M H (Unit {0})} {n n' : M H B}
      → Follows L I m m'
      → Follows L I n n'
      → Follows L I (m >> n) (m' >> n')
  unfolding ◌>>◌
  Follows-then g k = Follows-bind g λ _. k

  pub Follows-choose :
      {A : Type 0} (b : Bool) {m m' n n' : M H A}
      → Follows L I m m'
      → Follows L I n n'
      → Follows L I (choose b m n) (choose b m' n')
  Follows-choose true g k = record { follows = g.follows }
  Follows-choose false g k = record { follows = k.follows }

  pub Follows-ret : {A : Type 0} (a : A) → Follows {H = H} L I (ret a) (ret a)
  Follows-ret a = record { follows = λ vm o o' h h' i. goes_on i }

  pub Follows-finish : {A : Type 0} (s : Stop) → Follows {H = H} {A = A} L I (finish s) (finish s)
  Follows-finish s = record { follows = λ vm o o' h h' i. stops }

  pub Follows-cpu : Follows {H = H} L I cpu cpu
  Follows-cpu = record { follows = λ vm o o' h h' i. goes_on i }

  pub Follows-modify_cpu : (f : Cpu → Cpu) → Follows {H = H} L I (modify_cpu f) (modify_cpu f)
  Follows-modify_cpu f = record { follows = λ vm o o' h h' i. goes_on i }

  -- The two may write different things.
  pub Follows-print : (s t : List ℕ) → Follows {H = H} L I (print s) (print t)
  Follows-print s t = record { follows = λ vm o o' h h' i. goes_on i }

  pub Follows-print_only : (s : List ℕ) → Follows {H = H} L I (print s) (ret tt)
  Follows-print_only s = record { follows = λ vm o o' h h' i. goes_on i }

  pub Follows-defined : {A : Type 0} (a : Option A) → Follows {H = H} L I (defined a) (defined a)
  Follows-defined none = record { follows = λ vm o o' h h' i. stops }
  Follows-defined (some a) = record { follows = λ vm o o' h h' i. goes_on i }

  pub Follows-fetch : (a : ℕ) → Follows {H = H} L I (fetch a) (fetch a)
  unfolding fetch
  Follows-fetch a = record {
    follows = λ vm o o' h h' i. elim (Bool-cases (ltb a mem_words)) [
      | inl e ↦ rw e (goes_on i)
      | inr e ↦ rw e stops
    ];
  }

  pub Follows-read_mem : (a : ℕ) → Follows {H = H} L I (read_mem a) (read_mem a)
  unfolding read_mem
  Follows-read_mem a = Follows-bind (Follows-fetch a) λ v. Follows-ret _

  pub Follows-write_mem : (a v : ℕ) → Follows {H = H} L I (write_mem a v) (write_mem a v)
  unfolding write_mem
  Follows-write_mem a v = record {
    follows = λ vm o o' h h' i. elim (Bool-cases (ltb a mem_words)) [
      | inl e ↦ rw e (goes_on i)
      | inr e ↦ rw e stops
    ];
  }

-- An action that leaves the machine alone, and the state of the handler in `I`.
abbrev pub Observes : {H : Type 0} → Type 0 → (H → Type 0) → M H (Unit {0}) → Type 0
Observes L I m = Follows L I m (ret tt)

module _ {H : Type 0} {L : Type 0} {I : H → Type 0} where
  pub then-Observes :
      {m n : M H (Unit {0})} → Observes L I m → Observes L I n → Observes L I (m >> n)
  unfolding ◌>>◌ ◌>>=◌
  then-Observes g k = Follows-then g k

  pub cpu-Observes :
      {f : Cpu → M H (Unit {0})} → ((c : Cpu) → Observes L I (f c)) → Observes L I (cpu >>= f)
  unfolding ◌>>=◌
  cpu-Observes g = record { follows = λ vm o o' h h' i. (g vm.cpu).follows vm o o' h h' i }
