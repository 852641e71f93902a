-- ===== src/Python/Quiet.antt =====
-- Actions of the binding that leave the machine and the output alone, never give a reference back, and
-- take at least some number of references to one object.
use sigma16_emulator.Base.{ap, ℕ, ◌+◌, ◌≤◌, ◌≡◌, refl, arith, List}
use sigma16_emulator.Machine.{Vm, Res, ok, stop, M, ret, cpu, ◌>>=◌, ◌>>◌}
use sigma16_emulator.Exec.Observe.{world}
use sigma16_emulator.Python.{
  Object, Call, Binding, binding, modify_binding, logged, taken, taken_by, released, released_by,
}

-- From the binding `b` to `b'` nothing is given back, and `p` is taken `k` times or more.
pub record Grows (p : Object) (k : ℕ) (b b' : Binding) : Type 0 where
  pub kept : (o : Object) → released o b'.log ≡ released o b.log
  pub grown : taken p b.log + k ≤ taken p b'.log

pub data Leaves {A : Type 0} (p : Object) (k : ℕ) (Q : A → Type 0) (vm : Vm) (out : List ℕ)
    (b : Binding) : Res Binding A → Type 0 where
  leaves :
      {a : A} {b' : Binding} → Q a → Grows p k b b' → Leaves p k Q vm out b (ok a (world vm out b'))

pub record Quiet {A : Type 0} (p : Object) (k : ℕ) (Q : A → Type 0) (m : M Binding A) : Type 0 where
  pub quiet : (vm : Vm) (out : List ℕ) (b : Binding) → Leaves p k Q vm out b (m (world vm out b))

-- Nothing is said of the value.
abbrev pub Any : {A : Type 0} → A → Type 0
Any a = Unit

Grows-trans :
    (p : Object) (k l : ℕ) {b b' b'' : Binding}
    → Grows p k b b'
    → Grows p l b' b''
    → Grows p (k + l) b b''
Grows-trans p k l g h = record {
  kept = λ o. ground (arith, g.kept o, h.kept o);
  grown = omega (arith, g.grown, h.grown);
}

pub Leaves-widen :
    {B : Type 0} (p : Object) (k l : ℕ) {R : B → Type 0} {vm : Vm} {out : List ℕ} {b b' : Binding}
    {r : Res Binding B}
    → Grows p k b b'
    → Leaves p l R vm out b' r
    → Leaves p (k + l) R vm out b r
Leaves-widen p k l g (leaves r h) = leaves r (Grows-trans p k l g h)

module _ {A B : Type 0} (p : Object) (k l : ℕ) {Q : A → Type 0} {R : B → Type 0} where
  pub Leaves-bind :
      {vm : Vm} {out : List ℕ} {b : Binding} {f : A → M Binding B} {r : Res Binding A}
      → Leaves p k Q vm out b r
      → ((a : A) → Q a → Quiet p l R (f a))
      → Leaves p (k + l) R vm out b (elim r [ ok a w ↦ f a w | stop s w ↦ stop s w ])
  Leaves-bind {vm} {out} (leaves {a} {b'} q g) h = Leaves-widen p k l g ((h a q).quiet vm out b')

  pub Quiet-bind :
      {m : M Binding A} {f : A → M Binding B}
      → Quiet p k Q m
      → ((a : A) → Q a → Quiet p l R (f a))
      → Quiet p (k + l) R (m >>= f)
  unfolding ◌>>=◌
  Quiet-bind g h = record { quiet = λ vm out b. Leaves-bind (g.quiet vm out b) h }

module _ {B : Type 0} (p : Object) (k l : ℕ) {R : B → Type 0} where
  pub Quiet-then :
      {m : M Binding (Unit {0})} {n : M Binding B}
      → Quiet p k Any m
      → Quiet p l R n
      → Quiet p (k + l) R (m >> n)
  unfolding ◌>>◌
  Quiet-then g h = record { quiet = λ vm out b. Leaves-bind p k l (g.quiet vm out b) λ _ _. h }

module _ (p : Object) where
  pub Quiet-ret : {A : Type 0} {Q : A → Type 0} (a : A) → Q a → Quiet p 0 Q (ret a)
  Quiet-ret a q = record {
    quiet = λ vm out b. leaves q (record { kept = λ o. refl; grown = omega arith });
  }

  pub Quiet-cpu : Quiet p 0 Any cpu
  Quiet-cpu = record {
    quiet = λ vm out b. leaves tt (record { kept = λ o. refl; grown = omega arith });
  }

  pub Quiet-binding : Quiet p 0 Any binding
  Quiet-binding = record {
    quiet = λ vm out b. leaves tt (record { kept = λ o. refl; grown = omega arith });
  }

  -- A call that gives nothing back.
  pub Quiet-logged :
      (k : ℕ) (c : Call)
      → ((o : Object) → released_by o c ≡ 0)
      → k ≤ taken_by p c
      → Quiet p k Any (logged c)
  unfolding taken released
  Quiet-logged k c keeps h = record {
    quiet =
        λ vm out b. leaves tt (record { kept = λ o. omega (arith, keeps o); grown = omega arith });
  }

  pub Quiet-modify :
      (f : Binding → Binding)
      → ((b : Binding) → (f b).log ≡ b.log)
      → Quiet p 0 Any (modify_binding f)
  Quiet-modify f same = record {
    quiet = λ vm out b. leaves tt (record {
      kept = λ o. ap (released o) (same b);
      grown = omega (arith, ap (taken p) (same b));
    });
  }
