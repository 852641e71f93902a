-- ===== src/Exec/Keeps.antt =====
-- Actions that keep an invariant of the world, on every way out of them, and the values that they
-- return where they go on.
use sigma16_emulator.Base.{◌≡◌, refl, Bool, true, false}
use sigma16_emulator.Machine.{World, Res, ok, stop, M, ◌>>=◌, ◌>>◌, ret, finish, choose, Stop}

-- `I` holds of the world in which an action ends, and `Q` of what it returns.
pub data Holds {H A : Type 0} (I : World H → Type 0) (Q : A → Type 0) : Res H A → Type 0 where
  ends : {a : A} {w : World H} → Q a → I w → Holds I Q (ok a w)
  stops : {s : Stop} {w : World H} → I w → Holds I Q (stop s w)

pub record Keeps {H A : Type 0} (I : World H → Type 0) (Q : A → Type 0) (m : M H A) : Type 0 where
  pub keeps : (w : World H) → I w → Holds I Q (m w)

-- Nothing is said of the value.
abbrev pub Any : {A : Type 0} → A → Type 0
Any a = Unit

module _ {H : Type 0} {I : World H → Type 0} where
  Holds-bind :
      {A B : Type 0} {Q : A → Type 0} {R : B → Type 0} {f : A → M H B} {r : Res H A}
      → Holds I Q r
      → ((a : A) → Q a → (w : World H) → I w → Holds I R (f a w))
      → Holds I R (elim r [ ok a w ↦ f a w | stop s w ↦ stop s w ])
  Holds-bind (ends q i) k = k _ q _ i
  Holds-bind (stops i) k = stops i

  forget : {A : Type 0} {Q : A → Type 0} {r : Res H A} → Holds I Q r → Holds I Any r
  forget (ends q i) = ends tt i
  forget (stops i) = stops i

  pub Keeps-bind :
      {A B : Type 0} {Q : A → Type 0} {R : B → Type 0} {m : M H A} {f : A → M H B}
      → Keeps I Q m
      → ((a : A) → Q a → Keeps I R (f a))
      → Keeps I R (m >>= f)
  unfolding ◌>>=◌
  Keeps-bind h k = record { keeps = λ w i. Holds-bind (h.keeps w i) (λ a q. (k a q).keeps) }

  pub Keeps-then :
      {B : Type 0} {R : B → Type 0} {m : M H (Unit {0})} {n : M H B}
      → Keeps I Any m
      → Keeps I R n
      → Keeps I R (m >> n)
  unfolding ◌>>◌
  Keeps-then h k = record { keeps = λ w i. Holds-bind (h.keeps w i) (λ _ _. k.keeps) }

  pub Keeps-ret : {A : Type 0} {Q : A → Type 0} (a : A) → Q a → Keeps I Q (ret a)
  Keeps-ret a q = record { keeps = λ w i. ends q i }

  pub Keeps-finish : {A : Type 0} {Q : A → Type 0} (s : Stop) → Keeps I Q (finish {A = A} s)
  Keeps-finish s = record { keeps = λ w i. stops i }

  pub Keeps-choose :
      {A : Type 0} {Q : A → Type 0} (b : Bool) {m n : M H A}
      → Keeps I Q m
      → Keeps I Q n
      → Keeps I Q (choose b m n)
  Keeps-choose true h k = record { keeps = h.keeps }
  Keeps-choose false h k = record { keeps = k.keeps }

  -- Each branch may use the outcome of the test.
  pub Keeps-choose_eq :
      {A : Type 0} {Q : A → Type 0} (b : Bool) {m n : M H A}
      → (b ≡ true → Keeps I Q m)
      → (b ≡ false → Keeps I Q n)
      → Keeps I Q (choose b m n)
  Keeps-choose_eq true h k = record { keeps = (h refl).keeps }
  Keeps-choose_eq false h k = record { keeps = (k refl).keeps }

  -- What is known of the value may be forgotten.
  pub Keeps-weaken : {A : Type 0} {Q : A → Type 0} {m : M H A} → Keeps I Q m → Keeps I Any m
  Keeps-weaken h = record { keeps = λ w i. forget (h.keeps w i) }
