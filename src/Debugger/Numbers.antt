-- ===== src/Debugger/Numbers.antt =====
-- `parse_int` of src/debugger.c on the numbers that `printf` writes.
use sigma16_emulator.Base.{
  Bool, ℕ, zero, suc, ◌+◌, ◌*◌, ◌/◌, ◌%◌, ◌^◌, ◌<◌, ◌≡◌, refl, ap, ◌∙◌, arith, inl, inr, ltb,
  lt→ltb, ◌==◌, ==_ne, ◌≢◌, if◌then◌else◌, ◌&&◌, ◌||◌, List, [], ◌∷◌,
}
use sigma16_emulator.Base.Cases.{Bool-cases}
use sigma16_emulator.Text.{digit, digits_of, decimal}
use sigma16_emulator.Debugger.Strtol.{
  digit_value, magnitude, prefixed, signed, skip_space, parse_int,
}

-- A digit other than 0.
abbrev pub IsLeading : List ℕ → Type 0
IsLeading [] = ⊥
IsLeading (c ∷ cs) = (48 < c) × (c < 58)

digit_value-digit : (d : ℕ) → d < 10 → digit_value (digit d) ≡ d
digit_value-digit d h = ground arith

digits_of-IsLeading :
    (fuel n : ℕ) (rest : List ℕ) → 0 < n → n < 10 ^ fuel → IsLeading (digits_of fuel 10 n rest)
unfolding digits_of
digits_of-IsLeading zero n rest lo hi = let absurd : ⊥ = omega arith in elim absurd [ ]
digits_of-IsLeading (suc fuel) n rest lo hi = elim (Bool-cases (ltb n 10)) [
  | inl small ↦ rw small (ground arith)
  | inr large ↦ rw large (digits_of-IsLeading fuel (n / 10) _ (ground arith) (omega arith))
]

magnitude-digit :
    (acc d : ℕ) (rest : List ℕ)
    → d < 10
    → magnitude 10 acc (digit d ∷ rest) ≡ magnitude 10 (acc * 10 + d) rest
unfolding magnitude
magnitude-digit acc d rest h = rw (digit_value-digit d h, lt→ltb d 10 h)

magnitude-digits_of :
    (fuel n : ℕ) (rest : List ℕ)
    → n < 10 ^ fuel
    → magnitude 10 0 (digits_of fuel 10 n rest) ≡ magnitude 10 n rest
unfolding digits_of
magnitude-digits_of zero n rest h = ap (λ (m : ℕ). magnitude 10 m rest) (omega arith)
magnitude-digits_of (suc fuel) n rest h = elim (Bool-cases (ltb n 10)) [
  | inl small ↦ rw small (
      magnitude-digit 0 (n % 10) rest (omega arith)
      ∙ ap (λ (m : ℕ). magnitude 10 m rest) (ground arith))
  | inr large ↦ rw large (
      magnitude-digits_of fuel (n / 10) _ (omega arith)
      ∙ magnitude-digit (n / 10) (n % 10) rest (omega arith)
      ∙ ap (λ (m : ℕ). magnitude 10 m rest) (omega arith))
]

skip_space-IsLeading : (s : List ℕ) → IsLeading s → skip_space s ≡ s
unfolding skip_space
skip_space-IsLeading [] h = refl
skip_space-IsLeading (c ∷ cs) h = ground (arith, h.0, h.1)

prefixed-IsLeading : (s : List ℕ) → IsLeading s → prefixed s ≡ magnitude 10 0 s
unfolding prefixed
prefixed-IsLeading [] h = refl
prefixed-IsLeading (c ∷ []) h = rw (==_ne c 48 (omega (arith, h.0)))
prefixed-IsLeading (c ∷ x ∷ []) h = rw (==_ne c 48 (omega (arith, h.0)))
prefixed-IsLeading (c ∷ x ∷ y ∷ cs) h =
    ap
      (λ (z : Bool).
        if z && (x == 120 || x == 88) && ltb (digit_value y) 16
        then magnitude 16 0 (y ∷ cs)
        else magnitude (if z then 8 else 10) 0 (c ∷ x ∷ y ∷ cs))
      (==_ne c 48 (omega (arith, h.0)))

signed-IsLeading :
    (s : List ℕ) → IsLeading s → magnitude 10 0 s < 2 ^ 31 → signed s ≡ magnitude 10 0 s
unfolding signed
signed-IsLeading [] h bound = elim h [ ]
signed-IsLeading (c ∷ cs) h bound =
    let plain : c ≢ 45 = omega (arith, h.0) in
    let unsigned : c ≢ 43 = omega (arith, h.0) in
    rw (==_ne c 45 plain, ==_ne c 43 unsigned, prefixed-IsLeading (c ∷ cs) h) (ground arith)

parse_int-IsLeading :
    (s : List ℕ) (n : ℕ) → IsLeading s → magnitude 10 0 s ≡ n → n < 2 ^ 31 → parse_int s ≡ n
unfolding parse_int
parse_int-IsLeading s n h e bound =
    rw (skip_space-IsLeading s h) (signed-IsLeading s h (rw e bound) ∙ e)

pub decimal-digits_of : (n : ℕ) → n < 2 ^ 31 → decimal n ≡ digits_of 10 10 n []
unfolding decimal
decimal-digits_of n h = rw (lt→ltb n (2 ^ 31) h)

magnitude_end : (n : ℕ) → magnitude 10 n [] ≡ n
unfolding magnitude
magnitude_end n = refl

parse_int_zero : parse_int (decimal 0) ≡ 0
unfolding parse_int decimal
parse_int_zero = refl

-- A number that an `int` can hold, and not a negative one, is read back from its decimal digits.
pub parse_int-decimal : (n : ℕ) → n < 2 ^ 31 → parse_int (decimal n) ≡ n
parse_int-decimal zero h = parse_int_zero
parse_int-decimal (suc m) h =
    let n : ℕ = suc m in
    ap parse_int (decimal-digits_of n h)
    ∙ parse_int-IsLeading (digits_of 10 10 n []) n
        (digits_of-IsLeading 10 n [] (omega arith) (omega arith))
        (magnitude-digits_of 10 n [] (omega arith) ∙ magnitude_end n) h
