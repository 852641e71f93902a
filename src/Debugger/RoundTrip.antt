-- ===== src/Debugger/RoundTrip.antt =====
-- The lines that a user types for commands, and `parse_cmd` of src/debugger.c on them.
use mathlib.Core.List.{append-nil, append_assoc}
use sigma16_emulator.Base.{
  ℕ, zero, suc, ◌/◌, ◌%◌, ◌^◌, ◌<◌, ◌≡◌, ◌≢◌, refl, sym, ap, ◌∙◌, arith, inl, inr, Bool, true,
  false, ltb, ==_ne, List, [], ◌∷◌, ◌++◌, map,
}
use sigma16_emulator.Base.Cases.{Bool-cases}
use sigma16_emulator.Text.{digit, digits_of, decimal}
use sigma16_emulator.Debugger.Strtol.{flush, tokens_from, tokens, parse_int, parse_int_default}
use sigma16_emulator.Debugger.Command.{
  Cmd, Prompt, command, parse_cmd, parse_tokens, parse_cmd_step, parse_cmd_set_breakpoint,
  parse_cmd_write_reg, parse_cmd_read_reg, parse_cmd_dump_mem,
}
use sigma16_emulator.Debugger.Numbers.{decimal-digits_of, parse_int-decimal}

-- Numbers in decimal, each behind a blank.
abbrev pub spaced : List ℕ → List ℕ
spaced [] = []
spaced (n ∷ ns) = b' ' ∷ (decimal n ++ spaced ns)

-- The line that a user types for a command.
abbrev pub typed : Cmd → List ℕ
typed (Cmd.step n) = b'n' ∷ spaced (n ∷ [])
typed Cmd.go_on = b'c' ∷ spaced []
typed Cmd.trace = b't' ∷ spaced []
typed (Cmd.set_breakpoint addr) = b'b' ∷ spaced (addr ∷ [])
typed Cmd.dump_cpu = b'd' ∷ spaced []
typed (Cmd.dump_mem end start) = b'm' ∷ spaced (end ∷ start ∷ [])
typed (Cmd.write_reg reg val) = b'i' ∷ spaced (reg ∷ val ∷ [])
typed (Cmd.read_reg reg) = b'o' ∷ spaced (reg ∷ [])
typed Cmd.help = b'?' ∷ spaced []
typed Cmd.exit = b'e' ∷ spaced []

abbrev pub AllInt : List ℕ → Type 0
AllInt [] = Unit
AllInt (n ∷ ns) = (n < 2 ^ 31) × AllInt ns

-- The arguments of a command are not negative.
abbrev pub IsTypable : Cmd → Type 0
IsTypable (Cmd.step n) = n < 2 ^ 31
IsTypable (Cmd.set_breakpoint addr) = addr < 2 ^ 31
IsTypable (Cmd.dump_mem end start) = (end < 2 ^ 31) × (start < 2 ^ 31)
IsTypable (Cmd.write_reg reg val) = (reg < 2 ^ 31) × (val < 2 ^ 31)
IsTypable (Cmd.read_reg reg) = reg < 2 ^ 31
IsTypable _ = Unit

abbrev IsPlain : List ℕ → Type 0
IsPlain [] = Unit
IsPlain (c ∷ cs) = (c ≢ b' ') × IsPlain cs

digits_of-IsPlain : (fuel n : ℕ) (rest : List ℕ) → IsPlain rest → IsPlain (digits_of fuel 10 n rest)
unfolding digits_of
digits_of-IsPlain zero n rest h = h
digits_of-IsPlain (suc fuel) n rest h =
    let here : digit (n % 10) ≢ b' ' = ground arith in
    elim (Bool-cases (ltb n 10)) [
      | inl small ↦ rw small ((here, h))
      | inr large ↦ rw large (digits_of-IsPlain fuel (n / 10) _ (here, h))
    ]

-- A token that is not empty is a token.
flush-digits_of :
    (fuel n c : ℕ) (cs : List ℕ) (r : List (List ℕ))
    → flush (digits_of fuel 10 n (c ∷ cs)) r ≡ digits_of fuel 10 n (c ∷ cs) ∷ r
unfolding digits_of
flush-digits_of zero n c cs r = refl
flush-digits_of (suc fuel) n c cs r = elim (Bool-cases (ltb n 10)) [
  | inl small ↦ rw small
  | inr large ↦ rw large (flush-digits_of fuel (n / 10) _ (c ∷ cs) r)
]

flush-digits :
    (n : ℕ) (r : List (List ℕ)) → flush (digits_of 10 10 n []) r ≡ digits_of 10 10 n [] ∷ r
unfolding digits_of
flush-digits n r = elim (Bool-cases (ltb n 10)) [
  | inl small ↦ rw small
  | inr large ↦ rw large (flush-digits_of 9 (n / 10) (digit (n % 10)) [] r)
]

tokens_from-other :
    (t cs : List ℕ) (c : ℕ) → c ≢ b' ' → tokens_from t (c ∷ cs) ≡ tokens_from (t ++ c ∷ []) cs
unfolding tokens_from
tokens_from-other t cs c ne =
    ap
      (λ (b : Bool). elim b [
        | true ↦ flush t (tokens_from [] cs)
        | false ↦ tokens_from (t ++ c ∷ []) cs
      ])
      (==_ne c b' ' ne)

tokens_from-IsPlain :
    (t s rest : List ℕ) → IsPlain s → tokens_from t (s ++ rest) ≡ tokens_from (t ++ s) rest
tokens_from-IsPlain t [] rest h = ap (λ (u : List ℕ). tokens_from u rest) (sym (append-nil t))
tokens_from-IsPlain t (c ∷ cs) rest h =
    tokens_from-other t (cs ++ rest) c h.0
    ∙ tokens_from-IsPlain (t ++ c ∷ []) cs rest h.1
    ∙ ap (λ (u : List ℕ). tokens_from u rest) (append_assoc t (c ∷ []) cs)

tokens_from-spaced :
    (t ns : List ℕ) → AllInt ns → tokens_from t (spaced ns) ≡ flush t (map decimal ns)
unfolding tokens_from
tokens_from-spaced t [] h = refl
tokens_from-spaced t (n ∷ ns) h =
    let plain : tokens_from [] (decimal n ++ spaced ns) ≡ decimal n ∷ map decimal ns =
      rw (decimal-digits_of n h.0) (
        tokens_from-IsPlain [] (digits_of 10 10 n []) (spaced ns) (digits_of-IsPlain 10 n [] tt)
        ∙ tokens_from-spaced (digits_of 10 10 n []) ns h.1
        ∙ flush-digits n (map decimal ns)) in
    ap (flush t) plain

tokens-spaced :
    (c : ℕ) (ns : List ℕ)
    → c ≢ b' '
    → AllInt ns
    → tokens (c ∷ spaced ns) ≡ (c ∷ []) ∷ map decimal ns
unfolding tokens
tokens-spaced c ns ne h = tokens_from-other [] (spaced ns) c ne ∙ tokens_from-spaced (c ∷ []) ns h

-- The answer of a user who types the command, where the allocations for it succeed.
abbrev pub answer : Bool → Cmd → Prompt
answer bp_ok cmd = record { line = typed cmd; cmd_ok = true; args_ok = true; bp_ok = bp_ok }

parse_cmd-tokens :
    (bp_ok : Bool) (cmd : Cmd) {ts : List (List ℕ)}
    → tokens (typed cmd) ≡ ts
    → parse_cmd (answer bp_ok cmd) ≡ parse_tokens (answer bp_ok cmd) ts
unfolding parse_cmd
parse_cmd-tokens bp_ok cmd e = ap (parse_tokens (answer bp_ok cmd)) e

-- Where the allocations succeed, the line typed for a command, its arguments decimal numbers that are
-- not negative and fit an `int`, is parsed to that command with these arguments.
pub parse_cmd-typed :
    (bp_ok : Bool) (cmd : Cmd) → IsTypable cmd → parse_cmd (answer bp_ok cmd) ≡ command cmd
unfolding parse_cmd_step parse_cmd_set_breakpoint parse_cmd_write_reg parse_cmd_read_reg
    parse_cmd_dump_mem parse_int_default
parse_cmd-typed bp_ok (Cmd.step n) h =
    parse_cmd-tokens bp_ok (Cmd.step n) (tokens-spaced b'n' (n ∷ []) (omega arith) (h, tt))
    ∙ ap (λ (a : ℕ). command (Cmd.step a)) (parse_int-decimal n h)
parse_cmd-typed bp_ok Cmd.go_on h =
    parse_cmd-tokens bp_ok Cmd.go_on (tokens-spaced b'c' [] (omega arith) tt)
parse_cmd-typed bp_ok Cmd.trace h =
    parse_cmd-tokens bp_ok Cmd.trace (tokens-spaced b't' [] (omega arith) tt)
parse_cmd-typed bp_ok (Cmd.set_breakpoint n) h =
    parse_cmd-tokens bp_ok (Cmd.set_breakpoint n)
      (tokens-spaced b'b' (n ∷ []) (omega arith) (h, tt))
    ∙ ap (λ (a : ℕ). command (Cmd.set_breakpoint a)) (parse_int-decimal n h)
parse_cmd-typed bp_ok Cmd.dump_cpu h =
    parse_cmd-tokens bp_ok Cmd.dump_cpu (tokens-spaced b'd' [] (omega arith) tt)
parse_cmd-typed bp_ok (Cmd.dump_mem n m) h =
    parse_cmd-tokens bp_ok (Cmd.dump_mem n m)
      (tokens-spaced b'm' (n ∷ m ∷ []) (omega arith) (h.0, (h.1, tt)))
    ∙ ap (λ (a : ℕ). command (Cmd.dump_mem a (parse_int (decimal m)))) (parse_int-decimal n h.0)
    ∙ ap (λ (a : ℕ). command (Cmd.dump_mem n a)) (parse_int-decimal m h.1)
parse_cmd-typed bp_ok (Cmd.write_reg n m) h =
    parse_cmd-tokens bp_ok (Cmd.write_reg n m)
      (tokens-spaced b'i' (n ∷ m ∷ []) (omega arith) (h.0, (h.1, tt)))
    ∙ ap (λ (a : ℕ). command (Cmd.write_reg a (parse_int (decimal m)))) (parse_int-decimal n h.0)
    ∙ ap (λ (a : ℕ). command (Cmd.write_reg n a)) (parse_int-decimal m h.1)
parse_cmd-typed bp_ok (Cmd.read_reg n) h =
    parse_cmd-tokens bp_ok (Cmd.read_reg n) (tokens-spaced b'o' (n ∷ []) (omega arith) (h, tt))
    ∙ ap (λ (a : ℕ). command (Cmd.read_reg a)) (parse_int-decimal n h)
parse_cmd-typed bp_ok Cmd.help h =
    parse_cmd-tokens bp_ok Cmd.help (tokens-spaced b'?' [] (omega arith) tt)
parse_cmd-typed bp_ok Cmd.exit h =
    parse_cmd-tokens bp_ok Cmd.exit (tokens-spaced b'e' [] (omega arith) tt)
