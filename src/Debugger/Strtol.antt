-- ===== src/Debugger/Strtol.antt =====
-- The functions of <string.h> and <stdlib.h> with which src/debugger.c takes a line apart:
-- `strtok` with the separator " ", and `strtol` with base 0. An `int` is its 32-bit pattern.
use sigma16_emulator.Base.{
  ℕ, ◌+◌, ◌-◌, ◌*◌, ◌%◌, ◌^◌, Bool, true, false, ltb, leb, ◌==◌, ◌&&◌, ◌||◌, if◌then◌else◌, List,
  [], ◌∷◌, ◌++◌, Option, none, some,
}

-- A token that has been collected, in front of the rest; an empty one is none.
abbrev pub flush : List ℕ → List (List ℕ) → List (List ℕ)
flush [] rest = rest
flush (c ∷ cs) rest = (c ∷ cs) ∷ rest

unfoldable pub tokens_from : List ℕ → List ℕ → List (List ℕ)
tokens_from token [] = flush token []
tokens_from token (c ∷ cs) = elim (c == b' ') [
  | true ↦ flush token (tokens_from [] cs)
  | false ↦ tokens_from (token ++ c ∷ []) cs
]

-- What the calls of `strtok` on a line return, up to the first NULL.
unfoldable pub tokens : List ℕ → List (List ℕ)
unfolding tokens_from
tokens line = tokens_from [] line

-- `isspace`.
abbrev pub is_space : ℕ → Bool
is_space c = c == b' ' || leb 9 c && leb c 13

-- The value of a character as a digit; 36 for none.
abbrev pub digit_value : ℕ → ℕ
digit_value c =
    if leb b'0' c && leb c b'9'
    then c - b'0'
    else if leb b'a' c && leb c b'z'
    then c - b'a' + 10
    else if leb b'A' c && leb c b'Z'
    then c - b'A' + 10
    else 36

-- The number that the longest run of digits denotes.
unfoldable pub magnitude : ℕ → ℕ → List ℕ → ℕ
magnitude base acc [] = acc
magnitude base acc (c ∷ cs) =
    let more = magnitude base (acc * base + digit_value c) cs in
    if ltb (digit_value c) base then more else acc

-- The base that a prefix shows: `0x` in front of a hexadecimal digit, or `0`.
unfoldable pub prefixed : List ℕ → ℕ
unfolding magnitude
prefixed (z ∷ x ∷ h ∷ cs) =
    if z == b'0' && (x == b'x' || x == b'X') && ltb (digit_value h) 16
    then magnitude 16 0 (h ∷ cs)
    else magnitude (if z == b'0' then 8 else 10) 0 (z ∷ x ∷ h ∷ cs)
prefixed (z ∷ cs) = magnitude (if z == b'0' then 8 else 10) 0 (z ∷ cs)
prefixed [] = 0

-- `strtol` stops at LONG_MAX and LONG_MIN; the `int` keeps the low 32 bits.
abbrev pub long_max : ℕ
long_max = 2 ^ 63 - 1

unfoldable pub signed : List ℕ → ℕ
unfolding prefixed
signed [] = 0
signed (c ∷ cs) =
    let minus = prefixed cs in
    if c == b'-'
    then (2 ^ 64 - (if ltb (2 ^ 63) minus then 2 ^ 63 else minus)) % 2 ^ 32
    else let n = (if c == b'+' then prefixed cs else prefixed (c ∷ cs)) in
      (if ltb long_max n then long_max else n) % 2 ^ 32

unfoldable pub skip_space : List ℕ → List ℕ
skip_space [] = []
skip_space (c ∷ cs) = if is_space c then skip_space cs else c ∷ cs

-- `parse_int`: the `int` that `strtol(buf, NULL, 0)` becomes.
unfoldable pub parse_int : List ℕ → ℕ
unfolding signed skip_space
parse_int buf = signed (skip_space buf)

-- `parse_int_default`, of a token that may be missing.
unfoldable pub parse_int_default : Option (List ℕ) → ℕ → ℕ
unfolding parse_int
parse_int_default none def = def
parse_int_default (some buf) def = parse_int buf
