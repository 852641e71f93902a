-- ===== src/Text.antt =====
-- What the source prints: string literals, `printf` conversions, and the ANSI escapes of
-- src/tracing.h, as bytes.
use Prim.Native.Char.{code}
use Prim.Native.String.{String}
use sigma16_emulator.Base.{
  ℕ, zero, suc, ◌+◌, ◌-◌, ◌/◌, ◌%◌, ◌^◌, ltb, if◌then◌else◌, List, [], ◌∷◌, length,
}

abbrev pub codes : String → List ℕ
codes String.[] = []
codes (String.◌∷◌ c s) = code c ∷ codes s

-- The digit `d` in base 16.
abbrev pub digit : ℕ → ℕ
digit d = if ltb d 10 then b'0' + d else b'a' + (d - 10)

-- The digits of `n` in base `base`, at most `fuel` of them, in front of `rest`.
unfoldable pub digits_of : ℕ → ℕ → ℕ → List ℕ → List ℕ
digits_of zero base n rest = rest
digits_of (suc fuel) base n rest =
    let all = digit (n % base) ∷ rest in
    let more = digits_of fuel base (n / base) all in if ltb n base then all else more

abbrev pub pad_left : ℕ → ℕ → List ℕ → List ℕ
pad_left zero c s = s
pad_left (suc n) c s = c ∷ pad_left n c s

abbrev pub pad_right : ℕ → List ℕ → List ℕ
pad_right zero s = s
pad_right (suc n) [] = b' ' ∷ pad_right n []
pad_right (suc n) (c ∷ s) = c ∷ pad_right n s

-- `%d` for an `int`, given by its 32-bit pattern.
unfoldable pub decimal : ℕ → List ℕ
unfolding digits_of
decimal n = if ltb n (2 ^ 31) then digits_of 10 10 n [] else b'-' ∷ digits_of 10 10 (2 ^ 32 - n) []

-- `%04x`.
unfoldable pub hex4 : ℕ → List ℕ
unfolding digits_of
hex4 n = let s = digits_of 8 16 n [] in pad_left (4 - length s) b'0' s

-- `%02d`.
unfoldable pub decimal2 : ℕ → List ℕ
unfolding decimal
decimal2 n = let s = decimal n in pad_left (2 - length s) b'0' s

abbrev pub newline : List ℕ
newline = 10 ∷ []

abbrev pub tab : List ℕ
tab = 9 ∷ []

-- ANSI_OFF and the colours.
abbrev escape : String → List ℕ
escape s = 0x1b ∷ codes s

abbrev pub ansi_off : List ℕ
ansi_off = escape "[0m"

abbrev pub ansi_red : List ℕ
ansi_red = escape "[31m"

abbrev pub ansi_green : List ℕ
ansi_green = escape "[32m"

abbrev pub ansi_yellow : List ℕ
ansi_yellow = escape "[33m"

abbrev pub ansi_blue : List ℕ
ansi_blue = escape "[34m"

abbrev pub ansi_magenta : List ℕ
ansi_magenta = escape "[35m"

abbrev pub ansi_cyan : List ℕ
ansi_cyan = escape "[36m"

abbrev pub ansi_white : List ℕ
ansi_white = escape "[37m"
