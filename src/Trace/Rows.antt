-- ===== src/Trace/Rows.antt =====
-- What `dump_vm_mem` of src/tracing.c shows of memory, row by row.
use mathlib.Core.List.{append-nil, append_assoc}
use sigma16_emulator.Base.{
  ℕ, zero, suc, ◌+◌, ◌-◌, ◌*◌, ◌%◌, ◌^◌, ◌≤◌, ◌<◌, ◌≡◌, refl, sym, ap, ◌∙◌, arith, List, [], ◌∷◌,
  ◌++◌, true, false, ltb, leb, ◌&&◌, ◌||◌, not, ◌==◌, if◌then◌else◌, lt→ltb, length, set, u16,
  replicate, bswap_16,
}
use sigma16_emulator.Base.Bits.{bit_and_byte}
use sigma16_emulator.Memory.{mem_words, fetch, read_mem}
use sigma16_emulator.Machine.{World, M, ok, stop, print, ◌>>=◌, ◌>>◌}
use sigma16_emulator.Text.{codes, hex4}
use sigma16_emulator.Trace.{print_value}
use sigma16_emulator.Trace.Dump.{dump_loop, dump_vm_mem, print_array_char, blanks}

-- The word at an address, and its low byte as a character where that can be printed.
abbrev pub cell : (ℕ → ℕ) → ℕ → List ℕ
cell mem i = print_value (bswap_16 (mem i)) ++ codes " "

abbrev pub letter : (ℕ → ℕ) → ℕ → ℕ
letter mem i = let c = bswap_16 (mem i) % 256 in if leb b' ' c && leb c b'~' then c else b'.'

-- The same of `count` words from an address on.
abbrev pub cells : (ℕ → ℕ) → ℕ → ℕ → List ℕ
cells mem i zero = []
cells mem i (suc count) = cell mem i ++ cells mem (i + 1) count

abbrev pub letters : (ℕ → ℕ) → ℕ → ℕ → List ℕ
letters mem i zero = []
letters mem i (suc count) = letter mem i ∷ letters mem (i + 1) count

-- A row: its address, its sixteen words, and their characters with a byte 0 behind them.
abbrev pub heading : ℕ → List ℕ
heading i = codes "[" ++ hex4 i ++ codes "] "

abbrev pub characters : (ℕ → ℕ) → ℕ → List ℕ
characters mem i = print_array_char (letters mem i 16 ++ 0 ∷ [])

abbrev pub row : (ℕ → ℕ) → ℕ → List ℕ
row mem k = heading (16 * k) ++ (cells mem (16 * k) 16 ++ characters mem (16 * k))

abbrev pub rows : (ℕ → ℕ) → ℕ → ℕ → List ℕ
rows mem k zero = []
rows mem k (suc count) = row mem k ++ rows mem (k + 1) count

-- More output.
abbrev pub written : {H : Type 0} → List ℕ → World H → World H
written text w = record w { out = w.out ++ text }

written-written :
    {H : Type 0} (s t : List ℕ) (w : World H) → written t (written s w) ≡ written (s ++ t) w
written-written s t w = ap (λ (o : List ℕ). record w { out = o }) (append_assoc w.out s t)

read_mem-ok :
    {H : Type 0} (i : ℕ) (w : World H)
    → i < mem_words
    → read_mem (u16 i) w ≡ ok (bswap_16 (w.vm.mem i)) w
unfolding read_mem fetch ◌>>=◌
read_mem-ok i w h =
    let same : u16 i ≡ i = omega arith in rw same (rw (lt→ltb i mem_words h, fetch, ◌>>=◌) refl)

letter-shown :
    (c : ℕ)
    → (if ltb c b' ' || ltb b'~' c then b'.' else c)
      ≡ (if leb b' ' c && leb c b'~' then c else b'.')
letter-shown c = ground arith

-- What is printed in front of a word that does not start a row, and of one that does.
abbrev head_of : ℕ → List ℕ → List ℕ
head_of i buf =
    if i % 16 == 0
    then (if i == 0 then [] else print_array_char buf) ++ codes "[" ++ hex4 i ++ codes "] "
    else []

-- One round of the loop.
dump_loop-cell :
    {H : Type 0} (rounds i : ℕ) (buf : List ℕ) (w : World H)
    → i < mem_words
    → length buf ≡ 17
    → dump_loop (suc rounds) i buf w
      ≡ dump_loop rounds
          (i + 1)
          (set buf (i % 16) (letter w.vm.mem i))
          (written (head_of i buf ++ cell w.vm.mem i) w)
unfolding dump_loop read_mem ◌>>=◌ ◌>>◌
dump_loop-cell rounds i buf w mapped full =
    let inside : (leb (2 ^ 31) i && not (i % 16 == 0) || leb (length buf) (i % 16)) ≡ false =
      ground arith in
    let same : u16 i ≡ i = omega arith in
    rw same (
      rw (lt→ltb i mem_words mapped, fetch, ◌>>=◌)
        (rw (bit_and_byte, inside)
          (ap
              (λ (c : ℕ).
                dump_loop rounds (i + 1) (set buf (i % 16) c)
                  (written (cell w.vm.mem i) (written (head_of i buf) w)))
              (letter-shown (bswap_16 (w.vm.mem i) % 256))
            ∙ ap (dump_loop rounds (i + 1) (set buf (i % 16) (letter w.vm.mem i)))
                (written-written (head_of i buf) (cell w.vm.mem i) w))))

set-after :
    (pre : List ℕ) (x c : ℕ) (post : List ℕ)
    → set (pre ++ (x ∷ post)) (length pre) c ≡ pre ++ (c ∷ post)
set-after [] x c post = refl
set-after (y ∷ pre) x c post = ap (λ (zs : List ℕ). y ∷ zs) (set-after pre x c post)

length-++ : (xs ys : List ℕ) → length (xs ++ ys) ≡ length xs + length ys
length-++ [] ys = omega arith
length-++ (x ∷ xs) ys = omega (arith, length-++ xs ys)

-- The characters of a row in the buffer: those behind `pre` are replaced by those of the words from `i` on.
dump_loop-rest :
    {H : Type 0} (olds pre : List ℕ) (total rounds k i j : ℕ) (w : World H)
    → 0 < length pre
    → length pre + length olds ≡ 16
    → total ≡ length olds + rounds
    → i ≡ 16 * k + length pre
    → j ≡ 16 * k + 16
    → j ≤ mem_words
    → dump_loop total i (pre ++ (olds ++ 0 ∷ [])) w
      ≡ dump_loop rounds j
          (pre ++ (letters w.vm.mem i (length olds) ++ 0 ∷ []))
          (written (cells w.vm.mem i (length olds)) w)
dump_loop-rest [] pre total rounds k i j w some_words fits count at_i at_j mapped =
    let same_count : total ≡ rounds = omega arith in
    let same : i ≡ j = omega arith in
    rw (same_count, same)
      (ap (λ (o : List ℕ). dump_loop rounds j (pre ++ 0 ∷ []) (record w { out = o }))
        (sym (append-nil w.out)))
dump_loop-rest (x ∷ olds) pre zero rounds k i j w some_words fits count at_i at_j mapped =
    let none_left : ⊥ = omega arith in absurd none_left
dump_loop-rest (x ∷ olds) pre (suc total) rounds k i j w some_words fits count at_i at_j mapped =
    let c = letter w.vm.mem i in
    let buf = pre ++ (x ∷ (olds ++ 0 ∷ [])) in
    let place : i % 16 ≡ length pre = omega arith in
    let inside : (i % 16 == 0) ≡ false = ground arith in
    let full : length buf ≡ 17 =
      omega (arith, length-++ pre (x ∷ (olds ++ 0 ∷ [])), length-++ olds (0 ∷ [])) in
    let longer : length (pre ++ c ∷ []) ≡ length pre + 1 = omega (arith, length-++ pre (c ∷ [])) in
    dump_loop-cell total i buf w (omega arith) full
    ∙ rw (inside, place, set-after pre x c (olds ++ 0 ∷ []))
        (ap (λ (b : List ℕ). dump_loop total (i + 1) b (written (cell w.vm.mem i) w))
            (sym (append_assoc pre (c ∷ []) (olds ++ 0 ∷ [])))
          ∙ dump_loop-rest olds (pre ++ c ∷ []) total rounds k (i + 1) j
              (written (cell w.vm.mem i) w) (omega arith) (omega arith) (omega arith) (omega arith)
              at_j mapped
          ∙ ap
              (λ (b : List ℕ).
                dump_loop rounds j b
                  (written (cells w.vm.mem (i + 1) (length olds)) (written (cell w.vm.mem i) w)))
              (append_assoc pre (c ∷ []) (letters w.vm.mem (i + 1) (length olds) ++ 0 ∷ []))
          ∙ ap (dump_loop rounds j (pre ++ (letters w.vm.mem i (length (x ∷ olds)) ++ 0 ∷ [])))
              (written-written (cell w.vm.mem i) (cells w.vm.mem (i + 1) (length olds)) w))

-- A row of the loop: the buffer is filled anew.
dump_loop-row :
    {H : Type 0} (olds : List ℕ) (x total rounds k i j : ℕ) (w : World H)
    → length olds ≡ 15
    → total ≡ 16 + rounds
    → i ≡ 16 * k
    → j ≡ 16 * k + 16
    → j ≤ mem_words
    → dump_loop total i (x ∷ (olds ++ 0 ∷ [])) w
      ≡ dump_loop rounds j
          (letters w.vm.mem i 16 ++ 0 ∷ [])
          (written (head_of i (x ∷ (olds ++ 0 ∷ [])) ++ cells w.vm.mem i 16) w)
dump_loop-row olds x zero rounds k i j w fifteen count at_i at_j mapped =
    let none_left : ⊥ = omega arith in absurd none_left
dump_loop-row olds x (suc total) rounds k i j w fifteen count at_i at_j mapped =
    let c = letter w.vm.mem i in
    let buf = x ∷ (olds ++ 0 ∷ []) in
    let head = head_of i buf in
    let place : i % 16 ≡ 0 = omega arith in
    let full : length buf ≡ 17 = omega (arith, length-++ olds (0 ∷ [])) in
    dump_loop-cell total i buf w (omega arith) full
    ∙ ap (λ (m : ℕ). dump_loop total (i + 1) (set buf m c) (written (head ++ cell w.vm.mem i) w))
        place
    ∙ dump_loop-rest olds (c ∷ []) total rounds k (i + 1) j (written (head ++ cell w.vm.mem i) w)
        (omega arith) (omega arith) (omega arith) (omega arith) at_j mapped
    ∙ rw fifteen (
        ap (dump_loop rounds j (letters w.vm.mem i 16 ++ 0 ∷ [])) (
          written-written (head ++ cell w.vm.mem i) (cells w.vm.mem (i + 1) 15) w
          ∙ ap (λ (t : List ℕ). written t w)
              (append_assoc head (cell w.vm.mem i) (cells w.vm.mem (i + 1) 15))))

length-letters : (mem : ℕ → ℕ) (i count : ℕ) → length (letters mem i count) ≡ count
length-letters mem i zero = refl
length-letters mem i (suc count) = omega (arith, length-letters mem (i + 1) count)

-- The loop, and the characters that are printed after it.
abbrev shown : {H : Type 0} → ℕ → ℕ → List ℕ → M H (Unit {0})
shown total i buf = dump_loop total i buf >>= λ b. print (print_array_char b)

-- What is printed in front of the first heading: the characters of the buffer, but not at address 0.
abbrev pub lead : ℕ → List ℕ → List ℕ
lead k buf = if k == 0 then [] else print_array_char buf

head_of-lead : (k : ℕ) (buf : List ℕ) → head_of (16 * k) buf ≡ lead k buf ++ heading (16 * k)
head_of-lead k buf =
    let starts : (16 * k % 16 == 0) ≡ true = ground arith in
    let first : (16 * k == 0) ≡ (k == 0) = ground arith in rw (starts, first) (simp append_assoc)

row-regroup :
    (before head start words chars after : List ℕ)
    → head ≡ before ++ start
    → (head ++ words) ++ (chars ++ after) ≡ before ++ ((start ++ (words ++ chars)) ++ after)
row-regroup before head start words chars after e = rw e (simp append_assoc)

shown-row :
    {H : Type 0} (olds : List ℕ) (x total rounds k i j : ℕ) (w : World H)
    → length olds ≡ 15
    → total ≡ 16 + rounds
    → i ≡ 16 * k
    → j ≡ 16 * k + 16
    → j ≤ mem_words
    → shown total i (x ∷ (olds ++ 0 ∷ [])) w
      ≡ shown rounds j
          (letters w.vm.mem i 16 ++ 0 ∷ [])
          (written (head_of i (x ∷ (olds ++ 0 ∷ [])) ++ cells w.vm.mem i 16) w)
unfolding ◌>>=◌
shown-row olds x total rounds k i j w fifteen count at_i at_j mapped =
    ap (λ r. elim r [ ok b w' ↦ print (print_array_char b) w' | stop s w' ↦ stop s w' ])
      (dump_loop-row olds x total rounds k i j w fifteen count at_i at_j mapped)

-- A row in front of rows that the rest of the loop prints.
shown-more :
    {H : Type 0} (n k : ℕ) (olds : List ℕ) (x : ℕ) (w : World H)
    → length olds ≡ 15
    → 16 * (k + suc n) ≤ mem_words
    → let buf = x ∷ (olds ++ 0 ∷ []) in
      let next = letters w.vm.mem (16 * k) 16 ++ 0 ∷ [] in
      ((v : World H)
        → v.vm.mem ≡ w.vm.mem
        → shown (16 * n) (16 * (k + 1)) next v
          ≡ ok tt (written (print_array_char next ++ rows w.vm.mem (k + 1) n) v))
      → shown (16 * suc n) (16 * k) buf w
        ≡ ok tt (written (lead k buf ++ rows w.vm.mem k (suc n)) w)
shown-more n k olds x w fifteen mapped rest =
    let buf = x ∷ (olds ++ 0 ∷ []) in
    let words = cells w.vm.mem (16 * k) 16 in
    let text = head_of (16 * k) buf ++ words in
    shown-row olds x (16 * suc n) (16 * n) k (16 * k) (16 * (k + 1)) w fifteen (omega arith) refl
      (omega arith) (omega arith)
    ∙ rest (written text w) refl
    ∙ ap (ok tt) (
        written-written text _ w
        ∙ ap (λ (t : List ℕ). written t w)
            (row-regroup (lead k buf) (head_of (16 * k) buf) (heading (16 * k)) words
              (characters w.vm.mem (16 * k)) (rows w.vm.mem (k + 1) n) (head_of-lead k buf)))

shown-rows :
    {H : Type 0} (n k : ℕ) (olds : List ℕ) (x : ℕ) (w : World H)
    → length olds ≡ 15
    → 0 < k
    → 16 * (k + n) ≤ mem_words
    → shown (16 * n) (16 * k) (x ∷ (olds ++ 0 ∷ [])) w
      ≡ ok tt (written (print_array_char (x ∷ (olds ++ 0 ∷ [])) ++ rows w.vm.mem k n) w)
unfolding dump_loop ◌>>=◌
shown-rows zero k olds x w fifteen later mapped =
    ap (λ (t : List ℕ). ok tt (written t w))
      (sym (append-nil (print_array_char (x ∷ (olds ++ 0 ∷ [])))))
shown-rows (suc n) k olds x w fifteen later mapped =
    let not_first : (k == 0) ≡ false = ground arith in
    shown-more n k olds x w fifteen mapped (λ v same. rw (← same) (
      shown-rows n (k + 1) (letters v.vm.mem (16 * k + 1) 15) (letter v.vm.mem (16 * k)) v
        (length-letters v.vm.mem (16 * k + 1) 15) (omega arith) (omega arith)))
    ∙ rw not_first refl

-- A dump of whole rows, from a multiple of 16 up to another one that is above it and mapped, comes to its
-- end and changes nothing but the output: that gets one row after the other, each the address of its first
-- word, its sixteen words, and then the characters of these same words and a byte 0; but where it does not
-- start at address 0, a line of seventeen bytes 0 comes before the first row.
pub dump_vm_mem-rows :
    {H : Type 0} (k n : ℕ) (w : World H)
    → 0 < n
    → 16 * (k + n) ≤ mem_words
    → dump_vm_mem (16 * k) (16 * (k + n)) w
      ≡ ok tt (written (lead k (replicate 17 0) ++ rows w.vm.mem k n) w)
unfolding dump_vm_mem ◌>>=◌
dump_vm_mem-rows k zero w some_rows mapped = let no_rows : ⊥ = omega arith in absurd no_rows
dump_vm_mem-rows k (suc n) w some_rows mapped =
    let count : 16 * (k + suc n) - 16 * k ≡ 16 * suc n = omega arith in
    let last = if ltb (16 * k) (16 * (k + suc n)) then 16 * (k + suc n) else 16 * k in
    let whole : (16 - last % 16) % 16 ≡ 0 = ground arith in
    ap
      (λ (m : ℕ).
        (dump_loop (16 * (k + suc n) - 16 * k) (16 * k) (replicate 17 0) >>= λ buf.
        print (blanks m ++ print_array_char buf))
          w)
      whole
    ∙ ap (λ (m : ℕ). shown m (16 * k) (replicate 17 0) w) count
    ∙ shown-more n k (replicate 15 0) 0 w refl mapped (λ v same. rw (← same) (
        shown-rows n (k + 1) (letters v.vm.mem (16 * k + 1) 15) (letter v.vm.mem (16 * k)) v
          (length-letters v.vm.mem (16 * k + 1) 15) (omega arith) (omega arith)))
