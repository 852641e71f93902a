-- ===== src/Exec/Output.antt =====
-- What `trap_write` prints.
use sigma16_emulator.Base.{
  ℕ, zero, suc, ◌+◌, ◌%◌, ◌≤◌, ◌≡◌, ap, ◌∙◌, sym, arith, lt→ltb, List, [], ◌∷◌, ◌++◌, u16, bswap_16,
}
use mathlib.Core.List.{append-nil, append_assoc}
use sigma16_emulator.Base.Bits.{bit_and_byte}
use sigma16_emulator.Memory.{mem_words, fetch, read_mem}
use sigma16_emulator.Machine.{World, ok, ◌>>=◌, ◌>>◌}
use sigma16_emulator.Exec.Trap.{trap_write_loop}

-- The low bytes of `count` words from address `a` on.
abbrev pub low_bytes : (ℕ → ℕ) → ℕ → ℕ → List ℕ
low_bytes mem a zero = []
low_bytes mem a (suc count) = bswap_16 (mem a) % 256 ∷ low_bytes mem (a + 1) count

module _ {H : Type 0} where
  -- Where the string lies inside the mapping, the loop of `trap_write` appends the low byte of each
  -- of its words to the output, in order, and changes nothing else.
  pub trap_write_loop-low_bytes :
      (count addr i a : ℕ) (w : World H)
      → addr + i ≡ a
      → a + count ≤ mem_words
      → trap_write_loop count addr i w
        ≡ ok tt (record w { out = w.out ++ low_bytes w.vm.mem a count })
  unfolding trap_write_loop read_mem ◌>>◌
  trap_write_loop-low_bytes zero addr i a w e h =
      ap (λ (o : List ℕ). ok tt (record w { out = o })) (sym (append-nil w.out))
  trap_write_loop-low_bytes (suc count) addr i a w e h =
      let here : u16 (addr + i) ≡ a = omega arith in
      rw here (
        rw (lt→ltb a mem_words (omega arith), fetch, ◌>>=◌)
          (rw bit_and_byte (
            trap_write_loop-low_bytes count addr (i + 1) (a + 1) _ (omega arith) (omega arith)
            ∙ ap (λ (o : List ℕ). ok tt (record w { out = o })) (append_assoc w.out _ _))))
