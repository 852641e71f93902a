-- ===== src/Memory/Laws.antt =====
-- `read_mem` and `write_mem` of src/vm.c together.
use sigma16_emulator.Base.{
  ℕ, ◌<◌, ◌≡◌, arith, inl, inr, lt→ltb, ◌==◌, if◌then◌else◌, u16, ap, bswap_16, bswap_16-bswap_16,
}
use sigma16_emulator.Base.Cases.{Bool-cases}
use sigma16_emulator.Cpu.{update}
use sigma16_emulator.Machine.{World, ok, ◌>>=◌, ◌>>◌}
use sigma16_emulator.Memory.{mem_words, fetch, read_mem, write_mem}

module _ {H : Type 0} (w : World H) where
  -- The world after a store inside the mapping.
  abbrev pub stored : ℕ → ℕ → World H
  stored a v = record w { vm = record (w.vm) { mem = update w.vm.mem a (bswap_16 (u16 v)) } }

  -- After a store inside the mapping, reading the same address gives the value stored, modulo
  -- 2 ^ 16, and reading any other mapped address gives the word that was there.
  pub read_mem-write_mem :
      (a b v : ℕ)
      → a < mem_words
      → b < mem_words
      → (write_mem a v >> read_mem b) w
        ≡ ok (if a == b then u16 v else bswap_16 (w.vm.mem b)) (stored a v)
  unfolding ◌>>◌ write_mem read_mem
  read_mem-write_mem a b v ha hb =
      rw (lt→ltb _ _ ha, ◌>>=◌)
        (rw (lt→ltb _ _ hb, fetch, ◌>>=◌)
          (elim (Bool-cases (a == b)) [
            | inl e ↦
                rw e (ap (λ (n : ℕ). ok n (stored a v)) (bswap_16-bswap_16 (u16 v) (omega arith)))
            | inr e ↦ rw e
          ]))
