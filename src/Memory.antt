-- ===== src/Memory.antt =====
-- src/vm.c: `read_mem` and `write_mem`. The mapping behind `vm->mem` has 1 << 16 bytes, which is
-- half as many words; an access past them is undefined.
pub mod Laws
use sigma16_emulator.Base.{ℕ, ◌/◌, ◌^◌, ltb, if◌then◌else◌, u16, bswap_16}
use sigma16_emulator.Cpu.{update}
use sigma16_emulator.Machine.{M, ok, stop, undefined, ◌>>=◌, ret}

-- The size that `sigma16_vm_init` maps, in bytes, and the words that it holds.
abbrev pub mem_bytes : ℕ
mem_bytes = 2 ^ 16

abbrev pub mem_words : ℕ
mem_words = mem_bytes / 2

module _ {H : Type 0} where
  -- `vm->mem[addr]`, as the host reads it.
  unfoldable pub fetch : ℕ → M H ℕ
  fetch addr w = if ltb addr mem_words then ok (w.vm.mem addr) w else stop undefined w

  unfoldable pub read_mem : ℕ → M H ℕ
  unfolding fetch
  read_mem addr = do v ← fetch addr; ret (bswap_16 v)

  -- The parameter `val` is a `uint16_t`.
  unfoldable pub write_mem : ℕ → ℕ → M H (Unit {0})
  write_mem addr val w =
      if ltb addr mem_words
      then ok tt
          (record w { vm = record (w.vm) { mem = update w.vm.mem addr (bswap_16 (u16 val)) } })
      else stop undefined w
