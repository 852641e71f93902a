-- ===== src/Cpu/Flags.antt =====
-- `sigma16_reg_status_t` of src/cpu.h: one bit for each flag, in the byte behind `_padding`, so
-- that `C` is bit 8 of the register and `G` bit 15 on a little-endian host.
use sigma16_emulator.Base.{ℕ, ◌+◌, ◌-◌, ◌*◌, ◌/◌, ◌%◌, ◌^◌, Bool, ◌==◌, if◌then◌else◌}

-- The fields `C v V L l E g G`, in this order.
pub data Flag : Type 0 where
  carry int_overflow nat_overflow nat_less int_less equal int_greater nat_greater : Flag

abbrev pub flag_bit : Flag → ℕ
flag_bit carry = 8
flag_bit int_overflow = 9
flag_bit nat_overflow = 10
flag_bit nat_less = 11
flag_bit int_less = 12
flag_bit equal = 13
flag_bit int_greater = 14
flag_bit nat_greater = 15

-- Reading a flag's bit field.
unfoldable pub get_flag : Flag → ℕ → Bool
get_flag f w = w / 2 ^ flag_bit f % 2 == 1

-- SETFLAG: the bit field of `f` in the register value `w` becomes `b`.
unfoldable pub set_flag : Flag → Bool → ℕ → ℕ
set_flag f b w = w - w / 2 ^ flag_bit f % 2 * 2 ^ flag_bit f + (if b then 2 ^ flag_bit f else 0)
