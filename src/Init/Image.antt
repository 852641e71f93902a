-- ===== src/Init/Image.antt =====
-- What `sigma16_vm_init` leaves in memory, and what it leaves allocated.
use sigma16_emulator.Base.{
  zero, suc, Bool, ltb, ◌&&◌, ◌∷◌, ℕ, ◌+◌, ◌*◌, ◌<◌, ◌≤◌, ◌≡◌, refl, ap, ◌↔◌, arith, true, inl, inr,
  lt→ltb, List, [], some, length, get_or, bswap_16,
}
use sigma16_emulator.Base.Cases.{Option-cases}
use sigma16_emulator.Memory.{mem_bytes, mem_words, fetch, read_mem}
use sigma16_emulator.Machine.{Vm, World, ok, ◌>>=◌}
use sigma16_emulator.Exec.Invariant.{IsMachine}
use sigma16_emulator.Init.{Os, Held, ready, zero_cpu, load_words, sigma16_vm_init}

-- The bytes of a file.
abbrev pub IsBytes : List ℕ → Type 0
IsBytes bytes = (i : ℕ) → get_or bytes i 0 < 256

abbrev pub all_bytes : List ℕ → Bool
all_bytes [] = true
all_bytes (b ∷ bs) = ltb b 256 && all_bytes bs

pub all_bytes-IsBytes : (bs : List ℕ) → all_bytes bs ≡ true → IsBytes bs
all_bytes-IsBytes [] e i = omega arith
all_bytes-IsBytes (b ∷ bs) e zero = ground arith
all_bytes-IsBytes (b ∷ bs) e (suc i) = all_bytes-IsBytes bs (ground arith) i

-- The machine that a file is loaded into.
abbrev pub booted : {H : Type 0} → List ℕ → H → World H
booted bytes host = record {
  vm = record { cpu = zero_cpu; mem = load_words bytes };
  out = [];
  host = host;
}

-- A machine fresh from a file is well formed.
pub booted-IsMachine :
    {H : Type 0} (bytes : List ℕ) (host : H) → IsBytes bytes → IsMachine (booted bytes host)
booted-IsMachine bytes host h = record {
  cpu_fits = record {
    regs_fit = λ i. omega arith;
    zero_reg = refl;
    pc_fits = omega arith;
    adr_fits = omega arith;
    first_fits = omega arith;
    second_fits = omega arith;
  };
  mem_fits = λ a. omega (arith, h (2 * a), h (2 * a + 1));
}

-- After a file is loaded, the word at each mapped address reads as two bytes of the file, the first
-- of them the high byte, with 0 for bytes past its end.
pub read_mem-booted :
    {H : Type 0} (bytes : List ℕ) (host : H) (a : ℕ)
    → IsBytes bytes
    → a < mem_words
    → read_mem a (booted bytes host)
      ≡ ok (256 * get_or bytes (2 * a) 0 + get_or bytes (2 * a + 1) 0) (booted bytes host)
unfolding read_mem ◌>>=◌ bswap_16
read_mem-booted bytes host a h inside =
    rw (lt→ltb _ _ inside, fetch, ◌>>=◌)
      (ap (λ (v : ℕ). ok v (booted bytes host)) (omega (arith, h (2 * a), h (2 * a + 1))))

-- The fields of a result that is at hand.
abbrev pub Loads : Os → List ℕ → Vm → List ℕ → Type 0
Loads os fname vm bytes =
    (os.calloc_ok ≡ true)
    × (os.files fname ≡ some bytes)
    × (os.mmap_ok ≡ true)
    × (length bytes ≤ mem_bytes)
    × (vm ≡ record { cpu = zero_cpu; mem = load_words bytes })

pub sigma16_vm_init-ready :
    (os : Os) (fname : List ℕ) (vm : Vm) (held : Held)
    → sigma16_vm_init os fname ≡ ready vm held
    → (bytes : List ℕ) × Loads os fname vm bytes
unfolding sigma16_vm_init
sigma16_vm_init-ready os fname vm held e = elim (Option-cases (os.files fname)) [
  | inl missing ↦ ground arith
  | inr (bytes, found) ↦ (bytes, ground arith)
]

pub ready-sigma16_vm_init :
    (os : Os) (fname : List ℕ) (vm : Vm) (bytes : List ℕ)
    → Loads os fname vm bytes
    → sigma16_vm_init os fname
      ≡ ready vm (record { vm_block = true; file_handle = true; mapping = true })
unfolding sigma16_vm_init
ready-sigma16_vm_init os fname vm bytes h = ground arith

-- `sigma16_vm_init` gives a machine exactly when the block, the file and the mapping are to be had
-- and the file fits the mapping; the machine is then cleared, with the file in memory.
pub sigma16_vm_init_iff :
    (os : Os) (fname : List ℕ) (vm : Vm)
    → ((held : Held) × (sigma16_vm_init os fname ≡ ready vm held))
      ↔ ((bytes : List ℕ) × Loads os fname vm bytes)
sigma16_vm_init_iff os fname vm = (
  λ p. sigma16_vm_init-ready os fname vm p.0 p.1,
  λ p. (_, ready-sigma16_vm_init os fname vm p.0 p.1),
)
