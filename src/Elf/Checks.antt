-- ===== src/Elf/Checks.antt =====
-- What the tests of userspace/elf.c on one range and one segment make sure of.
use whirliscope.Prelude.{
  ℕ, ◌+◌, ◌*◌, ◌^◌, ◌≤◌, ◌<◌, ◌≡◌, ◌⊎◌, Bool, true, false, not, ◌||◌, ltb, arith,
}
use whirliscope.Libc.Memory.{Memory}
use whirliscope.AddressSpace.{userspace_range_is_valid, IsUserRange, accepted}
use whirliscope.Elf.{
  Elf64Phdr, phdr_at, program_header_at, range_within_image, bad_segment, read8, read16, read32,
  read64,
}

-- The `size` bytes from `offset` on lie in the image, where there are any.
abbrev pub InImage : (offset size image_size : ℕ) → Type 0
InImage offset size image_size = (size ≡ 0) ⊎ (offset + size ≤ image_size)

pub range_within_image-InImage :
    (offset size image_size : ℕ)
    → offset < 2 ^ 64
    → size < 2 ^ 64
    → range_within_image offset size image_size ≡ true
    → InImage offset size image_size
unfolding range_within_image
range_within_image-InImage offset size image_size a b h = ground arith

-- A segment to load, with all that its loading relies on.
pub record IsSafe (p : Elf64Phdr) (image_size : ℕ) : Type 0 where
  pub fits : p.p_filesz ≤ p.p_memsz
  pub file : InImage p.p_offset p.p_filesz image_size
  pub memory : IsUserRange p.p_vaddr p.p_memsz

-- The fields of a program header are 64-bit words.
pub record IsWords (p : Elf64Phdr) : Type 0 where
  pub offset : p.p_offset < 2 ^ 64
  pub vaddr : p.p_vaddr < 2 ^ 64
  pub filesz : p.p_filesz < 2 ^ 64
  pub memsz : p.p_memsz < 2 ^ 64

pub read16_lt : (a : ℕ) (m : Memory) → read16 a m < 2 ^ 16
unfolding read16 read8
read16_lt a m = omega arith

read32_lt : (a : ℕ) (m : Memory) → read32 a m < 2 ^ 32
unfolding read32
read32_lt a m = omega (arith, read16_lt a m, read16_lt (a + 2) m)

pub read64_lt : (a : ℕ) (m : Memory) → read64 a m < 2 ^ 64
unfolding read64
read64_lt a m = omega (arith, read32_lt a m, read32_lt (a + 4) m)

phdr_at-IsWords : (a : ℕ) (m : Memory) → IsWords (phdr_at a m)
unfolding phdr_at
phdr_at-IsWords a m = record {
  offset = read64_lt (a + 8) m;
  vaddr = read64_lt (a + 16) m;
  filesz = read64_lt (a + 32) m;
  memsz = read64_lt (a + 40) m;
}

pub program_header_at-IsWords :
    (image phoff phentsize index : ℕ) (m : Memory)
    → IsWords (program_header_at image phoff phentsize index m)
unfolding program_header_at
program_header_at-IsWords image phoff phentsize index m =
    phdr_at-IsWords (image + phoff + phentsize * index) m

or_parts :
    (a b c d : Bool) → (a || b || not c || not d) ≡ false → (a ≡ false) × (c ≡ true) × (d ≡ true)
or_parts a b c d h = ground arith

pub bad_segment-IsSafe :
    (p : Elf64Phdr) (image_size : ℕ)
    → IsWords p
    → bad_segment p image_size ≡ false
    → IsSafe p image_size
unfolding bad_segment
bad_segment-IsSafe p image_size w h =
    let (a, c, d) =
      or_parts (ltb p.p_memsz p.p_filesz) _ (range_within_image p.p_offset p.p_filesz image_size)
        (userspace_range_is_valid p.p_vaddr p.p_memsz) h in
    record {
      fits = ground arith;
      file = range_within_image-InImage p.p_offset p.p_filesz image_size w.offset w.filesz c;
      memory = accepted p.p_vaddr p.p_memsz w.vaddr w.memsz d;
    }
