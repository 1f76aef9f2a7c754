-- ===== src/Elf/Examples.antt =====
-- A small program image: one segment that is loaded at 0x400000.
use whirliscope.Prelude.{ℕ, ◌-◌, ◌≡◌, refl, some, List, [], ◌∷◌, get_or}
use whirliscope.Libc.Memory.{Memory}
use whirliscope.AddressSpace.{userspace_range_is_valid}
use whirliscope.Elf.{
  Elf64Image, elf64_validate_user_image, ehdr_at, phdr_at, program_header_at, range_within_image,
  bad_segment, holds_entry, check_segments, read8, read16, read32, read64,
}
use whirliscope.Elf.Sound.{IsLoadable, elf64_validate-IsLoadable}

abbrev bytes : List ℕ
bytes =
    127 ∷ 69 ∷ 76 ∷ 70 ∷ 2 ∷ 1 ∷ 1 ∷ 0 ∷ 0 ∷ 0 ∷ 0 ∷ 0 ∷ 0 ∷ 0 ∷ 0 ∷ 0 ∷ 2 ∷ 0 ∷ 62 ∷ 0 ∷ 1 ∷ 0 ∷ 0
    ∷ 0 ∷ 0 ∷ 0 ∷ 64 ∷ 0 ∷ 0 ∷ 0 ∷ 0 ∷ 0 ∷ 64 ∷ 0 ∷ 0 ∷ 0 ∷ 0 ∷ 0 ∷ 0 ∷ 0 ∷ 0 ∷ 0 ∷ 0 ∷ 0 ∷ 0 ∷ 0
    ∷ 0 ∷ 0 ∷ 0 ∷ 0 ∷ 0 ∷ 0 ∷ 64 ∷ 0 ∷ 56 ∷ 0 ∷ 1 ∷ 0 ∷ 0 ∷ 0 ∷ 0 ∷ 0 ∷ 0 ∷ 0 ∷ 1 ∷ 0 ∷ 0 ∷ 0 ∷ 5
    ∷ 0 ∷ 0 ∷ 0 ∷ 0 ∷ 0 ∷ 0 ∷ 0 ∷ 0 ∷ 0 ∷ 0 ∷ 0 ∷ 0 ∷ 0 ∷ 64 ∷ 0 ∷ 0 ∷ 0 ∷ 0 ∷ 0 ∷ 0 ∷ 0 ∷ 64 ∷ 0
    ∷ 0 ∷ 0 ∷ 0 ∷ 0 ∷ 120 ∷ 0 ∷ 0 ∷ 0 ∷ 0 ∷ 0 ∷ 0 ∷ 0 ∷ 0 ∷ 16 ∷ 0 ∷ 0 ∷ 0 ∷ 0 ∷ 0 ∷ 0 ∷ 0 ∷ 16 ∷ 0
    ∷ 0 ∷ 0 ∷ 0 ∷ 0 ∷ 0 ∷ []

abbrev memory : Memory
memory a = get_or bytes (a - 1000) 0

abbrev parsed : Elf64Image
parsed = record { entry = 0x40_0000; phoff = 64; phnum = 1; phentsize = 56 }

accepted_image : elf64_validate_user_image 1000 120 memory ≡ some parsed
unfolding elf64_validate_user_image ehdr_at phdr_at program_header_at range_within_image bad_segment
    holds_entry check_segments read8 read16 read32 read64 userspace_range_is_valid
accepted_image = refl

elf64_validate-IsLoadable_example : IsLoadable 1000 120 memory parsed
elf64_validate-IsLoadable_example = elf64_validate-IsLoadable 1000 120 memory parsed accepted_image
