-- ===== src/Elf.antt =====
-- userspace/elf.c: the checks on a program image. The image lies in memory from `image` on; its
-- headers are read from there, least byte first.
pub mod Checks
pub mod Segments
pub mod Sound
mod Examples
use whirliscope.Prelude.{
  ℕ, zero, suc, ◌+◌, ◌-◌, ◌*◌, ◌%◌, ◌^◌, Bool, true, false, not, ◌&&◌, ◌||◌, Option, none, some,
  ltb, leb, ◌==◌, if◌then◌else◌, add64, sub64, mul64,
}
use whirliscope.Libc.Memory.{Memory}
use whirliscope.AddressSpace.{userspace_range_is_valid}

unfoldable pub read8 : ℕ → Memory → ℕ
read8 a m = m a % 256

unfoldable pub read16 : ℕ → Memory → ℕ
read16 a m = read8 a m + 2 ^ 8 * read8 (a + 1) m

unfoldable pub read32 : ℕ → Memory → ℕ
read32 a m = read16 a m + 2 ^ 16 * read16 (a + 2) m

unfoldable pub read64 : ℕ → Memory → ℕ
read64 a m = read32 a m + 2 ^ 32 * read32 (a + 4) m

-- The fields of the ELF header that the checks read.
pub record Elf64Ehdr : Type 0 where
  pub e_ident : ℕ → ℕ
  pub e_type : ℕ
  pub e_machine : ℕ
  pub e_version : ℕ
  pub e_entry : ℕ
  pub e_phoff : ℕ
  pub e_ehsize : ℕ
  pub e_phentsize : ℕ
  pub e_phnum : ℕ

pub record Elf64Phdr : Type 0 where
  pub p_type : ℕ
  pub p_flags : ℕ
  pub p_offset : ℕ
  pub p_vaddr : ℕ
  pub p_paddr : ℕ
  pub p_filesz : ℕ
  pub p_memsz : ℕ
  pub p_align : ℕ

pub record Elf64Image : Type 0 where
  pub entry : ℕ
  pub phoff : ℕ
  pub phnum : ℕ
  pub phentsize : ℕ

-- sizeof(struct elf64_ehdr) and sizeof(struct elf64_phdr).
abbrev pub ehdr_size : ℕ
ehdr_size = 64

abbrev pub phdr_size : ℕ
phdr_size = 56

abbrev pub elf64_pt_load : ℕ
elf64_pt_load = 1

abbrev pub page_size : ℕ
page_size = 4096

unfoldable pub ehdr_at : ℕ → Memory → Elf64Ehdr
ehdr_at image m = record {
  e_ident = λ i. read8 (image + i) m;
  e_type = read16 (image + 16) m;
  e_machine = read16 (image + 18) m;
  e_version = read32 (image + 20) m;
  e_entry = read64 (image + 24) m;
  e_phoff = read64 (image + 32) m;
  e_ehsize = read16 (image + 52) m;
  e_phentsize = read16 (image + 54) m;
  e_phnum = read16 (image + 56) m;
}

unfoldable pub phdr_at : ℕ → Memory → Elf64Phdr
phdr_at a m = record {
  p_type = read32 a m;
  p_flags = read32 (a + 4) m;
  p_offset = read64 (a + 8) m;
  p_vaddr = read64 (a + 16) m;
  p_paddr = read64 (a + 24) m;
  p_filesz = read64 (a + 32) m;
  p_memsz = read64 (a + 40) m;
  p_align = read64 (a + 48) m;
}

-- The header number `index` of the table at `phoff` with entries of `phentsize` bytes.
unfoldable pub program_header_at : (image phoff phentsize index : ℕ) → Memory → Elf64Phdr
program_header_at image phoff phentsize index m = phdr_at (image + phoff + phentsize * index) m

unfoldable pub range_within_image : ℕ → ℕ → ℕ → Bool
range_within_image offset size image_size =
    let end = sub64 (add64 offset size) 1 in
    if size == 0 then true else leb offset end && ltb end image_size

abbrev pub has_magic : Elf64Ehdr → Bool
has_magic e =
    e.e_ident 0 == 0x7f
    && e.e_ident 1 == b'E'
    && e.e_ident 2 == b'L'
    && e.e_ident 3 == b'F'
    && e.e_ident 4 == 2
    && e.e_ident 5 == 1
    && e.e_ident 6 == 1

abbrev pub has_format : Elf64Ehdr → Bool
has_format e =
    (e.e_type == 2 || e.e_type == 3)
    && e.e_machine == 62
    && e.e_version == 1
    && e.e_ehsize == ehdr_size
    && e.e_phentsize == phdr_size
    && not (e.e_phnum == 0)

-- The tests on a segment that is loaded and not empty.
unfoldable pub bad_segment : Elf64Phdr → ℕ → Bool
bad_segment p image_size =
    ltb p.p_memsz p.p_filesz
    || (not (p.p_align == 0) && ltb p.p_align page_size)
    || not (range_within_image p.p_offset p.p_filesz image_size)
    || not (userspace_range_is_valid p.p_vaddr p.p_memsz)

unfoldable pub holds_entry : ℕ → Elf64Phdr → Bool
holds_entry entry p = leb p.p_vaddr entry && ltb entry (add64 p.p_vaddr p.p_memsz)

-- The loop over `n` program headers from number `i` on; `none` is its `return false`, and otherwise
-- the result is `entry_in_load_segment`.
unfoldable pub check_segments :
    (n i : ℕ) → (ℕ → Elf64Phdr) → (entry image_size : ℕ) → Bool → Option Bool
check_segments zero i headers entry image_size seen = some seen
check_segments (suc n) i headers entry image_size seen =
    let p = headers i in
    let skipped = check_segments n (i + 1) headers entry image_size seen in
    let passed = check_segments n (i + 1) headers entry image_size (seen || holds_entry entry p) in
    if not (p.p_type == elf64_pt_load)
    then skipped
    else if p.p_memsz == 0
    then skipped
    else if bad_segment p image_size
    then none
    else passed

abbrev pub table_of : ℕ → Elf64Ehdr → Memory → ℕ → Elf64Phdr
table_of image e m i = program_header_at image e.e_phoff e.e_phentsize i m

-- The result is what the function writes to `*out` where it returns true.
unfoldable pub elf64_validate_user_image : ℕ → ℕ → Memory → Option Elf64Image
elf64_validate_user_image image image_size m =
    let e = ehdr_at image m in
    let checked = check_segments e.e_phnum 0 (table_of image e m) e.e_entry image_size false in
    if image == 0 || ltb image_size ehdr_size
    then none
    else if not (has_magic e)
    then none
    else if not (has_format e)
    then none
    else if not (userspace_range_is_valid e.e_entry 1)
    then none
    else if not (range_within_image e.e_phoff (mul64 e.e_phentsize e.e_phnum) image_size)
    then none
    else elim checked [
      | some true ↦ some (record {
        entry = e.e_entry;
        phoff = e.e_phoff;
        phnum = e.e_phnum;
        phentsize = e.e_phentsize;
      })
      | _ ↦ none
    ]
