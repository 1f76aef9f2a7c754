-- ===== src/Elf/Sound.antt =====
-- What a program image that userspace/elf.c accepts is sure to satisfy.
use whirliscope.Prelude.{
  ℕ, ◌+◌, ◌*◌, ◌^◌, ◌≤◌, ◌<◌, ◌≡◌, refl, ap, subst, inl, inr, Bool, true, false, not, ◌||◌, Option,
  none, some, ltb, ◌==◌, if◌then◌else◌, mul64, arith,
}
use whirliscope.Libc.Memory.{Memory}
use whirliscope.AddressSpace.{userspace_range_is_valid, IsUserRange, accepted}
use whirliscope.Elf.{
  Elf64Ehdr, Elf64Image, phdr_size, ehdr_at, program_header_at, range_within_image, check_segments,
  table_of, elf64_validate_user_image, has_magic, has_format,
}
use whirliscope.Elf.Checks.{
  IsWords, range_within_image-InImage, program_header_at-IsWords, read64_lt, read16_lt,
}
use whirliscope.Elf.Segments.{AllSafe, HasEntry, check_segments-AllSafe, check_segments-HasEntry}

-- The header table lies in the image, every segment that is loaded and not empty is safe, and the
-- entry point stands in one of them.
pub record IsLoadable (image image_size : ℕ) (m : Memory) (out : Elf64Image) : Type 0 where
  pub sized : 64 ≤ image_size
  pub entry_in_space : IsUserRange out.entry 1
  pub entries : out.phentsize ≡ phdr_size
  pub table : out.phoff + phdr_size * out.phnum ≤ image_size
  pub segments :
      AllSafe (λ i. program_header_at image out.phoff out.phentsize i m) image_size 0 out.phnum
  pub entered :
      HasEntry (λ i. program_header_at image out.phoff out.phentsize i m) out.entry 0 out.phnum

all_passed :
    (a b c d e : Bool) (r : Option Bool) (x out : Elf64Image)
    → (if a
        then none
        else if not b
        then none
        else if not c
        then none
        else if not d
        then none
        else if not e
        then none
        else elim r [ some true ↦ some x | _ ↦ none ])
      ≡ some out
    → (a ≡ false) × (c ≡ true) × (d ≡ true) × (e ≡ true) × (r ≡ some true) × (x ≡ out)
all_passed true b c d e r x out h = absurd (ground arith)
all_passed false false c d e r x out h = absurd (ground arith)
all_passed false true false d e r x out h = absurd (ground arith)
all_passed false true true false e r x out h = absurd (ground arith)
all_passed false true true true false r x out h = absurd (ground arith)
all_passed false true true true true none x out h = absurd (ground arith)
all_passed false true true true true (some false) x out h = absurd (ground arith)
all_passed false true true true true (some true) x out h =
    (refl, refl, refl, refl, refl, ap (λ o. elim o [ none ↦ x | some y ↦ y ]) h)

format_parts : (e : Elf64Ehdr) → has_format e ≡ true → (e.e_phentsize ≡ phdr_size) × (0 < e.e_phnum)
format_parts e h = (ground arith, ground arith)

table_inside :
    (phoff phentsize phnum image_size : ℕ)
    → phoff < 2 ^ 64
    → phnum < 2 ^ 16
    → phentsize ≡ phdr_size
    → 0 < phnum
    → range_within_image phoff (mul64 phentsize phnum) image_size ≡ true
    → phoff + phdr_size * phnum ≤ image_size
table_inside phoff phentsize phnum image_size a b size some_entry h =
    elim (range_within_image-InImage phoff (mul64 phentsize phnum) image_size a (omega arith) h) [
      | inl nothing ↦ absurd (wide phentsize phnum size b some_entry nothing)
      | inr inside ↦ subst (λ n. phoff + n ≤ image_size) (exact phentsize phnum size b) inside
    ]
  where
    exact : (k n : ℕ) → k ≡ 56 → n < 2 ^ 16 → mul64 k n ≡ 56 * n
    exact k n e lt = rw e (omega arith)

    wide : (k n : ℕ) → k ≡ 56 → n < 2 ^ 16 → 0 < n → mul64 k n ≡ 0 → ⊥
    wide k n e lt pos z = omega (arith, exact k n e lt)

-- Every image that elf64_validate_user_image accepts is loadable: its table of program headers lies
-- in it, each segment to load that has bytes in memory takes user addresses only, and takes its
-- bytes of the file from inside the image, and the entry point is an address of one such segment.
pub elf64_validate-IsLoadable :
    (image image_size : ℕ) (m : Memory) (out : Elf64Image)
    → elf64_validate_user_image image image_size m ≡ some out
    → IsLoadable image image_size m out
unfolding elf64_validate_user_image ehdr_at
elf64_validate-IsLoadable image image_size m out h =
    let e = ehdr_at image m in
    let table = table_of image e m in
    let (big, format, entry, within, checked, same) =
      all_passed (image == 0 || ltb image_size 64) (has_magic e) (has_format e)
        (userspace_range_is_valid e.e_entry 1)
        (range_within_image e.e_phoff (mul64 e.e_phentsize e.e_phnum) image_size)
        (check_segments e.e_phnum 0 table e.e_entry image_size false)
        (record {
          entry = e.e_entry;
          phoff = e.e_phoff;
          phnum = e.e_phnum;
          phentsize = e.e_phentsize;
        })
        out h in
    let words : (j : ℕ) → IsWords (table j) =
      λ j. program_header_at-IsWords image e.e_phoff e.e_phentsize j m in
    let parts = format_parts e format in
    subst (IsLoadable image image_size m) same (record {
      sized = ground arith;
      entry_in_space = accepted e.e_entry 1 (read64_lt (image + 24) m) (omega arith) entry;
      entries = parts.0;
      table =
          table_inside e.e_phoff e.e_phentsize e.e_phnum image_size (read64_lt (image + 32) m)
            (read16_lt (image + 56) m) parts.0 parts.1 within;
      segments = λ j low high.
          check_segments-AllSafe e.e_phnum 0 table e.e_entry image_size false true words checked j
            low (omega arith);
      entered =
          elim (check_segments-HasEntry e.e_phnum 0 table e.e_entry image_size false words
            checked) [
              | inl never ↦ absurd (ground arith)
              | inr here ↦ subst (HasEntry table e.e_entry 0) (omega arith) here
            ];
    })
