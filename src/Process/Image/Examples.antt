-- ===== src/Process/Image/Examples.antt =====
-- A program image of one segment, loaded by a machine that hands out one page after the other.
use whirliscope.Prelude.{ℕ, ◌-◌, ◌≡◌, refl, Bool, true, none, some, List, [], ◌∷◌, get_or}
use whirliscope.Libc.Block.{memset, fill}
use whirliscope.AddressSpace.{userspace_range_is_valid}
use whirliscope.Elf.{
  elf64_validate_user_image, ehdr_at, phdr_at, program_header_at, range_within_image, bad_segment,
  holds_entry, check_segments, read8, read16, read32, read64,
}
use whirliscope.Process.{Process, no_process}
use whirliscope.Process.Pages.{Machine}
use whirliscope.Process.Examples.{pages}
use whirliscope.Process.Image.{
  segment_map_flags, load_segment_page, load_pages, load_user_segment, load_segments,
  load_user_image_segments, process_prepare_user_image, map_image, process_load_user_image_bytes,
}

-- A program image of one segment.
abbrev bytes : List ℕ
bytes =
    127 ∷ 69 ∷ 76 ∷ 70 ∷ 2 ∷ 1 ∷ 1 ∷ 0 ∷ 0 ∷ 0 ∷ 0 ∷ 0 ∷ 0 ∷ 0 ∷ 0 ∷ 0 ∷ 2 ∷ 0 ∷ 62 ∷ 0 ∷ 1 ∷ 0 ∷ 0
    ∷ 0 ∷ 0 ∷ 0 ∷ 64 ∷ 0 ∷ 0 ∷ 0 ∷ 0 ∷ 0 ∷ 64 ∷ 0 ∷ 0 ∷ 0 ∷ 0 ∷ 0 ∷ 0 ∷ 0 ∷ 0 ∷ 0 ∷ 0 ∷ 0 ∷ 0 ∷ 0
    ∷ 0 ∷ 0 ∷ 0 ∷ 0 ∷ 0 ∷ 0 ∷ 64 ∷ 0 ∷ 56 ∷ 0 ∷ 1 ∷ 0 ∷ 0 ∷ 0 ∷ 0 ∷ 0 ∷ 0 ∷ 0 ∷ 1 ∷ 0 ∷ 0 ∷ 0 ∷ 5
    ∷ 0 ∷ 0 ∷ 0 ∷ 0 ∷ 0 ∷ 0 ∷ 0 ∷ 0 ∷ 0 ∷ 0 ∷ 0 ∷ 0 ∷ 0 ∷ 64 ∷ 0 ∷ 0 ∷ 0 ∷ 0 ∷ 0 ∷ 0 ∷ 0 ∷ 64 ∷ 0
    ∷ 0 ∷ 0 ∷ 0 ∷ 0 ∷ 120 ∷ 0 ∷ 0 ∷ 0 ∷ 0 ∷ 0 ∷ 0 ∷ 0 ∷ 0 ∷ 16 ∷ 0 ∷ 0 ∷ 0 ∷ 0 ∷ 0 ∷ 0 ∷ 0 ∷ 16 ∷ 0
    ∷ 0 ∷ 0 ∷ 0 ∷ 0 ∷ 0 ∷ []

abbrev pub loaded : Machine (ℕ × List ℕ)
loaded = record { memory = λ a. get_or bytes (a - 1000) 0; pages = (0, []) }

abbrev pub result : Bool × Process × Machine (ℕ × List ℕ)
result = process_load_user_image_bytes pages no_process 1 (some (b'a' ∷ [])) 1000 120 none loaded

pub load_succeeds : result ≡ (true, result.1, result.2)
unfolding process_load_user_image_bytes map_image load_user_image_segments load_segments
    load_user_segment load_pages load_segment_page segment_map_flags process_prepare_user_image
    elf64_validate_user_image ehdr_at phdr_at program_header_at range_within_image bad_segment
    holds_entry check_segments read8 read16 read32 read64 userspace_range_is_valid memset fill
load_succeeds = refl
