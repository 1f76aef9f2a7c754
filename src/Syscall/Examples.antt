-- ===== src/Syscall/Examples.antt =====
-- The theorems on userspace/syscall.c at concrete paths.
use whirliscope.Prelude.{
  ℕ, true, ◌+◌, ◌-◌, ◌%◌, ◌≡◌, refl, List, [], ◌∷◌, false, Option, none, some, arith,
}
use whirliscope.Prelude.Text.{codes}
use whirliscope.Ext2.Paths.{skip_slashes, component}
use whirliscope.Libc.Memory.{Memory, within}
use whirliscope.Ext2.Image.{Ext2}
use whirliscope.Ext2.Listing.{bytes_at}
use whirliscope.Ext2.Paths.{slash}
use whirliscope.Prelude.Int.{ℤ, pos}
use whirliscope.Elf.{read8}
use whirliscope.AddressSpace.{userspace_range_is_valid}
use whirliscope.Syscall.Files.{
  Machine, string_bytes, to_user, write_user_string, write_string_from, fs_getcwd, files_dispatch,
}
use mathlib.Core.Option.{some-injective}
use whirliscope.Syscall.Delivered.{IsPlace, IsApart, copy_to_user-delivered}
use whirliscope.Syscall.Files.Dispatch.{files_dispatch-kept}
use whirliscope.Syscall.{
  read_user_bytes, read_user_from, write_user_bytes, write_user_from, copy_to_user, combine,
  back_to_slash, leave, enter, follow, resolve_loop, resolve_path_for_current,
}
use whirliscope.Syscall.Whole.{LeadsTo}
use whirliscope.Syscall.Resolved.{IsPath, resolve_path_for_current-IsPath}
use whirliscope.Syscall.UserMemory.{IsForeign}
use whirliscope.Syscall.Ending.{resolve_path_total}

resolved :
    resolve_path_for_current (codes "/usr/lib") (codes "..//bin/./sh/") 128
    ≡ some (codes "/usr/bin/sh")
unfolding resolve_path_for_current combine resolve_loop follow leave enter back_to_slash
    skip_slashes component
resolved = refl

resolve_path_for_current-IsPath_example :
    (names : List (List ℕ)) × LeadsTo (codes "/usr/lib") (codes "..//bin/./sh/") names
    × IsPath 128 (codes "/usr/bin/sh") names
resolve_path_for_current-IsPath_example =
    resolve_path_for_current-IsPath (codes "/usr/lib") (codes "..//bin/./sh/") 128
      {out = codes "/usr/bin/sh"} refl resolved

resolve_path_total_example :
    (out : List ℕ) × (resolve_path_for_current (codes "/usr") (codes "bin") 128 ≡ some out)
unfolding combine
resolve_path_total_example =
    resolve_path_total (codes "/usr") (codes "bin") 128 {whole = codes "/usr/bin"} (omega arith)
      refl (omega arith)

-- One page for all addresses, seen a mebibyte higher.
abbrev one_page : ℕ → Option ℕ
one_page x = some (x % 4096 + 65536)

abbrev seen_at : ℕ → ℕ
seen_at p = p + 1048576

abbrev no_bytes : Memory
no_bytes a = 0

seven-IsForeign : IsForeign one_page seen_at 7
seven-IsForeign x p low high t = apart p
  where
    apart : (p : ℕ) → within (seen_at p) (4096 - p % 4096) 7 ≡ false
    apart p = ground arith

abbrev no_fs : Ext2
no_fs = record {
  image = no_bytes;
  fs_size = 0;
  attached = false;
  has_superblock = false;
  block_size = 0;
  group_count = 0;
  writeback = none;
}

-- No process runs, and memory holds the letter a everywhere.
abbrev machine : Machine
machine = record { fs = no_fs; memory = λ a. b'a'; current = none; console = [] }

-- The working directory `/` with its zero byte.
abbrev getcwd : ℤ × Machine
getcwd = to_user one_page seen_at 5000 2 (string_bytes (slash ∷ [])) (pos 0) machine

getcwd_run : files_dispatch one_page seen_at no_bytes no_bytes 24 5000 9 0 0 machine ≡ some getcwd
unfolding files_dispatch fs_getcwd
getcwd_run = refl

getcwd_bytes :
    (getcwd.1.memory 1115016 ≡ slash)
    × (getcwd.1.memory 1115017 ≡ 0)
    × (getcwd.1.memory 1115018 ≡ b'a')
unfolding to_user copy_to_user write_user_bytes write_user_from userspace_range_is_valid
getcwd_bytes = (refl, refl, refl)

write_run :
    (write_user_string one_page seen_at no_bytes no_bytes 5000 3 machine).1.console ≡ codes "aaa"
unfolding write_user_string write_string_from read_user_bytes read_user_from
    userspace_range_is_valid bytes_at read8
write_run = refl

files_dispatch-kept_example : getcwd.1.memory 7 ≡ b'a'
files_dispatch-kept_example =
    files_dispatch-kept one_page seen_at no_bytes no_bytes 24 5000 9 0 0 7 machine getcwd
      (omega arith) (omega arith) seven-IsForeign getcwd_run

-- Where the kernel sees a user address.
abbrev seen_place : ℕ → ℕ
seen_place x = x % 4096 + 1114112

seen_place-IsPlace : IsPlace one_page seen_at seen_place
seen_place-IsPlace x p j t lt = let at : x % 4096 + 65536 ≡ p = some-injective _ _ t in omega arith

seen_place-IsApart : IsApart seen_place 5000 3
seen_place-IsApart i j low high e = omega arith

copied_run : (copy_to_user one_page seen_at 5000 3 (λ a. a + 7) no_bytes).1 ≡ true
unfolding copy_to_user write_user_bytes write_user_from userspace_range_is_valid
copied_run = refl

copy_to_user-delivered_example :
    (copy_to_user one_page seen_at 5000 3 (λ a. a + 7) no_bytes).0 (seen_place (5000 + 2)) ≡ 2 + 7
copy_to_user-delivered_example =
    copy_to_user-delivered one_page seen_at seen_place 5000 3 2 (λ a. a + 7) no_bytes (omega arith)
      (omega arith) seen_place-IsPlace seen_place-IsApart copied_run (omega arith)
