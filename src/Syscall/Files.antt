-- ===== src/Syscall/Files.antt =====
-- The calls of syscall_dispatch in userspace/syscall.c on files and on the console. A call gets the
-- arguments of its frame; its result is the number that it returns.
pub mod Kept
pub mod Dispatch
use whirliscope.Prelude.{
  ℕ, zero, suc, ◌+◌, ◌-◌, ◌*◌, ◌/◌, ◌%◌, ◌^◌, List, [], ◌∷◌, ◌++◌, Bool, true, false, not, ◌&&◌,
  ◌||◌, Option, none, some, ltb, leb, ◌==◌, if◌then◌else◌, length, get_or, add64,
}
use whirliscope.Prelude.Int.{ℤ, pos, negsuc}
use whirliscope.Libc.Memory.{Memory, within}
use whirliscope.AddressSpace.{userspace_range_is_valid}
use whirliscope.Process.{Process, process_set_cwd}
use whirliscope.Ext2.Image.{Ext2}
use whirliscope.Ext2.Paths.{slash}
use whirliscope.Ext2.Listing.{
  user_err_fault, user_err_inval, type_dir, Dirent, bytes_at, ext2_list_dir,
}
use whirliscope.Ext2.Listing
use whirliscope.Ext2.Calls.{ext2_read_file, ext2_stat, ext2_write_file, ext2_truncate_file}
use whirliscope.Ext2.Tree.{ext2_create_file, ext2_mkdir, ext2_unlink, ext2_rmdir}
use whirliscope.Syscall.{read_user_bytes, copy_to_user, copy_and_resolve_user_path}

abbrev pub user_write_chunk : ℕ
user_write_chunk = 1024

abbrev pub user_fs_list_max : ℕ
user_fs_list_max = 32

abbrev pub user_fs_read_max : ℕ
user_fs_read_max = 4096

abbrev pub user_fs_dirent_size : ℕ
user_fs_dirent_size = 80

-- What the calls on files read and change: the file system, physical memory, the process that
-- runs, and the characters written to the console. The image of the file system and the static
-- buffers of the calls stand apart from `memory`.
pub record Machine : Type 0 where
  pub fs : Ext2
  pub memory : Memory
  pub current : Option Process
  pub console : List ℕ

abbrev pub current_cwd : Machine → List ℕ
current_cwd s = elim s.current [ none ↦ [] | some process ↦ process.cwd ]

-- The bytes of one struct user_fs_dirent; those that no field takes are zero.
abbrev pub dirent_byte : Dirent → ℕ → ℕ
dirent_byte d j =
    if ltb j 4
    then d.inode / 256 ^ j % 256
    else if j == 4
    then d.type % 256
    else if ltb j 8
    then 0
    else if ltb j 16
    then d.size / 256 ^ (j - 8) % 256
    else if ltb j (16 + length d.name)
    then get_or d.name (j - 16) 0
    else 0

-- The array of entries in memory, from address 0 on.
unfoldable pub dirent_bytes : List Dirent → Memory
dirent_bytes [] j = 0
dirent_bytes (d ∷ entries) j =
    let rest = dirent_bytes entries (j - user_fs_dirent_size) in
    if ltb j user_fs_dirent_size then dirent_byte d j else rest

-- A string in memory, from address 0 on, with its zero byte.
abbrev pub string_bytes : List ℕ → Memory
string_bytes s j = get_or s j 0

-- The result of a call on the file system, with the file system after it.
abbrev pub changed : Machine → ℤ × Ext2 → ℤ × Machine
changed s r = (r.0, record s { fs = r.1 })

-- The directory of the process that runs is set.
abbrev pub set_current : Option Process → List ℕ → Machine → ℤ × Machine
set_current none path s = (user_err_inval, s)
set_current (some process) path s =
    let (result, moved) = process_set_cwd (some path) process in
    (if result then pos 0 else user_err_inval, record s { current = some moved })

module _ (translate : ℕ → Option ℕ) (phys_to_virt : ℕ → ℕ) where
  -- copy_to_user at the end of a call: the result, or that of a fault.
  unfoldable pub to_user : (user_address len : ℕ) → Memory → (result : ℤ) → Machine → ℤ × Machine
  to_user user_address len src result s =
      let sent = copy_to_user translate phys_to_virt user_address len src s.memory in
      (if sent.1 then result else user_err_fault, record s { memory = sent.0 })

  -- The path at the start of a call: a fault, if it cannot be read or resolved.
  unfoldable pub with_path : (user_address : ℕ) → Machine → (List ℕ → ℤ × Machine) → ℤ × Machine
  with_path user_address s call =
      elim (copy_and_resolve_user_path translate phys_to_virt (current_cwd s) user_address s.memory)
        as (λ _. ℤ × Machine) [ none ↦ (user_err_fault, s) | some path ↦ call path ]

-- `static_bytes` is what fs_read_buffer holds before the call, and `garbage` what the buffers on
-- the stack hold at first.
module _ (translate : ℕ → Option ℕ) (phys_to_virt : ℕ → ℕ) (garbage static_bytes : Memory) where
  -- The loop of write_user_string, `len` bytes in all; a round writes one byte at least.
  unfoldable pub write_string_from : (rounds written len user_address : ℕ) → Machine → ℤ × Machine
  write_string_from zero written len user_address s = (pos len, s)
  write_string_from (suc k) written len user_address s =
      let left = len - written in
      let chunk = if ltb user_write_chunk left then user_write_chunk else left in
      let round =
        elim (read_user_bytes translate phys_to_virt (add64 user_address written) chunk s.memory
            garbage)
          as (λ _. ℤ × Machine) [
            | none ↦ (user_err_fault, s)
            | some buffer ↦
                write_string_from k (written + chunk) len user_address
                  (record s { console = s.console ++ bytes_at chunk 0 buffer })
          ] in
      if ltb written len then round else (pos len, s)

  unfoldable pub write_user_string : (user_address len : ℕ) → Machine → ℤ × Machine
  write_user_string user_address len s =
      if len == 0
      then (pos 0, s)
      else if not (userspace_range_is_valid user_address len)
      then (user_err_fault, s)
      else write_string_from len 0 len user_address s

  unfoldable pub fs_list : (arg0 arg1 arg2 : ℕ) → Machine → ℤ × Machine
  fs_list arg0 arg1 arg2 s = with_path translate phys_to_virt arg0 s (λ path.
      let max_entries = if ltb user_fs_list_max arg2 then user_fs_list_max else arg2 in
      let listed = ext2_list_dir garbage path max_entries s.fs in
      elim listed.0 as (λ _. ℤ × Machine) [
        | negsuc n ↦ (negsuc n, s)
        | pos count ↦
            to_user translate phys_to_virt arg1 (count * user_fs_dirent_size % 2 ^ 64)
              (dirent_bytes listed.1) (pos count) s
      ])

  unfoldable pub fs_read : (arg0 arg1 arg2 arg3 : ℕ) → Machine → ℤ × Machine
  fs_read arg0 arg1 arg2 arg3 s = with_path translate phys_to_virt arg0 s (λ path.
      let requested = if ltb user_fs_read_max arg2 then user_fs_read_max else arg2 in
      let read = ext2_read_file garbage path requested arg3 s.fs static_bytes in
      elim read.0 as (λ _. ℤ × Machine) [
        | negsuc n ↦ (negsuc n, s)
        | pos count ↦ to_user translate phys_to_virt arg1 (count % 2 ^ 64) read.1 (pos count) s
      ])

  unfoldable pub fs_getcwd : (arg0 arg1 : ℕ) → Machine → ℤ × Machine
  fs_getcwd arg0 arg1 s =
      let dir = current_cwd s in
      let cwd = if length dir == 0 then slash ∷ [] else dir in
      let len = length cwd + 1 in
      if ltb arg1 len
      then (user_err_inval, s)
      else to_user translate phys_to_virt arg0 (len % 2 ^ 64) (string_bytes cwd) (pos 0) s

  unfoldable pub fs_chdir : (arg0 : ℕ) → Machine → ℤ × Machine
  fs_chdir arg0 s = with_path translate phys_to_virt arg0 s (λ path.
      elim (ext2_stat garbage path s.fs).1 as (λ _. ℤ × Machine) [
        | none ↦ (user_err_inval, s)
        | some entry ↦
            if not (Dirent.type entry == type_dir)
            then (user_err_inval, s)
            else set_current s.current path s
      ])

  unfoldable pub fs_write : (arg0 arg1 arg2 arg3 : ℕ) → Machine → ℤ × Machine
  fs_write arg0 arg1 arg2 arg3 s = with_path translate phys_to_virt arg0 s (λ path.
      let requested = if ltb user_fs_read_max arg2 then user_fs_read_max else arg2 in
      elim (read_user_bytes translate phys_to_virt arg1 requested s.memory static_bytes)
        as (λ _. ℤ × Machine) [
          | none ↦ (user_err_fault, s)
          | some buffer ↦ changed s (ext2_write_file garbage path requested arg3 buffer s.fs)
        ])

  -- The part of syscall_dispatch on files and on strings for the console; none for the numbers of
  -- other calls.
  unfoldable pub files_dispatch : (number arg0 arg1 arg2 arg3 : ℕ) → Machine → Option (ℤ × Machine)
  files_dispatch number arg0 arg1 arg2 arg3 s =
      if number == 10
      then some (write_user_string arg0 arg1 s)
      else if number == 22
      then some (fs_list arg0 arg1 arg2 s)
      else if number == 23
      then some (fs_read arg0 arg1 arg2 arg3 s)
      else if number == 24
      then some (fs_getcwd arg0 arg1 s)
      else if number == 25
      then some (fs_chdir arg0 s)
      else if number == 26
      then some (fs_write arg0 arg1 arg2 arg3 s)
      else if number == 28
      then some (
          with_path translate phys_to_virt arg0 s
            (λ path. changed s (ext2_create_file garbage path s.fs)))
      else if number == 29
      then some (
          with_path translate phys_to_virt arg0 s
            (λ path. changed s (ext2_mkdir garbage path s.fs)))
      else if number == 30
      then some (
          with_path translate phys_to_virt arg0 s
            (λ path. changed s (ext2_unlink garbage path s.fs)))
      else if number == 31
      then some (
          with_path translate phys_to_virt arg0 s
            (λ path. changed s (ext2_rmdir garbage path s.fs)))
      else if number == 32
      then some (
          with_path translate phys_to_virt arg0 s
            (λ path. changed s (ext2_truncate_file garbage path arg1 s.fs)))
      else none
