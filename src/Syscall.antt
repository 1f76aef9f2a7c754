-- ===== src/Syscall.antt =====
-- userspace/syscall.c: the memory of a user program and the paths that it names. The page tables
-- are a function from virtual to physical addresses, as vmm_virt_to_phys reads them, and physical
-- memory is read at the addresses that pmm_phys_to_virt gives.
pub mod Resolve
pub mod Whole
pub mod Stepping
pub mod Resolved
pub mod Ending
pub mod UserMemory
pub mod Delivered
pub mod Files
mod Examples
use whirliscope.Prelude.{
  ℕ, zero, suc, ◌+◌, ◌-◌, ◌*◌, ◌%◌, ◌^◌, List, [], ◌∷◌, ◌++◌, Bool, true, false, not, ◌&&◌, ◌||◌,
  Option, none, some, ltb, leb, ◌==◌, if◌then◌else◌, length, get_or, take, drop, add64,
}
use whirliscope.Libc.Memory.{Memory, copied, within}
use whirliscope.AddressSpace.{userspace_range_is_valid}
use whirliscope.Ext2.Paths.{slash, skip_slashes, component}

abbrev pub user_fs_path_max : ℕ
user_fs_path_max = 128

abbrev pub vmm_page_size : ℕ
vmm_page_size = 4096

-- The part of a page that one round of a copy takes.
abbrev pub page_chunk : (physical_address left : ℕ) → ℕ
page_chunk physical_address left =
    let page_bytes = vmm_page_size - physical_address % vmm_page_size in
    if ltb left page_bytes then left else page_bytes

module _ (translate : ℕ → Option ℕ) (phys_to_virt : ℕ → ℕ) where
  -- The loop of read_user_bytes, with `left` bytes to copy behind `copied`; the buffer is indexed
  -- from 0. A round copies one byte at least; none stands for false, and for no rounds left.
  unfoldable pub read_user_from :
      (rounds left copied user_address : ℕ) → Memory → Memory → Option Memory
  read_user_from zero left copied user_address m out = if left == 0 then some out else none
  read_user_from (suc k) left copied user_address m out =
      let round = elim (translate (add64 user_address copied)) as (λ _. Option Memory) [
        | none ↦ none
        | some p ↦
            let chunk = page_chunk p left in
            read_user_from k (left - chunk) (copied + chunk) user_address m
              (λ i. if within copied chunk i then m (phys_to_virt p + (i - copied)) else out i)
      ] in
      if left == 0 then some out else round

  unfoldable pub read_user_bytes : (user_address len : ℕ) → Memory → Memory → Option Memory
  read_user_bytes user_address len m out = read_user_from len len 0 user_address m out

  -- The loop of write_user_bytes, likewise: the memory, and the result.
  unfoldable pub write_user_from :
      (rounds left copied user_address : ℕ) → Memory → Memory → Memory × Bool
  write_user_from zero left copied user_address src m = (m, left == 0)
  write_user_from (suc k) left copied user_address src m =
      let round = elim (translate (add64 user_address copied)) as (λ _. Memory × Bool) [
        | none ↦ (m, false)
        | some p ↦
            let chunk = page_chunk p left in
            let dest = phys_to_virt p in
            write_user_from k (left - chunk) (copied + chunk) user_address src
              (λ a. if within dest chunk a then src (copied + (a - dest)) else m a)
      ] in
      if left == 0 then (m, true) else round

  unfoldable pub write_user_bytes : (user_address len : ℕ) → Memory → Memory → Memory × Bool
  write_user_bytes user_address len src m = write_user_from len len 0 user_address src m

  unfoldable pub copy_to_user : (user_address len : ℕ) → Memory → Memory → Memory × Bool
  copy_to_user user_address len src m =
      if len == 0
      then (m, true)
      else if not (userspace_range_is_valid user_address len)
      then (m, false)
      else write_user_bytes user_address len src m

  -- The loop of copy_user_string: the characters before the zero byte.
  unfoldable pub user_string_from : (left i user_address : ℕ) → Memory → Option (List ℕ)
  user_string_from zero i user_address m = none
  user_string_from (suc left) i user_address m =
      let rest = user_string_from left (i + 1) user_address m in
      let at = add64 user_address i in
      let read = elim (read_user_bytes at 1 m (λ j. 0)) as (λ _. Option (List ℕ)) [
        | none ↦ none
        | some byte ↦
            let more = elim rest as (λ _. Option (List ℕ)) [
              | none ↦ none
              | some s ↦ some (byte 0 ∷ s)
            ] in
            if byte 0 == 0 then some [] else more
      ] in
      if not (userspace_range_is_valid at 1) then none else read

  -- The string, where the result is true.
  unfoldable pub copy_user_string : (user_address dest_size : ℕ) → Memory → Option (List ℕ)
  copy_user_string user_address dest_size m = user_string_from dest_size 0 user_address m

-- The path that is resolved: an absolute one as far as the buffer holds it, another behind the
-- working directory. A process without one works in `/`.
unfoldable pub combine : (cwd path : List ℕ) → Option (List ℕ)
combine cwd path =
    let dir = if length cwd == 0 then slash ∷ [] else cwd in
    let needs_slash = ltb 1 (length dir) && not (get_or dir (length dir - 1) 0 == slash) in
    if get_or path 0 0 == slash
    then some (take (user_fs_path_max - 1) path)
    else if ltb user_fs_path_max (length dir + (if needs_slash then 1 else 0) + length path + 1)
    then none
    else some (dir ++ ((if needs_slash then slash ∷ [] else []) ++ path))

-- `while (out_len > 1 && out[out_len - 1] != '/') out_len--;`.
unfoldable pub back_to_slash : List ℕ → ℕ → ℕ
back_to_slash out zero = 0
back_to_slash out (suc zero) = 1
back_to_slash out (suc (suc n)) =
    let rest = back_to_slash out (suc n) in
    if get_or out (suc n) 0 == slash then suc (suc n) else rest

-- The component `..`: the last name is taken off the path in `out`.
unfoldable pub leave : List ℕ → List ℕ
leave out = let n = back_to_slash out (length out) in take (if ltb 1 n then n - 1 else n) out

-- A name: it is put behind the path in `out`, if it fits.
unfoldable pub enter : (out_size : ℕ) → List ℕ → List ℕ → Option (List ℕ)
enter out_size name out =
    let more = ltb 1 (length out) in
    if ltb out_size (length out + (if more then 1 else 0) + length name + 1)
    then none
    else some (out ++ ((if more then slash ∷ [] else []) ++ name))

-- One component of the path.
unfoldable pub follow : (out_size : ℕ) → List ℕ → List ℕ → Option (List ℕ)
follow out_size name out =
    if length name == 1 && get_or name 0 0 == b'.'
    then some out
    else if length name == 2 && (get_or name 0 0 == b'.' && get_or name 1 0 == b'.')
    then some (leave out)
    else if not (length name == 0)
    then enter out_size name out
    else some out

-- The loop of resolve_path_for_current, with the rounds left; none stands for false, and for no
-- rounds left. A round takes one character at least.
unfoldable pub resolve_loop : (rounds out_size : ℕ) → (cursor out : List ℕ) → Option (List ℕ)
resolve_loop zero out_size cursor out = none
resolve_loop (suc k) out_size [] out = some out
resolve_loop (suc k) out_size (ch ∷ cursor) out =
    let name = component (ch ∷ cursor) in
    elim (follow out_size name out) [
      | none ↦ none
      | some next ↦ resolve_loop k out_size (skip_slashes (drop (length name) (ch ∷ cursor))) next
    ]

-- The path is not NULL; `cwd` is that of the current process, empty if there is none.
unfoldable pub resolve_path_for_current : (cwd path : List ℕ) → (out_size : ℕ) → Option (List ℕ)
resolve_path_for_current cwd path out_size =
    if out_size == 0 || length path == 0 then none else elim (combine cwd path) [
      | none ↦ none
      | some combined ↦
          if ltb out_size 2
          then none
          else resolve_loop (suc (length combined)) out_size (skip_slashes combined) (slash ∷ [])
    ]

unfoldable pub copy_and_resolve_user_path :
    (translate : ℕ → Option ℕ)
    → (ℕ → ℕ)
    → (cwd : List ℕ) → (user_address : ℕ) → Memory
    → Option (List ℕ)
copy_and_resolve_user_path translate phys_to_virt cwd user_address m =
    elim (copy_user_string translate phys_to_virt user_address user_fs_path_max m) [
      | none ↦ none
      | some path ↦ resolve_path_for_current cwd path user_fs_path_max
    ]
