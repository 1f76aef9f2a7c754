-- ===== src/Ext2/Paths.antt =====
-- Paths of fs/ext2.c, as the lists of their characters before the zero byte; NULL is taken as the
-- empty path, since neither begins with a slash.
pub mod Split
use whirliscope.Prelude.{
  ℕ, zero, suc, ◌+◌, ◌-◌, List, [], ◌∷◌, Bool, not, ◌&&◌, ◌||◌, Option, none, some, ltb, leb, ◌==◌,
  if◌then◌else◌, length, get_or, take, drop,
}
use whirliscope.Libc.Memory.{Memory}
use whirliscope.Ext2.Inode.{Inode, inode_is_dir}
use whirliscope.Ext2.Image.{Ext2, read_inode}
use whirliscope.Ext2.Directory.{name_max, find_in_dir}

abbrev pub root_inode : ℕ
root_inode = 2

abbrev pub slash : ℕ
slash = b'/'

abbrev pub starts_at_root : List ℕ → Bool
starts_at_root path = get_or path 0 0 == slash

unfoldable pub ext2_mounted : Ext2 → Bool
ext2_mounted fs = fs.attached && fs.has_superblock

unfoldable pub skip_slashes : List ℕ → List ℕ
skip_slashes [] = []
skip_slashes (ch ∷ path) = let rest = skip_slashes path in if ch == slash then rest else ch ∷ path

-- The characters before the next slash.
unfoldable pub component : List ℕ → List ℕ
component [] = []
component (ch ∷ path) = let rest = component path in if ch == slash then [] else ch ∷ rest

module _ (garbage : Memory) where
  -- The loop of path_lookup, with the rounds left; each takes a character at least.
  unfoldable pub lookup_loop : (rounds : ℕ) → List ℕ → (Inode × ℕ) → Ext2 → Option (Inode × ℕ)
  lookup_loop zero path current fs = none
  lookup_loop (suc k) [] current fs = some current
  lookup_loop (suc k) (ch ∷ path) current fs =
      let name = component (ch ∷ path) in
      let behind = skip_slashes (drop (length name) (ch ∷ path)) in
      let empty = lookup_loop k behind current fs in
      let entered = elim (find_in_dir garbage name current.0 fs) as (λ _. Option (Inode × ℕ)) [
        | none ↦ none
        | some next ↦ elim (read_inode next fs) [
          | none ↦ none
          | some inode ↦ lookup_loop k behind (inode, next) fs
        ]
      ] in
      if length name == 0 then empty else entered

  -- The inode and its number, where the result is true.
  unfoldable pub path_lookup : List ℕ → Ext2 → Option (Inode × ℕ)
  path_lookup path fs =
      if not (ext2_mounted fs) || not (starts_at_root path)
      then none
      else elim (read_inode root_inode fs) [
        | none ↦ none
        | some root ↦ lookup_loop (suc (length path)) (skip_slashes path) (root, root_inode) fs
      ]

-- `while (len > 1 && path[len - 1] == '/') len--;`.
unfoldable pub trim : List ℕ → ℕ → ℕ
trim path zero = 0
trim path (suc zero) = 1
trim path (suc (suc n)) =
    let rest = trim path (suc n) in if get_or path (suc n) 0 == slash then rest else suc (suc n)

-- `while (slash > 0 && path[slash] != '/') slash--;`.
unfoldable pub last_slash : List ℕ → ℕ → ℕ
last_slash path zero = 0
last_slash path (suc n) =
    let rest = last_slash path n in if get_or path (suc n) 0 == slash then suc n else rest

-- What stands in `parent`, and the name, where the result is true.
unfoldable pub split_parent_path : List ℕ → (parent_size : ℕ) → Option (List ℕ × List ℕ)
split_parent_path path parent_size =
    let len = trim path (length path) in
    let at = last_slash path (len - 1) in
    let name = take (len - at - 1) (drop (at + 1) path) in
    if parent_size == 0 || not (starts_at_root path)
    then none
    else if leb len 1
    then none
    else if len - at - 1 == 0 || ltb name_max (len - at - 1)
    then none
    else if at == 0
    then if ltb parent_size 2 then none else some (slash ∷ [], name)
    else if ltb parent_size (at + 1)
    then none
    else some (take at path, name)

abbrev pub user_fs_path_size : ℕ
user_fs_path_size = 128

module _ (garbage : Memory) where
  -- The parent with its number and the name, where the result is true.
  unfoldable pub parent_lookup : List ℕ → Ext2 → Option (Inode × ℕ × List ℕ)
  parent_lookup path fs = elim (split_parent_path path user_fs_path_size) [
    | none ↦ none
    | some (parent, name) ↦ elim (path_lookup garbage parent fs) [
      | none ↦ none
      | some (inode, number) ↦ if inode_is_dir inode then some (inode, number, name) else none
    ]
  ]
