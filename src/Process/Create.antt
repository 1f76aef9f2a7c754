-- ===== src/Process/Create.antt =====
-- userspace/process.c: the process table, and new processes from files. The file system and the
-- kernel's heap are a parameter.
pub mod Read
pub mod Slots
mod Examples
use whirliscope.Prelude.{
  ℕ, zero, suc, ◌+◌, ◌-◌, Bool, true, false, not, ◌&&◌, ◌||◌, Option, none, some, List, [], ◌∷◌,
  ◌==◌, if◌then◌else◌, add64,
}
use whirliscope.Prelude.Int.{ℤ, pos, negsuc}
use whirliscope.Process.{Process, process_empty, no_process, slash, is_unused}
use whirliscope.Process.Pages.{SpaceOps, Machine}
use whirliscope.Process.Image.{process_load_user_image_bytes}

-- The array of processes by index, and the next number.
pub record Table : Type 0 where
  pub processes : ℕ → Process
  pub next_pid : ℕ

abbrev pub put : ℕ → Process → (ℕ → Process) → ℕ → Process
put i p f j = if j == i then p else f j

abbrev pub user_fs_type_file : ℕ
user_fs_type_file = 1

-- What ext2_stat tells of a file.
pub record UserFsDirent : Type 0 where
  pub type : ℕ
  pub size : ℕ

-- The calls on the file system and on the heap, with their C results.
pub record FileOps (P : Type 0) : Type 0 where
  pub ext2_stat : List ℕ → Machine P → ℤ × UserFsDirent × Machine P
  pub ext2_read_file : List ℕ → (buffer size offset : ℕ) → Machine P → ℤ × Machine P
  pub kmalloc : ℕ → Machine P → ℕ × Machine P
  pub kfree : ℕ → Machine P → Machine P

pub process_table_init : Table
process_table_init = record { processes = λ i. no_process; next_pid = 1 }

abbrev is_empty : Process → Bool
is_empty p = elim p.state [ process_empty ↦ true | _ ↦ false ]

-- The index of the first process.
pub process_first : Table → Option ℕ
process_first t = if is_empty (t.processes 0) then none else some 0

-- The loop over the slots, with the rounds left.
pub find_slot : (rounds i : ℕ) → (ℕ → Process) → Option ℕ
find_slot zero i f = none
find_slot (suc k) i f = let rest = find_slot k (i + 1) f in if is_unused (f i) then some i else rest

-- What stands behind the last slash, or `kept` without a slash.
after_slash : List ℕ → List ℕ → List ℕ
after_slash [] kept = kept
after_slash (c ∷ cs) kept =
    let here = after_slash cs cs in
    let there = after_slash cs kept in if c == slash then here else there

abbrev or_whole : List ℕ → List ℕ → List ℕ
or_whole path [] = path
or_whole path (c ∷ cs) = c ∷ cs

-- The name of a process: the file's, or the whole path where that ends with a slash.
pub base_name : List ℕ → List ℕ
unfolding after_slash
base_name path = or_whole path (after_slash path path)

abbrev pub equals : ℤ → ℕ → Bool
equals (pos n) m = n == m
equals (negsuc n) m = false

module _ {P : Type 0} (ops : SpaceOps P) (files : FileOps P) where
  -- The start of both functions: the file's bytes in a fresh buffer, or a failure with the buffer
  -- freed.
  pub read_image : Option (List ℕ) → Machine P → Option (ℕ × ℕ) × Machine P
  read_image none w = (none, w)
  read_image (some path) w =
      let (code, file, v) = files.ext2_stat path w in
      let (image, u) = files.kmalloc file.size v in
      let (read, t) = files.ext2_read_file path image file.size 0 u in
      if not (equals code 0) || not (file.type == user_fs_type_file) || file.size == 0
      then (none, v)
      else if image == 0
      then (none, u)
      else if not (equals read file.size)
      then (none, files.kfree image t)
      else (some (image, file.size), t)

  -- The end of both functions, with the slot chosen: the process is loaded, and the buffer freed.
  pub load_into :
      (i image size : ℕ)
      → List ℕ
      → Option (List ℕ)
      → Table
      → Machine P
      → Option ℕ × Table × Machine P
  load_into i image size name cwd t w =
      let (loaded, p, v) =
        process_load_user_image_bytes ops (t.processes i) t.next_pid (some name) image size cwd w in
      let next = add64 t.next_pid 1 in
      if loaded
      then (
        some i,
        record { processes = put i p t.processes; next_pid = next },
        files.kfree image v,
      )
      else (
        none,
        record {
          processes = put i (record p { state = process_empty }) t.processes;
          next_pid = next;
        },
        files.kfree image v,
      )

  -- The middle of process_create_filesystem_process: the search for a slot.
  pub place_image :
      List ℕ → Option (List ℕ) → Table → Option (ℕ × ℕ) → Machine P → Option ℕ × Table × Machine P
  place_image path cwd t none w = (none, t, w)
  place_image path cwd t (some (image, size)) w = elim (find_slot 7 1 t.processes) [
    | none ↦ (none, t, files.kfree image w)
    | some i ↦ load_into i image size (base_name path) cwd t w
  ]

  pub process_create_filesystem_process :
      Option (List ℕ) → Option (List ℕ) → Table → Machine P → Option ℕ × Table × Machine P
  process_create_filesystem_process none cwd t w = (none, t, w)
  process_create_filesystem_process (some path) cwd t w =
      let (image, v) = read_image (some path) w in place_image path cwd t image v

  pub process_create_filesystem_init :
      Option (List ℕ) → Table → Machine P → Bool × Table × Machine P
  process_create_filesystem_init path t w =
      let (image, v) = read_image path w in
      elim image [
        | none ↦ (false, t, v)
        | some buffer ↦
            let (made, t', u) =
              load_into 0 buffer.0 buffer.1 (b'i' ∷ b'n' ∷ b'i' ∷ b't' ∷ []) none t v in
            (elim made [ none ↦ false | some i ↦ true ], t', u)
      ]
