-- ===== src/Syscall/Files/Kept.antt =====
-- The calls on files of userspace/syscall.c: what they leave of memory.
use whirliscope.Prelude.{
  ℕ, zero, suc, ◌+◌, ◌-◌, ◌*◌, ◌%◌, ◌^◌, ◌<◌, ◌≡◌, refl, List, [], ◌∷◌, not, ◌++◌, Bool, true,
  false, Option, none, some, ◌==◌, if◌then◌else◌, ltb, length, add64, arith, Bool-cases,
  Option-cases, inl, inr,
}
use whirliscope.Prelude.Int.{ℤ, pos, negsuc}
use whirliscope.Libc.Memory.{Memory}
use whirliscope.Process.{Process}
use whirliscope.Ext2.Image.{Ext2}
use whirliscope.Ext2.Listing.{user_err_fault, user_err_inval, bytes_at, type_dir, Dirent}
use whirliscope.Ext2.Paths.{slash}
use whirliscope.Ext2.Calls.{ext2_stat}
use whirliscope.Syscall.{read_user_bytes, copy_and_resolve_user_path}
use whirliscope.Syscall.UserMemory.{IsForeign, copy_to_user-kept}
use whirliscope.Syscall.Files.{
  Machine, string_bytes, changed, current_cwd, to_user, with_path, write_string_from,
  write_user_string, set_current, fs_list, fs_read, fs_getcwd, fs_chdir, fs_write,
}

below_word : (n : ℕ) → n % 2 ^ 64 < 2 ^ 64
below_word n = omega arith

-- A test on the result of a call leaves what both branches leave.
pub either {ℓ} :
    {A : Type ℓ} (P : A → Type 0) (test : Bool) (x y : A) → P x → P y → P (if test then x else y)
either P true x y px py = px
either P false x y px py = py

-- The byte of memory at `a` is as it was.
unfoldable pub Keeps : (a : ℕ) → Machine → ℤ × Machine → Type 0
Keeps a s r = r.1.memory a ≡ s.memory a

unchanged : (a : ℕ) (s t : Machine) (result : ℤ) → t.memory ≡ s.memory → Keeps a s (result, t)
unfolding Keeps
unchanged a s t result e = rw e refl

from_here :
    (a : ℕ) (s t : Machine) (r : ℤ × Machine) → t.memory ≡ s.memory → Keeps a t r → Keeps a s r
unfolding Keeps
from_here a s t r e h = rw h (rw e refl)

module _ (translate : ℕ → Option ℕ) (phys_to_virt : ℕ → ℕ) (garbage static_bytes : Memory) (a : ℕ)
    (foreign : IsForeign translate phys_to_virt a) where
  to_user-Keeps :
      (user_address len : ℕ) (src : Memory) (result : ℤ) (s : Machine)
      → user_address < 2 ^ 64
      → len < 2 ^ 64
      → Keeps a s (to_user translate phys_to_virt user_address len src result s)
  unfolding to_user Keeps
  to_user-Keeps user_address len src result s w v =
      copy_to_user-kept translate phys_to_virt user_address len src s.memory a w v foreign

  with_path-Keeps :
      (user_address : ℕ) (s : Machine) (call : List ℕ → ℤ × Machine)
      → ((path : List ℕ) → Keeps a s (call path))
      → Keeps a s (with_path translate phys_to_virt user_address s call)
  unfolding with_path
  with_path-Keeps user_address s call h =
      elim (Option-cases
        (copy_and_resolve_user_path translate phys_to_virt (current_cwd s) user_address s.memory)) [
          | inl n ↦ rw (n, with_path) (unchanged a s s user_err_fault refl)
          | inr (path, e) ↦ rw (e, with_path) (h path)
        ]

  write_string_from-Keeps :
      (k written len user_address : ℕ) (s : Machine)
      → Keeps a s (
          write_string_from translate phys_to_virt garbage static_bytes k written len user_address
            s)
  unfolding write_string_from
  write_string_from-Keeps zero written len user_address s = unchanged a s s (pos len) refl
  write_string_from-Keeps (suc k) written len user_address s =
      let chunk = if ltb 1024 (len - written) then 1024 else len - written in
      elim (Bool-cases (ltb written len)) [
        | inl e ↦
            elim (Option-cases (
              read_user_bytes translate phys_to_virt (add64 user_address written) chunk s.memory
                garbage)) [
                  | inl n ↦ rw (e, n, write_string_from) (unchanged a s s user_err_fault refl)
                  | inr (buffer, t) ↦
                      rw (e, t, write_string_from)
                        (from_here a s (record s { console = s.console ++ bytes_at chunk 0 buffer })
                          _ refl
                          (write_string_from-Keeps k (written + chunk) len user_address
                            (record s { console = s.console ++ bytes_at chunk 0 buffer })))
                ]
        | inr e ↦ rw (e, write_string_from) (unchanged a s s (pos len) refl)
      ]

  pub write_user_string-Keeps :
      (user_address len : ℕ) (s : Machine)
      → Keeps a s (write_user_string translate phys_to_virt garbage static_bytes user_address len s)
  unfolding write_user_string
  write_user_string-Keeps user_address len s =
      either (Keeps a s) (len == 0) _ _ (unchanged a s s (pos 0) refl) (
        either (Keeps a s) _ _ _ (unchanged a s s user_err_fault refl)
          (write_string_from-Keeps len 0 len user_address s))

  -- The end of a call that sends bytes, if it was no error.
  sent-Keeps :
      (r : ℤ) (user_address : ℕ) (len : ℕ → ℕ) (src : Memory) (s : Machine)
      → user_address < 2 ^ 64
      → Keeps a s (elim r as (λ _. ℤ × Machine) [
        | negsuc n ↦ (negsuc n, s)
        | pos count ↦
            to_user translate phys_to_virt user_address (len count % 2 ^ 64) src (pos count) s
      ])
  sent-Keeps (negsuc n) user_address len src s w = unchanged a s s (negsuc n) refl
  sent-Keeps (pos count) user_address len src s w =
      to_user-Keeps user_address (len count % 2 ^ 64) src (pos count) s w (below_word (len count))

  pub fs_list-Keeps :
      (arg0 arg1 arg2 : ℕ) (s : Machine)
      → arg1 < 2 ^ 64
      → Keeps a s (fs_list translate phys_to_virt garbage static_bytes arg0 arg1 arg2 s)
  unfolding fs_list
  fs_list-Keeps arg0 arg1 arg2 s w =
      with_path-Keeps arg0 s _ (λ path. sent-Keeps _ arg1 (λ count. count * 80) _ s w)

  pub fs_read-Keeps :
      (arg0 arg1 arg2 arg3 : ℕ) (s : Machine)
      → arg1 < 2 ^ 64
      → Keeps a s (fs_read translate phys_to_virt garbage static_bytes arg0 arg1 arg2 arg3 s)
  unfolding fs_read
  fs_read-Keeps arg0 arg1 arg2 arg3 s w =
      with_path-Keeps arg0 s _ (λ path. sent-Keeps _ arg1 (λ count. count) _ s w)

  pub fs_getcwd-Keeps :
      (arg0 arg1 : ℕ) (s : Machine)
      → arg0 < 2 ^ 64
      → Keeps a s (fs_getcwd translate phys_to_virt garbage static_bytes arg0 arg1 s)
  unfolding fs_getcwd
  fs_getcwd-Keeps arg0 arg1 s w =
      let cwd = if length (current_cwd s) == 0 then slash ∷ [] else current_cwd s in
      let len = length cwd + 1 in
      either (Keeps a s) (ltb arg1 len) _ _ (unchanged a s s user_err_inval refl)
        (to_user-Keeps arg0 (len % 2 ^ 64) (string_bytes cwd) (pos 0) s w (below_word len))

  set_current-Keeps :
      (current : Option Process) (path : List ℕ) (s : Machine)
      → Keeps a s (set_current current path s)
  set_current-Keeps none path s = unchanged a s s _ refl
  set_current-Keeps (some process) path s = unchanged a s _ _ refl

  pub fs_chdir-Keeps :
      (arg0 : ℕ) (s : Machine)
      → Keeps a s (fs_chdir translate phys_to_virt garbage static_bytes arg0 s)
  unfolding fs_chdir
  fs_chdir-Keeps arg0 s = with_path-Keeps arg0 s _ (λ path.
      elim (Option-cases (ext2_stat garbage path s.fs).1) [
        | inl n ↦ rw n (unchanged a s s _ refl)
        | inr (entry, e) ↦ rw e (
            either (Keeps a s) (not (Dirent.type entry == type_dir)) _ _
              (unchanged a s s user_err_inval refl) (set_current-Keeps s.current path s))
      ])

  pub fs_write-Keeps :
      (arg0 arg1 arg2 arg3 : ℕ) (s : Machine)
      → Keeps a s (fs_write translate phys_to_virt garbage static_bytes arg0 arg1 arg2 arg3 s)
  unfolding fs_write
  fs_write-Keeps arg0 arg1 arg2 arg3 s = with_path-Keeps arg0 s _ (λ path.
      elim (Option-cases (
        read_user_bytes translate phys_to_virt arg1 (if ltb 4096 arg2 then 4096 else arg2) s.memory
          static_bytes)) [
            | inl n ↦ rw n (unchanged a s s _ refl)
            | inr (buffer, e) ↦ rw e (unchanged a s _ _ refl)
          ])

  pub changed-Keeps :
      (arg0 : ℕ) (call : List ℕ → ℤ × Ext2) (s : Machine)
      → Keeps a s (with_path translate phys_to_virt arg0 s (λ path. changed s (call path)))
  changed-Keeps arg0 call s = with_path-Keeps arg0 s _ (λ path. unchanged a s _ _ refl)
