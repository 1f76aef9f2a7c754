-- ===== src/Syscall/Files/Dispatch.antt =====
-- The calls on files of syscall_dispatch in userspace/syscall.c, together.
use whirliscope.Prelude.{ℕ, ◌^◌, ◌<◌, ◌≡◌, Option, none, some, ◌==◌, if◌then◌else◌, subst, arith}
use mathlib.Core.Option.{some-injective}
use whirliscope.Prelude.Int.{ℤ}
use whirliscope.Libc.Memory.{Memory}
use whirliscope.Ext2.Calls.{ext2_truncate_file}
use whirliscope.Ext2.Tree.{ext2_create_file, ext2_mkdir, ext2_unlink, ext2_rmdir}
use whirliscope.Syscall.UserMemory.{IsForeign}
use whirliscope.Syscall.Files.{Machine, files_dispatch}
use whirliscope.Syscall.Files.Kept.{
  Keeps, either, write_user_string-Keeps, fs_list-Keeps, fs_read-Keeps, fs_getcwd-Keeps,
  fs_chdir-Keeps, fs_write-Keeps, changed-Keeps,
}

-- A call keeps the byte at `a`, if it was one on files.
unfoldable SomeKeeps : (a : ℕ) → Machine → Option (ℤ × Machine) → Type 0
SomeKeeps a s o = (r : ℤ × Machine) → o ≡ some r → Keeps a s r

some-Keeps : (a : ℕ) (s : Machine) (r : ℤ × Machine) → Keeps a s r → SomeKeeps a s (some r)
unfolding SomeKeeps
some-Keeps a s r h t e = subst (Keeps a s) (some-injective _ _ e) h

none-Keeps : (a : ℕ) (s : Machine) → SomeKeeps a s none
unfolding SomeKeeps
none-Keeps a s t e = absurd (ground arith)

-- One more call is dispatched.
case-Keeps :
    (a number of : ℕ) (s : Machine) (call : ℤ × Machine) (others : Option (ℤ × Machine))
    → Keeps a s call
    → SomeKeeps a s others
    → SomeKeeps a s (if number == of then some call else others)
case-Keeps a number of s call others h rest =
    either (SomeKeeps a s) (number == of) (some call) others (some-Keeps a s call h) rest

files_dispatch-Keeps :
    (translate : ℕ → Option ℕ) (phys_to_virt : ℕ → ℕ) (garbage static_bytes : Memory)
    (number arg0 arg1 arg2 arg3 a : ℕ) (s : Machine)
    → arg0 < 2 ^ 64
    → arg1 < 2 ^ 64
    → IsForeign translate phys_to_virt a
    → SomeKeeps a s
        (files_dispatch translate phys_to_virt garbage static_bytes number arg0 arg1 arg2 arg3 s)
unfolding files_dispatch
files_dispatch-Keeps translate phys_to_virt garbage static_bytes number arg0 arg1 arg2 arg3 a s w v
      foreign =
    let changes = changed-Keeps translate phys_to_virt garbage static_bytes a foreign arg0 in
    case-Keeps a number 10 s _ _
      (write_user_string-Keeps translate phys_to_virt garbage static_bytes a foreign arg0 arg1 s)
      (case-Keeps a number 22 s _ _
        (fs_list-Keeps translate phys_to_virt garbage static_bytes a foreign arg0 arg1 arg2 s v)
        (case-Keeps a number 23 s _ _
          (fs_read-Keeps translate phys_to_virt garbage static_bytes a foreign arg0 arg1 arg2 arg3 s
            v)
          (case-Keeps a number 24 s _ _
            (fs_getcwd-Keeps translate phys_to_virt garbage static_bytes a foreign arg0 arg1 s w)
            (case-Keeps a number 25 s _ _
              (fs_chdir-Keeps translate phys_to_virt garbage static_bytes a foreign arg0 s)
              (case-Keeps a number 26 s _ _
                (fs_write-Keeps translate phys_to_virt garbage static_bytes a foreign arg0 arg1 arg2
                  arg3 s)
                (case-Keeps a number 28 s _ _
                  (changes (λ path. ext2_create_file garbage path s.fs) s)
                  (case-Keeps a number 29 s _ _ (changes (λ path. ext2_mkdir garbage path s.fs) s) (
                    case-Keeps a number 30 s _ _ (changes (λ path. ext2_unlink garbage path s.fs) s)
                      (case-Keeps a number 31 s _ _
                        (changes (λ path. ext2_rmdir garbage path s.fs) s)
                        (case-Keeps a number 32 s _ _
                          (changes (λ path. ext2_truncate_file garbage path arg1 s.fs) s)
                          (none-Keeps a s)))))))))))

-- No system call on files or on strings for the console changes a byte of memory but those of pages
-- that are mapped at user addresses, whatever number and 64-bit arguments the user program passes.
pub files_dispatch-kept :
    (translate : ℕ → Option ℕ) (phys_to_virt : ℕ → ℕ) (garbage static_bytes : Memory)
    (number arg0 arg1 arg2 arg3 a : ℕ) (s : Machine) (r : ℤ × Machine)
    → arg0 < 2 ^ 64
    → arg1 < 2 ^ 64
    → IsForeign translate phys_to_virt a
    → files_dispatch translate phys_to_virt garbage static_bytes number arg0 arg1 arg2 arg3 s
      ≡ some r
    → r.1.memory a ≡ s.memory a
unfolding SomeKeeps Keeps
files_dispatch-kept translate phys_to_virt garbage static_bytes number arg0 arg1 arg2 arg3 a s r w v
      foreign e =
    files_dispatch-Keeps translate phys_to_virt garbage static_bytes number arg0 arg1 arg2 arg3 a s
      w v foreign r e
