-- ===== src/AddressSpace.antt =====
-- userspace/address_space.c: the addresses that a user program may have.
mod Examples
use whirliscope.Prelude.{
  ℕ, ◌+◌, ◌-◌, ◌%◌, ◌^◌, ◌≤◌, ◌<◌, ◌≡◌, refl, ◌⊎◌, inl, inr, Bool, true, false, not, ◌&&◌, ◌||◌,
  ltb, leb, ◌==◌, if◌then◌else◌, add64, sub64, arith, Bool-cases,
}

abbrev pub userspace_min_vaddr : ℕ
userspace_min_vaddr = 0x1000

abbrev pub userspace_max_vaddr : ℕ
userspace_max_vaddr = 0x7fff_ffff_ffff

unfoldable pub userspace_range_is_valid : ℕ → ℕ → Bool
userspace_range_is_valid vaddr size =
    let end = sub64 (add64 vaddr size) 1 in
    if size == 0 || ltb vaddr userspace_min_vaddr
    then false
    else if ltb end vaddr
    then false
    else leb end userspace_max_vaddr

-- The bytes from `vaddr` on are user addresses, all of them, and there is one at least.
abbrev pub IsUserRange : ℕ → ℕ → Type 0
IsUserRange vaddr size =
    (0 < size) × (userspace_min_vaddr ≤ vaddr) × (vaddr + size ≤ userspace_max_vaddr + 1)

pub accepted :
    (vaddr size : ℕ)
    → vaddr < 2 ^ 64
    → size < 2 ^ 64
    → userspace_range_is_valid vaddr size ≡ true
    → IsUserRange vaddr size
unfolding userspace_range_is_valid
accepted vaddr size a b h = (ground arith, ground arith, ground arith)

rejected :
    (vaddr size : ℕ)
    → vaddr < 2 ^ 64
    → size < 2 ^ 64
    → userspace_range_is_valid vaddr size ≡ false
    → ¬ (IsUserRange vaddr size)
unfolding userspace_range_is_valid
rejected vaddr size a b h (x, y, z) = ground arith

-- userspace_range_is_valid accepts the ranges of user addresses and no others; no wrap-around of the
-- end gets past it.
pub userspace_range_is_valid-IsUserRange :
    (vaddr size : ℕ)
    → vaddr < 2 ^ 64
    → size < 2 ^ 64
    → ((userspace_range_is_valid vaddr size ≡ true) × IsUserRange vaddr size)
      ⊎ ((userspace_range_is_valid vaddr size ≡ false) × ¬ (IsUserRange vaddr size))
unfolding userspace_range_is_valid
userspace_range_is_valid-IsUserRange vaddr size a b =
    elim (Bool-cases (
      if size == 0 || ltb vaddr userspace_min_vaddr
      then false
      else if ltb (sub64 (add64 vaddr size) 1) vaddr
      then false
      else leb (sub64 (add64 vaddr size) 1) userspace_max_vaddr)) [
        | inl yes_valid ↦ inl (yes_valid, accepted vaddr size a b yes_valid)
        | inr not_valid ↦ inr (not_valid, rejected vaddr size a b not_valid)
      ]
