-- ===== src/Syscall/UserMemory.antt =====
-- copy_to_user of userspace/syscall.c: where it writes.
use whirliscope.Prelude.{
  ℕ, zero, suc, ◌+◌, ◌-◌, ◌%◌, ◌^◌, ◌≤◌, ◌<◌, ◌≡◌, refl, ◌∙◌, Bool, true, false, Option, some, ◌==◌,
  if◌then◌else◌, add64, arith, Bool-cases, Option-cases, inl, inr,
}
use whirliscope.Libc.Memory.{Memory, within}
use whirliscope.AddressSpace.{
  userspace_min_vaddr, userspace_max_vaddr, userspace_range_is_valid, accepted,
}
use whirliscope.Syscall.{vmm_page_size, page_chunk, write_user_from, write_user_bytes, copy_to_user}

-- The byte at `a` of physical memory is in no page that is mapped at a user address, from the
-- place on that such an address leads to.
abbrev pub IsForeign : (ℕ → Option ℕ) → (ℕ → ℕ) → ℕ → Type 0
IsForeign translate phys_to_virt a =
    (x p : ℕ)
    → userspace_min_vaddr ≤ x
    → x ≤ userspace_max_vaddr
    → translate x ≡ some p
    → within (phys_to_virt p) (vmm_page_size - p % vmm_page_size) a ≡ false

smaller_chunk :
    (dest p left a : ℕ)
    → within dest (vmm_page_size - p % vmm_page_size) a ≡ false
    → within dest (page_chunk p left) a ≡ false
smaller_chunk dest p left a h = ground arith

same_else {ℓ} : {A : Type ℓ} (test : Bool) (x y : A) → test ≡ false → (if test then x else y) ≡ y
same_else true x y e = absurd (ground arith)
same_else false x y e = refl

chunk_le : (p left : ℕ) → page_chunk p left ≤ left
chunk_le p left = ground arith

module _ (translate : ℕ → Option ℕ) (phys_to_virt : ℕ → ℕ) (a : ℕ) where
  write_user_from-kept :
      (k left copied user_address : ℕ) (src m : Memory)
      → IsForeign translate phys_to_virt a
      → userspace_min_vaddr ≤ user_address
      → user_address + (copied + left) ≤ userspace_max_vaddr + 1
      → (write_user_from translate phys_to_virt k left copied user_address src m).0 a ≡ m a
  unfolding write_user_from
  write_user_from-kept zero left copied user_address src m foreign low high = refl
  write_user_from-kept (suc k) left copied user_address src m foreign low high =
      elim (Bool-cases (left == 0)) [
        | inl e ↦ rw e
        | inr e ↦ elim (Option-cases (translate (add64 user_address copied))) [
          | inl n ↦ rw (e, n)
          | inr (p, t) ↦
              let chunk = page_chunk p left in
              let le = chunk_le p left in
              let outside : within (phys_to_virt p) chunk a ≡ false =
                smaller_chunk (phys_to_virt p) p left a
                  (foreign (add64 user_address copied) p (ground arith) (ground arith) t) in
              rw (e, t)
                (write_user_from-kept k (left - chunk) (copied + chunk) user_address src _ foreign
                    low (omega arith)
                  ∙ same_else (within (phys_to_virt p) chunk a)
                      (src (copied + (a - phys_to_virt p))) (m a) outside)
        ]
      ]

-- copy_to_user changes no byte of memory but those of pages that are mapped at user addresses,
-- whatever 64-bit address and length the user program passes.
pub copy_to_user-kept :
    (translate : ℕ → Option ℕ) (phys_to_virt : ℕ → ℕ) (user_address len : ℕ) (src m : Memory)
    (a : ℕ)
    → user_address < 2 ^ 64
    → len < 2 ^ 64
    → IsForeign translate phys_to_virt a
    → (copy_to_user translate phys_to_virt user_address len src m).0 a ≡ m a
unfolding copy_to_user write_user_bytes
copy_to_user-kept translate phys_to_virt user_address len src m a w v foreign =
    elim (Bool-cases (len == 0)) [
      | inl e ↦ rw e
      | inr e ↦ elim (Bool-cases (userspace_range_is_valid user_address len)) [
        | inl valid ↦
            let (some_bytes, low, high) = accepted user_address len w v valid in
            rw (e, valid)
              (write_user_from-kept translate phys_to_virt a len len 0 user_address src m foreign
                low (omega arith))
        | inr invalid ↦ rw (e, invalid)
      ]
    ]
