-- ===== src/Syscall/Delivered.antt =====
-- copy_to_user of userspace/syscall.c: what it writes.
use whirliscope.Prelude.{
  ℕ, zero, suc, ◌+◌, ◌-◌, ◌%◌, ◌^◌, ◌≤◌, ◌<◌, ◌≡◌, refl, sym, subst, ◌∙◌, true, false, Option, none,
  some, ◌==◌, ltb, if◌then◌else◌, add64, arith, Bool-cases, Option-cases, inl, inr,
}
use whirliscope.Libc.Memory.{Memory, within}
use whirliscope.AddressSpace.{userspace_range_is_valid, accepted}
use whirliscope.Syscall.{vmm_page_size, page_chunk, write_user_from, write_user_bytes, copy_to_user}

-- `place` is where the kernel sees the byte at a user address: a page that is translated is seen
-- in one piece.
abbrev pub IsPlace : (ℕ → Option ℕ) → (ℕ → ℕ) → (place : ℕ → ℕ) → Type 0
IsPlace translate phys_to_virt place =
    (x p j : ℕ)
    → translate x ≡ some p
    → j < vmm_page_size - p % vmm_page_size
    → phys_to_virt p + j ≡ place (x + j)

-- The first `len` bytes from a user address on are at different places.
abbrev pub IsApart : (place : ℕ → ℕ) → (user_address len : ℕ) → Type 0
IsApart place user_address len =
    (i j : ℕ) → i < len → j < len → place (user_address + i) ≡ place (user_address + j) → i ≡ j

chunk_bounds :
    (p left : ℕ)
    → (page_chunk p left ≤ left) × (page_chunk p left ≤ vmm_page_size - p % vmm_page_size)
chunk_bounds p left = (ground arith, ground arith)

inside : (dest chunk a j : ℕ) → j < chunk → dest + j ≡ a → within dest chunk a ≡ true
inside dest chunk a j lt e = ground arith

outside :
    (dest chunk a : ℕ) → ((j : ℕ) → j < chunk → dest + j ≡ a → ⊥) → within dest chunk a ≡ false
outside dest chunk a h = elim (Bool-cases (within dest chunk a)) [
  | inl e ↦ absurd (h (a - dest) (ground arith) (ground arith))
  | inr e ↦ e
]

-- The byte `i` of the copy: one that an earlier round has written, or the source's.
abbrev byte_of : (copied i : ℕ) → (src : Memory) → (written : ℕ) → ℕ
byte_of copied i src written = if ltb i copied then written else src i

round_lem :
    (copied chunk dest i a : ℕ) (src m : Memory)
    → (i < copied → within dest chunk a ≡ false)
    → (copied ≤ i → i < copied + chunk → dest + (i - copied) ≡ a)
    → byte_of
        (copied + chunk)
        i
        src
        (if within dest chunk a then src (copied + (a - dest)) else m a)
      ≡ byte_of copied i src (m a)
round_lem copied chunk dest i a src m before now = elim (Bool-cases (ltb i copied)) [
  | inl e ↦
      let more : ltb i (copied + chunk) ≡ true = ground arith in
      rw (e, before (ground arith), more) refl
  | inr e ↦ elim (Bool-cases (ltb i (copied + chunk))) [
    | inl l ↦
        let at = now (ground arith) (ground arith) in
        let same : copied + (a - dest) ≡ i = ground arith in
        rw (e, l, inside dest chunk a (i - copied) (ground arith) at, same) refl
    | inr l ↦ rw (e, l) refl
  ]
]

module _ (translate : ℕ → Option ℕ) (phys_to_virt place : ℕ → ℕ) (user_address len : ℕ) where
  write_round :
      (k left copied p : ℕ) (src m : Memory)
      → left == 0 ≡ false
      → translate (add64 user_address copied) ≡ some p
      → write_user_from translate phys_to_virt (suc k) left copied user_address src m
        ≡ write_user_from translate phys_to_virt k
            (left - page_chunk p left)
            (copied + page_chunk p left)
            user_address
            src
            (λ a.
              if within (phys_to_virt p) (page_chunk p left) a
              then src (copied + (a - phys_to_virt p))
              else m a)
  unfolding write_user_from
  write_round k left copied p src m e t = rw (e, t) refl

  write_fault :
      (k left copied : ℕ) (src m : Memory)
      → left == 0 ≡ false
      → translate (add64 user_address copied) ≡ none
      → write_user_from translate phys_to_virt (suc k) left copied user_address src m ≡ (m, false)
  unfolding write_user_from
  write_fault k left copied src m e n = rw (e, n) refl

  write_end :
      (k left copied : ℕ) (src m : Memory)
      → left == 0 ≡ true
      → write_user_from translate phys_to_virt k left copied user_address src m ≡ (m, true)
  unfolding write_user_from
  write_end zero left copied src m e = rw e refl
  write_end (suc k) left copied src m e = rw e refl

  -- The byte `j` of a page, seen from the page and from the user address.
  place_of :
      (copied p j : ℕ)
      → IsPlace translate phys_to_virt place
      → user_address + copied < 2 ^ 64
      → translate (add64 user_address copied) ≡ some p
      → j < vmm_page_size - p % vmm_page_size
      → phys_to_virt p + j ≡ place (user_address + (copied + j))
  place_of copied p j placed low t lt =
      let at : add64 user_address copied ≡ user_address + copied = ground arith in
      let one : user_address + copied + j ≡ user_address + (copied + j) = omega arith in
      placed (user_address + copied) p j (subst (λ x. translate x ≡ some p) at t) lt ∙ rw one refl

  round_bytes :
      (copied p left i : ℕ) (src m : Memory)
      → IsPlace translate phys_to_virt place
      → IsApart place user_address len
      → user_address + len ≤ 2 ^ 64
      → copied + left ≡ len
      → left == 0 ≡ false
      → translate (add64 user_address copied) ≡ some p
      → i < len
      → byte_of (copied + page_chunk p left) i src (
          if within (phys_to_virt p) (page_chunk p left) (place (user_address + i))
          then src (copied + (place (user_address + i) - phys_to_virt p))
          else m (place (user_address + i)))
        ≡ byte_of copied i src (m (place (user_address + i)))
  round_bytes copied p left i src m placed apart high all e t lt =
      let chunk = page_chunk p left in
      let (le, page) = chunk_bounds p left in
      let some_left : 0 < left = ground arith in
      let at : (j : ℕ) → j < chunk → phys_to_virt p + j ≡ place (user_address + (copied + j)) =
        λ j lj. place_of copied p j placed (omega arith) t (omega arith) in
      round_lem copied chunk (phys_to_virt p) i (place (user_address + i)) src m
        (λ before. outside (phys_to_virt p) chunk (place (user_address + i)) (λ j lj q.
          let same : i ≡ copied + j = apart i (copied + j) lt (omega arith) (sym q ∙ at j lj) in
          omega arith))
        (λ low high.
          let one : copied + (i - copied) ≡ i = omega arith in
          at (i - copied) (omega arith) ∙ rw one refl)

  write_user_from-bytes :
      (k left copied i : ℕ) (src m : Memory)
      → IsPlace translate phys_to_virt place
      → IsApart place user_address len
      → user_address + len ≤ 2 ^ 64
      → copied + left ≡ len
      → (write_user_from translate phys_to_virt k left copied user_address src m).1 ≡ true
      → i < len
      → (write_user_from translate phys_to_virt k left copied user_address src m).0
          (place (user_address + i))
        ≡ byte_of copied i src (m (place (user_address + i)))
  unfolding write_user_from
  write_user_from-bytes zero left copied i src m placed apart high all done lt =
      let first : ltb i copied ≡ true = ground arith in rw first refl
  write_user_from-bytes (suc k) left copied i src m placed apart high all done lt =
      elim (Bool-cases (left == 0)) [
        | inl e ↦
            let first : ltb i copied ≡ true = ground arith in
            rw (write_end (suc k) left copied src m e, first) refl
        | inr e ↦ elim (Option-cases (translate (add64 user_address copied))) [
          | inl n ↦
              let failed : false ≡ true =
                subst (λ r. r.1 ≡ true) (write_fault k left copied src m e n) done in
              absurd (ground arith)
          | inr (p, t) ↦
              let (le, page) = chunk_bounds p left in
              let next = write_round k left copied p src m e t in
              rw next (
                write_user_from-bytes k (left - page_chunk p left) (copied + page_chunk p left) i
                  src _ placed apart high (omega arith) (subst (λ r. r.1 ≡ true) next done) lt
                ∙ round_bytes copied p left i src m placed apart high all e t lt)
        ]
      ]

-- Where copy_to_user succeeds, each byte of the source is at its place in the memory of the user
-- program. Pages are seen by the kernel in one piece, and the bytes of the range are at different
-- places; address and length are 64-bit words.
pub copy_to_user-delivered :
    (translate : ℕ → Option ℕ) (phys_to_virt place : ℕ → ℕ) (user_address len i : ℕ)
    (src m : Memory)
    → user_address < 2 ^ 64
    → len < 2 ^ 64
    → IsPlace translate phys_to_virt place
    → IsApart place user_address len
    → (copy_to_user translate phys_to_virt user_address len src m).1 ≡ true
    → i < len
    → (copy_to_user translate phys_to_virt user_address len src m).0 (place (user_address + i))
      ≡ src i
unfolding copy_to_user write_user_bytes
copy_to_user-delivered translate phys_to_virt place user_address len i src m w v placed apart done
      lt =
    let some_bytes : len == 0 ≡ false = ground arith in
    let none_before : (x y : ℕ) → (if ltb i 0 then x else y) ≡ y = λ x y. ground arith in
    elim (Bool-cases (userspace_range_is_valid user_address len)) [
      | inl valid ↦
          let (some_size, low, high) = accepted user_address len w v valid in
          let called : copy_to_user translate phys_to_virt user_address len src m
              ≡ write_user_from translate phys_to_virt len len 0 user_address src m =
            rw (some_bytes, valid) refl in
          rw called (
            write_user_from-bytes translate phys_to_virt place user_address len len len 0 i src m
              placed apart (omega arith) (omega arith) (subst (λ r. r.1 ≡ true) called done) lt
            ∙ none_before (m (place (user_address + i))) (src i))
      | inr invalid ↦
          let refused : copy_to_user translate phys_to_virt user_address len src m ≡ (m, false) =
            rw (some_bytes, invalid) refl in
          let failed : false ≡ true = subst (λ r. r.1 ≡ true) refused done in absurd (ground arith)
    ]
