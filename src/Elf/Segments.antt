-- ===== src/Elf/Segments.antt =====
-- The loop of elf64_validate_user_image in userspace/elf.c over the program headers.
use whirliscope.Prelude.{
  ℕ, zero, suc, ◌+◌, ◌≤◌, ◌<◌, ◌≡◌, refl, sym, ap, subst, ◌∙◌, ◌⊎◌, inl, inr, Bool, true, false,
  not, ◌||◌, Option, none, some, ◌==◌, if◌then◌else◌, arith, Bool-cases,
}
use whirliscope.AddressSpace.{IsUserRange}
use whirliscope.Elf.{Elf64Phdr, elf64_pt_load, bad_segment, holds_entry, check_segments}
use whirliscope.Elf.Checks.{IsSafe, IsWords, bad_segment-IsSafe}

-- How one round of the loop can go on.
round_parts :
    (a b c : Bool) (x y : Option Bool) (r : Bool)
    → (if a then x else if b then x else if c then none else y) ≡ some r
    → (((a || b) ≡ true) × (x ≡ some r)) ⊎ ((a ≡ false) × (b ≡ false) × (c ≡ false) × (y ≡ some r))
round_parts true b c x y r e = inl (refl, e)
round_parts false true c x y r e = inl (refl, e)
round_parts false false true x y r e = absurd (ground arith)
round_parts false false false x y r e = inr (refl, refl, refl, e)

-- All segments among the headers from number `i` to before number `k` are safe.
abbrev pub AllSafe : (ℕ → Elf64Phdr) → (image_size i k : ℕ) → Type 0
AllSafe headers image_size i k =
    (j : ℕ)
    → i ≤ j
    → j < k
    → (headers j).p_type ≡ elf64_pt_load
    → 0 < (headers j).p_memsz
    → IsSafe (headers j) image_size

AllSafe-suc :
    (headers : ℕ → Elf64Phdr) (image_size i k : ℕ)
    → ((headers i).p_type ≡ elf64_pt_load → 0 < (headers i).p_memsz → IsSafe (headers i) image_size)
    → AllSafe headers image_size (i + 1) k
    → AllSafe headers image_size i k
AllSafe-suc headers image_size i k first rest j low high load size = elim (Bool-cases (j == i)) [
  | inl e ↦
      let same : i ≡ j = ground arith in
      subst (λ x. IsSafe (headers x) image_size) same
        (first (ap (λ x. (headers x).p_type) same ∙ load)
          (subst (λ x. 0 < (headers x).p_memsz) (sym same) size))
  | inr e ↦ rest j (ground arith) high load size
]

-- Some header from number `i` to before number `k` is of a segment with the entry.
abbrev pub HasEntry : (ℕ → Elf64Phdr) → (entry i k : ℕ) → Type 0
HasEntry headers entry i k =
    (j : ℕ) × (i ≤ j)
    × (j < k)
    × ((headers j).p_type ≡ elf64_pt_load)
    × ((headers j).p_vaddr ≤ entry)
    × (entry < (headers j).p_vaddr + (headers j).p_memsz)

load_type : (t : ℕ) → not (t == 1) ≡ false → t ≡ 1
load_type t e = ground arith

not_skipped : (t n : ℕ) → (not (t == 1) || n == 0) ≡ true → t ≡ 1 → 0 < n → ⊥
not_skipped t n e load size = ground arith

pub check_segments-AllSafe :
    (n i : ℕ) (headers : ℕ → Elf64Phdr) (entry image_size : ℕ) (seen r : Bool)
    → ((j : ℕ) → IsWords (headers j))
    → check_segments n i headers entry image_size seen ≡ some r
    → AllSafe headers image_size i (i + n)
unfolding check_segments
check_segments-AllSafe zero i headers entry image_size seen r w e =
    λ j low high. absurd (omega arith)
check_segments-AllSafe (suc n) i headers entry image_size seen r w e =
    let p = headers i in
    elim (round_parts (not (p.p_type == elf64_pt_load)) (p.p_memsz == 0) (bad_segment p image_size)
      (check_segments n (i + 1) headers entry image_size seen)
      (check_segments n (i + 1) headers entry image_size (seen || holds_entry entry p)) r e) [
        | inl (skip, f) ↦
            AllSafe-suc headers image_size i (i + suc n)
              (λ load size. absurd (not_skipped p.p_type p.p_memsz skip load size))
              (λ j low high.
                check_segments-AllSafe n (i + 1) headers entry image_size seen r w f j low
                  (omega arith))
        | inr (t, s, good, f) ↦
            AllSafe-suc headers image_size i (i + suc n)
              (λ load size. bad_segment-IsSafe p image_size (w i) good)
              (λ j low high.
                check_segments-AllSafe n (i + 1) headers entry image_size
                  (seen || holds_entry entry p) r w f j low (omega arith))
      ]

HasEntry-suc :
    (headers : ℕ → Elf64Phdr) (entry i n : ℕ)
    → HasEntry headers entry (i + 1) (i + 1 + n)
    → HasEntry headers entry i (i + suc n)
HasEntry-suc headers entry i n (j, low, high, load, from, to) =
    (j, omega arith, omega arith, load, from, to)

holds_entry-range :
    (entry : ℕ) (p : Elf64Phdr)
    → IsUserRange p.p_vaddr p.p_memsz
    → holds_entry entry p ≡ true
    → (p.p_vaddr ≤ entry) × (entry < p.p_vaddr + p.p_memsz)
unfolding holds_entry
holds_entry-range entry p u h = ground arith

seen_before : (a b : Bool) → (a || b) ≡ true → (a ≡ true) ⊎ (b ≡ true)
seen_before true b e = inl refl
seen_before false b e = inr e

pub check_segments-HasEntry :
    (n i : ℕ) (headers : ℕ → Elf64Phdr) (entry image_size : ℕ) (seen : Bool)
    → ((j : ℕ) → IsWords (headers j))
    → check_segments n i headers entry image_size seen ≡ some true
    → (seen ≡ true) ⊎ HasEntry headers entry i (i + n)
unfolding check_segments
check_segments-HasEntry zero i headers entry image_size true w e = inl refl
check_segments-HasEntry zero i headers entry image_size false w e = absurd (ground arith)
check_segments-HasEntry (suc n) i headers entry image_size seen w e =
    let p = headers i in
    elim (round_parts (not (p.p_type == elf64_pt_load)) (p.p_memsz == 0) (bad_segment p image_size)
      (check_segments n (i + 1) headers entry image_size seen)
      (check_segments n (i + 1) headers entry image_size (seen || holds_entry entry p)) true e) [
        | inl (skip, f) ↦
            elim (check_segments-HasEntry n (i + 1) headers entry image_size seen w f) [
              | inl before ↦ inl before
              | inr later ↦ inr (HasEntry-suc headers entry i n later)
            ]
        | inr (t, s, good, f) ↦
            elim (check_segments-HasEntry n (i + 1) headers entry image_size
              (seen || holds_entry entry p) w f) [
                | inl before ↦ elim (seen_before seen (holds_entry entry p) before) [
                  | inl earlier ↦ inl earlier
                  | inr here ↦
                      let range =
                        holds_entry-range entry p
                          (bad_segment-IsSafe p image_size (w i) good).memory here in
                      inr (i, omega arith, omega arith, load_type p.p_type t, range.0, range.1)
                ]
                | inr later ↦ inr (HasEntry-suc headers entry i n later)
              ]
      ]
