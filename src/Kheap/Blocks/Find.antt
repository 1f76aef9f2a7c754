-- ===== src/Kheap/Blocks/Find.antt =====
-- find_free_block of memory/heap.c: it ends, with the first block that is free and large enough.
use whirliscope.Prelude.{
  ℕ, zero, suc, ◌+◌, ◌*◌, ◌≤◌, ◌<◌, ◌≡◌, ap, refl, Bool, true, false, ◌&&◌, List, [], ◌∷◌, ◌++◌,
  arith, leb, length, Bool-cases, inl, inr,
}
use whirliscope.Kheap.Blocks.{
  null, Headers, returned, Links, max_blocks, kheap_max_size, find_from, find_free_block,
}
use whirliscope.Kheap.Blocks.Layout.{Cell, end_of, link, Seg, IsLayout}

abbrev pub fits : ℕ → Cell → Bool
fits size c = c.free && leb size c.size

-- No block of the list is free and large enough.
abbrev pub NoneFits : ℕ → List Cell → Type 0
NoneFits size [] = Unit {0}
NoneFits size (c ∷ xs) = (fits size c ≡ false) × NoneFits size xs

-- The answer of the search through `xs`, which starts at `a`.
pub data Found (a size : ℕ) (xs : List Cell) : ℕ → Type 0 where
  missing : NoneFits size xs → Found a size xs null
  found :
      (ys : List Cell) (c : Cell) (zs : List Cell)
      → xs ≡ ys ++ c ∷ zs
      → NoneFits size ys
      → fits size c ≡ true
      → Found a size xs (end_of a ys)

skip :
    {a size : ℕ} {c : Cell} {xs : List Cell} {r : ℕ}
    → fits size c ≡ false
    → Found (a + 32 + c.size) size xs r
    → Found a size (c ∷ xs) r
skip miss (missing n) = missing (miss, n)
skip {c} miss (found ys d zs e n y) = found (c ∷ ys) d zs (ap (◌∷◌ c) e) (miss, n) y

abbrev Search : ℕ → ℕ → ℕ → Headers → List Cell → Type 0
Search fuel a size b xs =
    (r : ℕ) × (find_from fuel (link a null xs) size b ≡ returned r) × Found a size xs r

find_from-Found :
    (fuel p a size : ℕ) (b : Headers) (xs : List Cell)
    → 0 < a
    → length xs < fuel
    → Seg b p a null xs
    → Search fuel a size b xs
unfolding find_from
find_from-Found zero p a size b xs pos enough s = absurd (omega arith)
find_from-Found (suc fuel) p a size b [] pos enough s = (null, refl, missing tt)
find_from-Found (suc fuel) p a size b (c ∷ xs) pos enough s =
    let (r, e, f) =
      find_from-Found fuel a (a + 32 + c.size) size b xs (omega arith) (omega arith) s.1 in
    elim (Bool-cases (fits size c)) [
      | inl good ↦ (a, ground arith, found [] c xs refl tt good)
      | inr bad ↦ (r, ground arith, skip bad f)
    ]

pub length-end_of : (a : ℕ) (xs : List Cell) → a + 32 * length xs ≤ end_of a xs
length-end_of a [] = omega arith
length-end_of a (c ∷ xs) = omega (arith, length-end_of (a + 32 + c.size) xs)

find_first :
    (fuel first start size : ℕ) (b : Headers) (xs : List Cell)
    → first ≡ link start null xs
    → 0 < start
    → length xs < fuel
    → Seg b null start null xs
    → (r : ℕ) × (find_from fuel first size b ≡ returned r) × Found start size xs r
find_first fuel first start size b xs e pos enough s =
    rw e (find_from-Found fuel null start size b xs pos enough s)

-- The search returns, and its answer is the address of the first fit, or NULL where none is.
pub find_free_block-Found :
    (l : Links) (start size : ℕ) (xs : List Cell)
    → 0 < start
    → end_of start xs ≤ start + kheap_max_size
    → IsLayout l start xs
    → (r : ℕ) × (find_free_block size l ≡ returned r) × Found start size xs r
unfolding find_free_block
find_free_block-Found l start size xs pos limit v =
    find_first max_blocks l.first_block start size l.block xs v.first pos
      (omega (arith, length-end_of start xs)) v.seg
