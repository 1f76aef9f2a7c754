-- ===== src/Kheap/Blocks/Split.antt =====
-- split_block of memory/heap.c on the list of blocks.
use whirliscope.Prelude.{
  ℕ, ◌+◌, ◌-◌, ◌^◌, ◌≤◌, ◌<◌, ◌≡◌, ◌≢◌, ltb→lt, refl, ◌∙◌, true, List, [], ◌∷◌, ◌++◌, arith, ltb,
  if◌then◌else◌, Bool-cases, inl, inr,
}
use whirliscope.Kheap.Blocks.{heap_magic, null, Links, split_block}
use whirliscope.Kheap.Blocks.Layout.{
  Cell, cell, end_of, last_of, IsHeader, Seg, IsLayout, frame, end_of-le, middle-IsLayout,
  IsHeader-of, end_of-append, tail-Seg, tail-last,
}

-- The block's own part comes first; what is left is free.
unfoldable pub split_cells : ℕ → Cell → List Cell → List Cell
split_cells size c xs =
    if ltb c.size (size + 48)
    then c ∷ xs
    else cell size c.free ∷ cell (c.size - size - 32) true ∷ xs

-- The headers after a split that has a block behind it, at the address `after`.
module _ (l : Links) (a size after : ℕ) (here : 0 < a) (linked : (l.block a).next ≡ after)
    (fits : size + 48 ≤ (l.block a).size) (behind : after ≡ a + 32 + (l.block a).size)
    (small : after < 2 ^ 64) where
  split_self :
      (split_block a size l).block a ≡ record (l.block a) { size = size; next = a + 32 + size }
  unfolding split_block
  split_self = ground arith

  split-mid : (split_block a size l).block (a + 32 + size) ≡ record {
    magic = heap_magic;
    free = true;
    size = (l.block a).size - size - 32;
    prev = a;
    next = after;
  }
  unfolding split_block
  split-mid = ground arith

  split-after : (split_block a size l).block after ≡ record (l.block after) { prev = a + 32 + size }
  unfolding split_block
  split-after = ground arith

  split-other :
      (q : ℕ) → q ≢ a → q ≢ a + 32 + size → q ≢ after → (split_block a size l).block q ≡ l.block q
  unfolding split_block
  split-other q n1 n2 n3 = ground arith

  split-ends :
      ((split_block a size l).first_block ≡ l.first_block)
      × ((split_block a size l).last_block ≡ l.last_block)
  unfolding split_block
  split-ends = (ground arith, ground arith)

-- `l'` is `l` with the block `c` at `a` cut after `size` bytes.
abbrev Cut : Links → Links → (p a size : ℕ) → Cell → List Cell → Type 0
Cut l l' p a size c xs =
    Seg l'.block p a null (cell size c.free ∷ cell (c.size - size - 32) true ∷ xs)
    × (l'.last_block ≡ last_of p a (cell size c.free ∷ cell (c.size - size - 32) true ∷ xs))
    × (l'.first_block ≡ l.first_block)
    × ((q : ℕ) → q < a → l'.block q ≡ l.block q)

module _ (l : Links) (p a size : ℕ) (c : Cell) (here : 0 < a) (fits : size + 48 ≤ c.size) where
  split-Cut_end :
      a + 32 + c.size < 2 ^ 64
      → IsHeader l.block a c p null
      → l.last_block ≡ a
      → Cut l (split_block a size l) p a size c []
  unfolding split_block
  split-Cut_end small s last =
      ((ground arith, (ground arith, tt)), ground arith, ground arith, ground arith)

  next_address : a + 32 + size + 32 + (c.size - size - 32) ≡ a + 32 + c.size
  next_address = omega arith

  split-Cut_inner :
      (d : Cell) (xs : List Cell)
      → a + 32 + c.size < 2 ^ 64
      → Seg l.block p a null (c ∷ d ∷ xs)
      → l.last_block ≡ last_of p a (c ∷ d ∷ xs)
      → Cut l (split_block a size l) p a size c (d ∷ xs)
  split-Cut_inner d xs small s last =
      let after = a + 32 + c.size in
      let n : (l.block a).next ≡ after = s.0.next in
      let f : size + 48 ≤ (l.block a).size = omega arith in
      let b : after ≡ a + 32 + (l.block a).size = omega arith in
      let self = split_self l a size after here n f b small in
      let mid = split-mid l a size after here n f b small in
      let behind = split-after l a size after here n f b small in
      let other = split-other l a size after here n f b small in
      let ends = split-ends l a size after here n f b small in
      rw next_address (
        (
          IsHeader-of _ _ _ _ _ _ self s.0.magic s.0.free refl s.0.prev refl,
          (
            IsHeader-of _ _ _ _ _ _ mid refl refl (omega arith) refl refl,
            (
              IsHeader-of _ _ _ _ _ _ behind s.1.0.magic s.1.0.free s.1.0.size refl s.1.0.next,
              frame l.block (split_block a size l).block _ _ null xs
                  (λ q lo hi. other q (omega arith) (omega arith) (omega arith)) s.1.1,
            ),
          ),
        ),
        ends.1 ∙ last,
        ends.0,
        λ q lt. other q (omega arith) (omega arith) (omega arith),
      )

split-Cut :
    (l : Links) (p a size : ℕ) (c : Cell) (xs : List Cell)
    → 0 < a
    → size + 48 ≤ c.size
    → a + 32 + c.size < 2 ^ 64
    → Seg l.block p a null (c ∷ xs)
    → l.last_block ≡ last_of p a (c ∷ xs)
    → Cut l (split_block a size l) p a size c xs
split-Cut l p a size c [] here fits small s last =
    split-Cut_end l p a size c here fits small s.0 last
split-Cut l p a size c (d ∷ xs) here fits small s last =
    split-Cut_inner l p a size c here fits d xs small s last

split_none :
    (l : Links) (a size : ℕ) (c : Cell)
    → size ≤ c.size
    → c.size < 2 ^ 64 - 64
    → c.size < size + 48
    → (l.block a).size ≡ c.size
    → split_block a size l ≡ l
unfolding split_block
split_none l a size c le small lt e = ground arith

-- Splitting the block behind `ys` leaves the header list of the same blocks, with that one cut in
-- two where the rest has room for a header and one unit, and as it was otherwise.
pub split_block-IsLayout :
    (l : Links) (start size : ℕ) (ys : List Cell) (c : Cell) (xs : List Cell)
    → 64 ≤ start
    → end_of start (ys ++ c ∷ xs) < 2 ^ 64
    → size ≤ c.size
    → IsLayout l start (ys ++ c ∷ xs)
    → IsLayout (split_block (end_of start ys) size l) start (ys ++ split_cells size c xs)
unfolding split_cells
split_block-IsLayout l start size ys c xs pos small le v =
    let a = end_of start ys in
    let s = tail-Seg ys (c ∷ xs) v in
    let far : a + 32 + c.size < 2 ^ 64 =
      omega (arith, end_of-append start ys (c ∷ xs), end_of-le (a + 32 + c.size) xs) in
    let low : 64 ≤ a = omega (arith, end_of-le start ys) in
    elim (Bool-cases (ltb c.size (size + 48))) [
      | inl lt ↦ rw (lt, split_none l a size c le (omega arith) (ltb→lt _ _ lt) s.0.size) v
      | inr ge ↦
          let (t, last, first, below) =
            split-Cut l _ a size c xs (omega arith) (ground arith) far s
              (tail-last ys (c ∷ xs) v) in
          rw ge (middle-IsLayout l _ start ys c _ xs _ v first last below t)
    ]
