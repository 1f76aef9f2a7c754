-- ===== src/Kheap/Blocks/Coalesce.antt =====
-- coalesce_with_next of memory/heap.c on the list of blocks.
use whirliscope.Prelude.{
  ℕ, ◌+◌, ◌^◌, ◌<◌, ◌≡◌, ◌≢◌, refl, ◌∙◌, true, false, List, [], ◌∷◌, ◌++◌, arith, ap, ◌⊎◌,
  Bool-cases, inl, inr, if◌then◌else◌,
}
use whirliscope.Kheap.Blocks.{null, Links, coalesce_with_next}
use whirliscope.Kheap.Blocks.Layout.{
  Cell, cell, end_of, last_of, IsHeader-of, Seg, IsLayout, frame, end_of-le, end_of-append,
  middle-IsLayout, tail-Seg, tail-last,
}

-- The block `c` takes in a free block behind it, header and all.
unfoldable pub merge_cells : Cell → List Cell → List Cell
merge_cells c [] = c ∷ []
merge_cells c (d ∷ xs) = if d.free then cell (c.size + 32 + d.size) c.free ∷ xs else c ∷ d ∷ xs

-- The headers after the block at `a` took in the one at `next`, with one more at `after`.
module _ (l : Links) (a next after : ℕ) (linked : (l.block a).next ≡ next)
    (linked' : (l.block next).next ≡ after) (below : a < next) (above : next < after)
    (idle : (l.block next).free ≡ true)
    (small : (l.block a).size + 32 + (l.block next).size < 2 ^ 64) where
  coalesce_self :
      (coalesce_with_next a l).block a
      ≡ record (l.block a) { size = (l.block a).size + 32 + (l.block next).size; next = after }
  unfolding coalesce_with_next
  coalesce_self = ground arith

  coalesce-after : (coalesce_with_next a l).block after ≡ record (l.block after) { prev = a }
  unfolding coalesce_with_next
  coalesce-after = ground arith

  coalesce-other : (q : ℕ) → q ≢ a → q ≢ after → (coalesce_with_next a l).block q ≡ l.block q
  unfolding coalesce_with_next
  coalesce-other q n1 n2 = ground arith

  coalesce-ends :
      ((coalesce_with_next a l).first_block ≡ l.first_block)
      × ((coalesce_with_next a l).last_block ≡ l.last_block)
  unfolding coalesce_with_next
  coalesce-ends = (ground arith, ground arith)

-- `l'` is `l` with the block `d` behind the block `c` at `a` merged into it.
abbrev Merged : Links → Links → (p a : ℕ) → (c d : Cell) → List Cell → Type 0
Merged l l' p a c d xs =
    Seg l'.block p a null (cell (c.size + 32 + d.size) c.free ∷ xs)
    × (l'.last_block ≡ last_of p a (cell (c.size + 32 + d.size) c.free ∷ xs))
    × (l'.first_block ≡ l.first_block)
    × ((q : ℕ) → q < a → l'.block q ≡ l.block q)

module _ (l : Links) (p a : ℕ) (c d : Cell) (idle : d.free ≡ true)
    (small : a + 32 + c.size + 32 + d.size < 2 ^ 64) where
  coalesce-Merged_end :
      Seg l.block p a null (c ∷ d ∷ []) → Merged l (coalesce_with_next a l) p a c d []
  unfolding coalesce_with_next
  coalesce-Merged_end s = ((ground arith, tt), ground arith, ground arith, ground arith)

  merged_address : a + 32 + (c.size + 32 + d.size) ≡ a + 32 + c.size + 32 + d.size
  merged_address = omega arith

  coalesce-Merged_inner :
      (e : Cell) (xs : List Cell)
      → Seg l.block p a null (c ∷ d ∷ e ∷ xs)
      → l.last_block ≡ last_of p a (c ∷ d ∷ e ∷ xs)
      → Merged l (coalesce_with_next a l) p a c d (e ∷ xs)
  coalesce-Merged_inner e xs s last =
      let next = a + 32 + c.size in
      let after = next + 32 + d.size in
      let n : (l.block a).next ≡ next = s.0.next in
      let n' : (l.block next).next ≡ after = s.1.0.next in
      let b : a < next = omega arith in
      let b' : next < after = omega arith in
      let i : (l.block next).free ≡ true = s.1.0.free ∙ idle in
      let m : (l.block a).size + 32 + (l.block next).size < 2 ^ 64 = omega arith in
      let self = coalesce_self l a next after n n' b b' i m in
      let behind = coalesce-after l a next after n n' b b' i m in
      let other = coalesce-other l a next after n n' b b' i m in
      let ends = coalesce-ends l a next after n n' b b' i m in
      rw merged_address (
        (
          IsHeader-of _ _ _ _ _ _ self s.0.magic s.0.free (omega arith) s.0.prev refl,
          (
            IsHeader-of _ _ _ _ _ _ behind s.1.1.0.magic s.1.1.0.free s.1.1.0.size refl
                s.1.1.0.next,
            frame l.block (coalesce_with_next a l).block _ _ null xs
                (λ q lo hi. other q (omega arith) (omega arith)) s.1.1.1,
          ),
        ),
        ends.1 ∙ last,
        ends.0,
        λ q lt. other q (omega arith) (omega arith),
      )

coalesce-Merged :
    (l : Links) (p a : ℕ) (c d : Cell) (xs : List Cell)
    → d.free ≡ true
    → a + 32 + c.size + 32 + d.size < 2 ^ 64
    → Seg l.block p a null (c ∷ d ∷ xs)
    → l.last_block ≡ last_of p a (c ∷ d ∷ xs)
    → Merged l (coalesce_with_next a l) p a c d xs
coalesce-Merged l p a c d [] idle small s last = coalesce-Merged_end l p a c d idle small s
coalesce-Merged l p a c d (e ∷ xs) idle small s last =
    coalesce-Merged_inner l p a c d idle small e xs s last

coalesce_none :
    (l : Links) (a : ℕ)
    → ((l.block a).next ≡ null) ⊎ ((l.block (l.block a).next).free ≡ false)
    → coalesce_with_next a l ≡ l
unfolding coalesce_with_next
coalesce_none l a h = ground arith

-- Coalescing the block behind `ys` leaves the header list of the same blocks, with the next one
-- merged into it if that is free, and as it was otherwise.
pub coalesce-IsLayout :
    (l : Links) (start : ℕ) (ys : List Cell) (c : Cell) (xs : List Cell)
    → end_of start (ys ++ c ∷ xs) < 2 ^ 64
    → IsLayout l start (ys ++ c ∷ xs)
    → IsLayout (coalesce_with_next (end_of start ys) l) start (ys ++ merge_cells c xs)
unfolding merge_cells
coalesce-IsLayout l start ys c [] small v =
    let s = tail-Seg ys (c ∷ []) v in rw (coalesce_none l (end_of start ys) (inl s.0.next)) v
coalesce-IsLayout l start ys c (d ∷ xs) small v =
    let a = end_of start ys in
    let s = tail-Seg ys (c ∷ d ∷ xs) v in
    elim (Bool-cases d.free) [
      | inl idle ↦
          let far : a + 32 + c.size + 32 + d.size < 2 ^ 64 = omega (
            arith,
            end_of-append start ys (c ∷ d ∷ xs),
            end_of-le (a + 32 + c.size + 32 + d.size) xs,
          ) in
          let (t, last, first, below) =
            coalesce-Merged l _ a c d xs idle far s (tail-last ys (c ∷ d ∷ xs) v) in
          rw idle (middle-IsLayout l _ start ys c _ (d ∷ xs) _ v first last below t)
      | inr busy ↦
          let e = ap (λ q. (l.block q).free) s.0.next ∙ s.1.0.free ∙ busy in
          simp busy (rw (coalesce_none l a (inr e)) v)
    ]

pub end_of-merge :
    (a : ℕ) (c : Cell) (xs : List Cell) → end_of a (merge_cells c xs) ≡ end_of a (c ∷ xs)
unfolding merge_cells
end_of-merge a c [] = refl
end_of-merge a c (d ∷ xs) = elim (Bool-cases d.free) [
  | inl idle ↦ simp idle (ap (λ b. end_of b xs) (omega arith))
  | inr busy ↦ simp busy
]
