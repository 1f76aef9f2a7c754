-- ===== src/Kheap/Blocks/Append.antt =====
-- append_block of memory/heap.c on the list of blocks.
use whirliscope.Prelude.{ℕ, ◌+◌, ◌≤◌, ◌<◌, ◌≡◌, ◌≢◌, refl, sym, ◌∙◌, List, [], ◌∷◌, ◌++◌, arith}
use whirliscope.Kheap.Blocks.{heap_magic, null, Headers, Links, append_block}
use whirliscope.Kheap.Blocks.Layout.{
  Cell, end_of, last_of, IsHeader-of, Seg, IsLayout, Seg-append, last_of-ge, last_of-lt,
  last_of-append,
}

-- A header at the end of the blocks becomes the last one.
module _ (l : Links) (start : ℕ) (pos : 0 < start) where
  append-empty :
      (c : Cell)
      → IsLayout l start []
      → (l.block start).magic ≡ heap_magic
      → (l.block start).free ≡ c.free
      → (l.block start).size ≡ c.size
      → IsLayout (append_block start l) start (c ∷ [])
  unfolding append_block
  append-empty c v m f s = ground arith

  module _ (p a : ℕ) (linked : l.last_block ≡ p) (nonnull : 0 < p) (below : p < a) where
    append_self : (append_block a l).block a ≡ record (l.block a) { prev = p; next = null }
    unfolding append_block
    append_self = ground arith

    append-last : (append_block a l).block p ≡ record (l.block p) { next = a }
    unfolding append_block
    append-last = ground arith

    append-other : (q : ℕ) → q ≢ a → q ≢ p → (append_block a l).block q ≡ l.block q
    unfolding append_block
    append-other q n1 n2 = ground arith

    append-ends :
        ((append_block a l).first_block ≡ l.first_block) × ((append_block a l).last_block ≡ a)
    unfolding append_block
    append-ends = (ground arith, ground arith)

-- Setting the `next` of the last header turns the end of a segment into a link.
relink :
    (b b' : Headers) (p a stop next : ℕ) (c : Cell) (xs : List Cell)
    → Seg b p a stop (c ∷ xs)
    → ((q : ℕ) → a ≤ q → q < last_of p a (c ∷ xs) → b' q ≡ b q)
    → b' (last_of p a (c ∷ xs)) ≡ record (b (last_of p a (c ∷ xs))) { next = next }
    → Seg b' p a next (c ∷ xs)
relink b b' p a stop next c [] s below at =
    (IsHeader-of _ _ _ _ _ _ at s.0.magic s.0.free s.0.size s.0.prev refl, tt)
relink b b' p a stop next c (d ∷ xs) s below at =
    let e = below a (omega arith) (omega (arith, last_of-ge a (a + 32 + c.size) d xs)) in
    (
      IsHeader-of _ _ _ _ _ _ e s.0.magic s.0.free s.0.size s.0.prev s.0.next,
      relink b b' a _ stop next d xs s.1 (λ q lo hi. below q (omega arith) hi) at,
    )

pub append_block-IsLayout :
    (l : Links) (start : ℕ) (xs : List Cell) (c : Cell)
    → 0 < start
    → IsLayout l start xs
    → (l.block (end_of start xs)).magic ≡ heap_magic
    → (l.block (end_of start xs)).free ≡ c.free
    → (l.block (end_of start xs)).size ≡ c.size
    → IsLayout (append_block (end_of start xs) l) start (xs ++ c ∷ [])
append_block-IsLayout l start [] c pos v m f s = append-empty l start pos c v m f s
append_block-IsLayout l start (d ∷ xs) c pos v m f s =
    let a = end_of start (d ∷ xs) in
    let p = last_of null start (d ∷ xs) in
    let nonnull : 0 < p = omega (arith, last_of-ge null start d xs) in
    let low : p < a = omega (arith, last_of-lt null start d xs) in
    let self = append_self l start pos p a v.last nonnull low in
    let before = append-last l start pos p a v.last nonnull low in
    let other = append-other l start pos p a v.last nonnull low in
    let ends = append-ends l start pos p a v.last nonnull low in
    record {
      first = ends.0 ∙ v.first;
      last = ends.1 ∙ sym (last_of-append null start (d ∷ xs) (c ∷ []));
      seg =
          Seg-append (append_block a l).block null start null (d ∷ xs) (c ∷ [])
            (relink l.block (append_block a l).block null start null a d xs v.seg
              (λ q lo hi. other q (omega arith) (omega arith)) before)
            (IsHeader-of _ _ _ _ _ _ self m f s refl refl, tt);
    }

-- The header at the end points back at the last one, whose state stays.
pub append_block-prev :
    (p : ℕ) (l : Links) → l.last_block < p → ((append_block p l).block p).prev ≡ l.last_block
unfolding append_block
append_block-prev p l low = ground arith

pub append_block-free :
    (p : ℕ) (l : Links)
    → l.last_block < p
    → ((append_block p l).block l.last_block).free ≡ (l.block l.last_block).free
unfolding append_block
append_block-free p l low = ground arith
