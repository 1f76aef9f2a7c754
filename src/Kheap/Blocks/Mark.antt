-- ===== src/Kheap/Blocks/Mark.antt =====
-- Setting the `free` flag of one header.
use whirliscope.Prelude.{ℕ, ◌≡◌, ◌≢◌, refl, Bool, List, ◌∷◌, ◌++◌, arith}
use whirliscope.Kheap.Blocks.{put, null, Links, Headers, HeapBlock}
use whirliscope.Kheap.Blocks.Layout.{
  Cell, cell, end_of, IsHeader-of, IsLayout, frame, middle-IsLayout, tail-Seg, tail-last,
}

abbrev pub mark : ℕ → Bool → Links → Links
mark a f l = record l { block = put l.block a (record (l.block a) { free = f }) }

put_self :
    (b : Headers) (a : ℕ) (f : Bool)
    → put b a (record (b a) { free = f }) a ≡ record (b a) { free = f }
put_self b a f = ground arith

put_other : (b : Headers) (a q : ℕ) (v : HeapBlock) → q ≢ a → put b a v q ≡ b q
put_other b a q v n = ground arith

pub mark-IsLayout :
    (l : Links) (start : ℕ) (f : Bool) (ys : List Cell) (c : Cell) (xs : List Cell)
    → IsLayout l start (ys ++ c ∷ xs)
    → IsLayout (mark (end_of start ys) f l) start (ys ++ cell c.size f ∷ xs)
mark-IsLayout l start f ys c xs v =
    let a = end_of start ys in
    let s = tail-Seg ys (c ∷ xs) v in
    middle-IsLayout l _ start ys c _ xs _ v refl (tail-last ys (c ∷ xs) v)
      (λ q lt. put_other l.block (end_of start ys) q _ (omega arith))
      (
        IsHeader-of _ _ _ _ _ _ (put_self l.block a f) s.0.magic refl s.0.size s.0.prev s.0.next,
        frame l.block _ _ _ null xs
            (λ q lo hi. put_other l.block (end_of start ys) q _ (omega arith)) s.1,
      )
