-- ===== src/Kheap/Alloc/Misuse.antt =====
-- What kfree of memory/heap.c does with the pointer to a block that is not in use.
use whirliscope.Prelude.{ℕ, ◌+◌, ◌≡◌, sym, ap, ◌∙◌, true, List, ◌∷◌, ◌++◌, arith}
use whirliscope.Kheap.Blocks.{kheap_base, panicked, payload_block}
use whirliscope.Kheap.Blocks.Layout.{Cell, end_of, tail-Seg}
use whirliscope.Kheap.Invariant.{IsHeap}
use whirliscope.Kheap.Expand.{Heap}
use whirliscope.Kheap.Alloc.{kfree}

kfree_idle :
    {P : Type 0} (h : Heap P) (p : ℕ) → (h.block p).free ≡ true → kfree (p + 32) h ≡ panicked
unfolding kfree
kfree_idle h p f = let e : payload_block (p + 32) ≡ p = omega arith in rw e (ground arith)

-- kfree of the payload of a free block, as in a double free, fails its assertion and does not
-- return.
pub kfree-panicked :
    {P : Type 0} (h : Heap P) (ys : List Cell) (c : Cell) (zs : List Cell)
    → IsHeap h (ys ++ c ∷ zs)
    → c.free ≡ true
    → kfree (end_of kheap_base ys + 32) h ≡ panicked
kfree-panicked h ys c zs v idle =
    let s = (tail-Seg ys (c ∷ zs) v.layout).0 in
    ap (λ b. kfree (end_of b ys + 32) h) (sym v.start)
    ∙ kfree_idle h (end_of h.heap_start ys) (s.free ∙ idle)
