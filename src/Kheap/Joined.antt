-- ===== src/Kheap/Joined.antt =====
-- Merging free neighbours changes the list of blocks, and neither its extent nor what is in use.
use whirliscope.Prelude.{
  ℕ, ◌+◌, ◌≡◌, refl, sym, ap, ◌∙◌, ◌⊎◌, inl, inr, Bool, true, false, List, [], ◌∷◌, ◌++◌, arith,
  Bool-cases, subst, if◌then◌else◌,
}
use whirliscope.Kheap.Blocks.Layout.{Cell, cell, end_of, last_of, end_of-append, last_of-append}
use whirliscope.Kheap.Blocks.Coalesce.{merge_cells, end_of-merge}
use whirliscope.Kheap.Blocks.Find.{NoneFits}
use whirliscope.Kheap.Cells.{
  used_bytes, used_bytes-append, used_bytes-merge, allocations, allocations-append,
  allocations-merge,
}

NoneFits-append :
    (n : ℕ) (xs ys : List Cell) → NoneFits n xs → NoneFits n ys → NoneFits n (xs ++ ys)
NoneFits-append n [] ys s t = t
NoneFits-append n (c ∷ xs) ys s t = (s.0, NoneFits-append n xs ys s.1 t)

pub NoneFits-split :
    (n : ℕ) (xs ys : List Cell) → NoneFits n (xs ++ ys) → NoneFits n xs × NoneFits n ys
NoneFits-split n [] ys s = (tt, s)
NoneFits-split n (c ∷ xs) ys s = let (l, r) = NoneFits-split n xs ys s.1 in ((s.0, l), r)

-- A merged block has room for all that its parts have room for.
NoneFits-merge :
    (n : ℕ) (c : Cell) (xs : List Cell)
    → c.free ≡ true
    → NoneFits n (merge_cells c xs)
    → NoneFits n (c ∷ xs)
unfolding merge_cells
NoneFits-merge n c [] e m = m
NoneFits-merge n c (d ∷ xs) e m = elim (Bool-cases d.free) [
  | inl idle ↦ let m' = simp idle at m in (ground arith, (ground arith, m'.1))
  | inr busy ↦
      subst (λ b. NoneFits n (if b then cell (c.size + 32 + d.size) c.free ∷ xs else c ∷ d ∷ xs))
        busy m
]

pub record IsJoined (a : ℕ) (xs xs' : List Cell) : Type 0 where
  pub ends : end_of a xs' ≡ end_of a xs
  pub used : used_bytes xs' ≡ used_bytes xs
  pub taken : allocations a xs' ≡ allocations a xs
  pub smaller : (n : ℕ) → NoneFits n xs' → NoneFits n xs

pub IsJoined-refl : (a : ℕ) (xs : List Cell) → IsJoined a xs xs
IsJoined-refl a xs = record { ends = refl; used = refl; taken = refl; smaller = λ n m. m }

pub IsJoined-trans :
    {a : ℕ} {xs ys zs : List Cell} → IsJoined a xs ys → IsJoined a ys zs → IsJoined a xs zs
IsJoined-trans i j = record {
  ends = j.ends ∙ i.ends;
  used = j.used ∙ i.used;
  taken = j.taken ∙ i.taken;
  smaller = λ n m. i.smaller n (j.smaller n m);
}

pub IsJoined-append :
    (a : ℕ) (ys : List Cell) {xs xs' : List Cell}
    → IsJoined (end_of a ys) xs xs'
    → IsJoined a (ys ++ xs) (ys ++ xs')
IsJoined-append a ys {xs} {xs'} j = record {
  ends = end_of-append a ys xs' ∙ j.ends ∙ sym (end_of-append a ys xs);
  used = omega (arith, used_bytes-append ys xs', used_bytes-append ys xs, j.used);
  taken =
      allocations-append a ys xs'
      ∙ ap (λ l. allocations a ys ++ l) j.taken
      ∙ sym (allocations-append a ys xs);
  smaller = λ n m.
      NoneFits-append n ys xs (NoneFits-split n ys xs' m).0
        (j.smaller n (NoneFits-split n ys xs' m).1);
}

pub IsJoined-merge :
    (a : ℕ) (c : Cell) (xs : List Cell) → c.free ≡ true → IsJoined a (c ∷ xs) (merge_cells c xs)
unfolding used_bytes
IsJoined-merge a c xs e = record {
  ends = end_of-merge a c xs;
  used = ground (arith, used_bytes-merge c xs e);
  taken = allocations-merge a c xs e ∙ ground arith;
  smaller = λ n. NoneFits-merge n c xs e;
}

-- A list is empty or has a last element.
pub snoc-cases :
    (xs : List Cell) → (xs ≡ []) ⊎ ((ys : List Cell) × (c : Cell) × (xs ≡ ys ++ c ∷ []))
snoc-cases [] = inl refl
snoc-cases (x ∷ xs) = elim (snoc-cases xs) [
  | inl e ↦ inr ([], x, ap (◌∷◌ x) e)
  | inr (ys, c, e) ↦ inr (x ∷ ys, c, ap (◌∷◌ x) e)
]

pub last_of-snoc : (p a : ℕ) (ys : List Cell) (c : Cell) → last_of p a (ys ++ c ∷ []) ≡ end_of a ys
last_of-snoc p a ys c = last_of-append p a ys (c ∷ [])

-- The merged block still starts where its first part did.
pub merge-cons :
    (c : Cell) (xs : List Cell)
    → (d : Cell) × (zs : List Cell) × (merge_cells c xs ≡ d ∷ zs) × (d.free ≡ c.free)
unfolding merge_cells
merge-cons c [] = (c, [], refl, refl)
merge-cons c (x ∷ xs) = go x.free refl
  where
    go :
        (f : Bool)
        → x.free ≡ f
        → (d : Cell) × (zs : List Cell) × (merge_cells c (x ∷ xs) ≡ d ∷ zs) × (d.free ≡ c.free)
    go true e = (cell (c.size + 32 + x.size) c.free, xs, ground arith, refl)
    go false e = (c, x ∷ xs, ground arith, refl)
