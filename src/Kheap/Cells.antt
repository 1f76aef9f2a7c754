-- ===== src/Kheap/Cells.antt =====
-- The heap of memory/heap.c as a list of blocks: what is in use, and which lists are well formed.
use whirliscope.Prelude.{
  ℕ, ◌+◌, ◌%◌, ◌≤◌, ◌≡◌, refl, ap, ap₂, sym, Bool, true, false, ◌&&◌, List, [], ◌∷◌, ◌++◌, arith,
  Bool-cases, inl, inr, if◌then◌else◌,
}
use whirliscope.Kheap.Blocks.Layout.{Cell, end_of}
use whirliscope.Kheap.Blocks.Coalesce.{merge_cells}

unfoldable pub used_bytes : List Cell → ℕ
used_bytes [] = 0
used_bytes (c ∷ xs) = (if c.free then 0 else c.size) + used_bytes xs

unfoldable pub free_bytes : List Cell → ℕ
free_bytes [] = 0
free_bytes (c ∷ xs) = (if c.free then c.size else 0) + free_bytes xs

-- The blocks in use, as pairs of the payload's address and size.
abbrev pub allocations : ℕ → List Cell → List (ℕ × ℕ)
allocations a [] = []
allocations a (c ∷ xs) =
    let rest = allocations (a + 32 + c.size) xs in if c.free then rest else (a + 32, c.size) ∷ rest

-- Sizes are whole units, and no two neighbours are free; `f` says whether the block before is free.
abbrev pub Sound : Bool → List Cell → Type 0
Sound f [] = Unit {0}
Sound f (c ∷ xs) = (c.size % 16 ≡ 0) × ((f && c.free) ≡ false) × Sound c.free xs

abbrev pub last_free : Bool → List Cell → Bool
last_free f [] = f
last_free f (c ∷ xs) = last_free c.free xs

pub Sound-split :
    (f : Bool) (ys zs : List Cell) → Sound f (ys ++ zs) → Sound f ys × Sound (last_free f ys) zs
Sound-split f [] zs s = (tt, s)
Sound-split f (y ∷ ys) zs s = let (l, r) = Sound-split y.free ys zs s.2 in ((s.0, s.1, l), r)

pub Sound-append :
    (f : Bool) (ys zs : List Cell) → Sound f ys → Sound (last_free f ys) zs → Sound f (ys ++ zs)
Sound-append f [] zs s t = t
Sound-append f (y ∷ ys) zs s t = (s.0, s.1, Sound-append y.free ys zs s.2 t)

-- Behind a used block more lists are well formed than behind a free one.
pub Sound-weaken : (f : Bool) (xs : List Cell) → Sound f xs → Sound false xs
Sound-weaken f [] s = tt
Sound-weaken f (c ∷ xs) s = (s.0, refl, s.2)

pub used_bytes-append : (xs ys : List Cell) → used_bytes (xs ++ ys) ≡ used_bytes xs + used_bytes ys
unfolding used_bytes
used_bytes-append [] ys = omega arith
used_bytes-append (c ∷ xs) ys = omega (arith, used_bytes-append xs ys)

pub used_bytes-le : (a : ℕ) (xs : List Cell) → a + used_bytes xs ≤ end_of a xs
unfolding used_bytes
used_bytes-le a [] = omega arith
used_bytes-le a (c ∷ xs) = ground (arith, used_bytes-le (a + 32 + c.size) xs)

pub allocations-append :
    (a : ℕ) (xs ys : List Cell)
    → allocations a (xs ++ ys) ≡ allocations a xs ++ allocations (end_of a xs) ys
allocations-append a [] ys = refl
allocations-append a (c ∷ xs) ys = ground (arith, allocations-append (a + 32 + c.size) xs ys)

-- Merging a free block with the next leaves what is in use.
pub used_bytes-merge :
    (c : Cell) (xs : List Cell) → c.free ≡ true → used_bytes (merge_cells c xs) ≡ used_bytes xs
unfolding merge_cells used_bytes
used_bytes-merge c [] e = ground arith
used_bytes-merge c (d ∷ xs) e = ground arith

pub allocations-merge :
    (a : ℕ) (c : Cell) (xs : List Cell)
    → c.free ≡ true
    → allocations a (merge_cells c xs) ≡ allocations (a + 32 + c.size) xs
unfolding merge_cells
allocations-merge a c [] e = ground arith
allocations-merge a c (d ∷ xs) e =
    let e' : a + 32 + (c.size + 32 + d.size) ≡ a + 32 + c.size + 32 + d.size = omega arith in
    elim (Bool-cases d.free) [
      | inl idle ↦ simp (idle, e) (ap (λ b. allocations b xs) e')
      | inr busy ↦ simp (busy, e)
    ]

-- The merged block is free, and so may not follow or precede another free one.
pub Sound-merge :
    (c : Cell) (xs : List Cell)
    → c.free ≡ true
    → c.size % 16 ≡ 0
    → Sound false xs
    → Sound false (merge_cells c xs)
unfolding merge_cells
Sound-merge c [] e u s = (u, refl, tt)
Sound-merge c (d ∷ []) e u s = ground arith
Sound-merge c (d ∷ x ∷ xs) e u s = ground arith

-- Where a block in use stands in the list.
pub record Locates (a : ℕ) (xs : List Cell) (before after : List (ℕ × ℕ)) (ptr n : ℕ) : Type 0 where
  pub ys : List Cell
  pub c : Cell
  pub zs : List Cell
  pub whole : xs ≡ ys ++ c ∷ zs
  pub busy : c.free ≡ false
  pub at : ptr ≡ end_of a ys + 32
  pub size : n ≡ c.size
  pub front : allocations a ys ≡ before
  pub back : allocations (end_of a ys + 32 + c.size) zs ≡ after

Locates-cons :
    {a : ℕ} {d : Cell} {xs : List Cell} {before after : List (ℕ × ℕ)} {ptr n : ℕ}
    → d.free ≡ true
    → Locates (a + 32 + d.size) xs before after ptr n
    → Locates a (d ∷ xs) before after ptr n
Locates-cons {d} e l = record {
  ys = d ∷ l.ys;
  c = l.c;
  zs = l.zs;
  whole = ap (◌∷◌ d) l.whole;
  busy = l.busy;
  at = l.at;
  size = l.size;
  front = simp e l.front;
  back = l.back;
}

Locates-used :
    {a : ℕ} {d : Cell} {xs : List Cell} {before after : List (ℕ × ℕ)} {ptr n : ℕ} (q : ℕ × ℕ)
    → d.free ≡ false
    → q ≡ (a + 32, d.size)
    → Locates (a + 32 + d.size) xs before after ptr n
    → Locates a (d ∷ xs) (q ∷ before) after ptr n
Locates-used {d} q e e' l = record {
  ys = d ∷ l.ys;
  c = l.c;
  zs = l.zs;
  whole = ap (◌∷◌ d) l.whole;
  busy = l.busy;
  at = l.at;
  size = l.size;
  front = simp e (ap₂ ◌∷◌ (sym e') l.front);
  back = l.back;
}

Locates-here :
    {a : ℕ} {d : Cell} {xs : List Cell} {after : List (ℕ × ℕ)} {ptr n : ℕ}
    → d.free ≡ false
    → (a + 32, d.size) ∷ allocations (a + 32 + d.size) xs ≡ (ptr, n) ∷ after
    → Locates a (d ∷ xs) [] after ptr n
Locates-here {d} {xs} used e = record {
  ys = [];
  c = d;
  zs = xs;
  whole = refl;
  busy = used;
  at = ground arith;
  size = ground arith;
  front = refl;
  back = cc;
}

pub locate :
    (a : ℕ) (xs : List Cell) (before after : List (ℕ × ℕ)) (ptr n : ℕ)
    → allocations a xs ≡ before ++ (ptr, n) ∷ after
    → Locates a xs before after ptr n
locate a [] [] after ptr n e = cc
locate a [] (q ∷ before) after ptr n e = cc
locate a (d ∷ xs) [] after ptr n e = elim (Bool-cases d.free) [
  | inl idle ↦ Locates-cons idle (locate (a + 32 + d.size) xs [] after ptr n (simp idle at e))
  | inr used ↦ Locates-here used (simp used at e)
]
locate a (d ∷ xs) (q ∷ before) after ptr n e = elim (Bool-cases d.free) [
  | inl idle ↦
      Locates-cons idle (locate (a + 32 + d.size) xs (q ∷ before) after ptr n (simp idle at e))
  | inr used ↦
      let e' : (a + 32, d.size) ∷ allocations (a + 32 + d.size) xs
          ≡ q ∷ before ++ (ptr, n) ∷ after =
        simp used at e in
      Locates-used q used (cc) (locate (a + 32 + d.size) xs before after ptr n (cc))
]
