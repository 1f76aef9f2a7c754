-- ===== src/Kheap/Blocks/Layout.antt =====
-- What the header list of memory/heap.c stands for: the sizes and states of adjacent blocks.
use whirliscope.Prelude.{
  ℕ, ◌+◌, ◌≤◌, ◌<◌, ◌≡◌, refl, sym, ap, ◌∙◌, Bool, List, [], ◌∷◌, ◌++◌, arith,
}
use whirliscope.Kheap.Blocks.{heap_magic, null, HeapBlock, Headers, Links, block_overhead}

pub record Cell : Type 0 where
  pub size : ℕ
  pub free : Bool

abbrev pub cell : ℕ → Bool → Cell
cell s f = record { size = s; free = f }

-- The address behind the blocks `xs` that start at `a`.
abbrev pub end_of : ℕ → List Cell → ℕ
end_of a [] = a
end_of a (c ∷ xs) = end_of (a + block_overhead + c.size) xs

-- The pointer to the first of them, and to the last.
abbrev pub link : ℕ → ℕ → List Cell → ℕ
link a stop [] = stop
link a stop (c ∷ xs) = a

abbrev pub last_of : ℕ → ℕ → List Cell → ℕ
last_of prev a [] = prev
last_of prev a (c ∷ xs) = last_of a (a + block_overhead + c.size) xs

pub record IsHeader (b : Headers) (a : ℕ) (c : Cell) (before after : ℕ) : Type 0 where
  pub magic : (b a).magic ≡ heap_magic
  pub free : (b a).free ≡ c.free
  pub size : (b a).size ≡ c.size
  pub prev : (b a).prev ≡ before
  pub next : (b a).next ≡ after

pub IsHeader-of :
    (b : Headers) (a : ℕ) (v : HeapBlock) (c : Cell) (before after : ℕ)
    → b a ≡ v
    → v.magic ≡ heap_magic
    → v.free ≡ c.free
    → v.size ≡ c.size
    → v.prev ≡ before
    → v.next ≡ after
    → IsHeader b a c before after
IsHeader-of b a v c before after e m f s p n = record {
  magic = ap HeapBlock.magic e ∙ m;
  free = ap HeapBlock.free e ∙ f;
  size = ap HeapBlock.size e ∙ s;
  prev = ap HeapBlock.prev e ∙ p;
  next = ap HeapBlock.next e ∙ n;
}

-- From `a` on stand the headers of `xs`, linked both ways between `prev` and `stop`.
abbrev pub Seg : Headers → ℕ → ℕ → ℕ → List Cell → Type 0
Seg b prev a stop [] = Unit {0}
Seg b prev a stop (c ∷ xs) =
    IsHeader b a c prev (link (a + block_overhead + c.size) stop xs)
    × Seg b a (a + block_overhead + c.size) stop xs

pub record IsLayout (l : Links) (start : ℕ) (xs : List Cell) : Type 0 where
  pub first : l.first_block ≡ link start null xs
  pub last : l.last_block ≡ last_of null start xs
  pub seg : Seg l.block null start null xs

pub end_of-le : (a : ℕ) (xs : List Cell) → a ≤ end_of a xs
end_of-le a [] = omega arith
end_of-le a (c ∷ xs) = omega (arith, end_of-le (a + block_overhead + c.size) xs)

pub last_of-ge : (p a : ℕ) (c : Cell) (xs : List Cell) → a ≤ last_of p a (c ∷ xs)
last_of-ge p a c [] = omega arith
last_of-ge p a c (d ∷ xs) = omega (arith, last_of-ge a (a + block_overhead + c.size) d xs)

pub last_of-lt : (p a : ℕ) (c : Cell) (xs : List Cell) → last_of p a (c ∷ xs) < end_of a (c ∷ xs)
last_of-lt p a c [] = omega arith
last_of-lt p a c (d ∷ xs) = last_of-lt a (a + block_overhead + c.size) d xs

pub end_of-append : (a : ℕ) (xs ys : List Cell) → end_of a (xs ++ ys) ≡ end_of (end_of a xs) ys
end_of-append a [] ys = refl
end_of-append a (c ∷ xs) ys = end_of-append (a + block_overhead + c.size) xs ys

pub last_of-append :
    (p a : ℕ) (xs ys : List Cell)
    → last_of p a (xs ++ ys) ≡ last_of (last_of p a xs) (end_of a xs) ys
last_of-append p a [] ys = refl
last_of-append p a (c ∷ xs) ys = last_of-append a (a + block_overhead + c.size) xs ys

-- A segment depends on its own headers only.
pub frame :
    (b b' : Headers) (p a stop : ℕ) (xs : List Cell)
    → ((q : ℕ) → a ≤ q → q < end_of a xs → b' q ≡ b q)
    → Seg b p a stop xs
    → Seg b' p a stop xs
frame b b' p a stop [] same s = tt
frame b b' p a stop (c ∷ xs) same s =
    let e = same a (omega arith) (omega (arith, end_of-le (a + block_overhead + c.size) xs)) in
    (ground (arith, e), frame b b' a _ stop xs (λ q lo hi. same q (omega arith) hi) s.1)

pub Seg-append :
    (b : Headers) (p a stop : ℕ) (xs ys : List Cell)
    → Seg b p a (link (end_of a xs) stop ys) xs
    → Seg b (last_of p a xs) (end_of a xs) stop ys
    → Seg b p a stop (xs ++ ys)
Seg-append b p a stop [] ys s t = t
Seg-append b p a stop (c ∷ []) ys s t = (s.0, t)
Seg-append b p a stop (c ∷ d ∷ xs) ys s t = (s.0, Seg-append b a _ stop (d ∷ xs) ys s.1 t)

pub Seg-split :
    (b : Headers) (p a stop : ℕ) (xs ys : List Cell)
    → Seg b p a stop (xs ++ ys)
    → Seg b p a (link (end_of a xs) stop ys) xs × Seg b (last_of p a xs) (end_of a xs) stop ys
Seg-split b p a stop [] ys s = (tt, s)
Seg-split b p a stop (c ∷ []) ys s = ((s.0, tt), s.1)
Seg-split b p a stop (c ∷ d ∷ xs) ys s =
    let (l, r) = Seg-split b a (a + block_overhead + c.size) stop (d ∷ xs) ys s.1 in ((s.0, l), r)

link-append :
    (a stop : ℕ) (ys : List Cell) (c d : Cell) (xs zs : List Cell)
    → link a stop (ys ++ c ∷ xs) ≡ link a stop (ys ++ d ∷ zs)
link-append a stop [] c d xs zs = refl
link-append a stop (y ∷ ys) c d xs zs = refl

module _ (l l' : Links) (start : ℕ) (ys : List Cell) (c d : Cell) (xs zs : List Cell) where
  -- An operation that changes headers from the block behind `ys` on, and no other.
  pub middle-IsLayout :
      IsLayout l start (ys ++ c ∷ xs)
      → l'.first_block ≡ l.first_block
      → l'.last_block ≡ last_of (last_of null start ys) (end_of start ys) (d ∷ zs)
      → ((q : ℕ) → q < end_of start ys → l'.block q ≡ l.block q)
      → Seg l'.block (last_of null start ys) (end_of start ys) null (d ∷ zs)
      → IsLayout l' start (ys ++ d ∷ zs)
  middle-IsLayout v first last below s = record {
    first = first ∙ v.first ∙ link-append start null ys c d xs zs;
    last = last ∙ sym (last_of-append null start ys (d ∷ zs));
    seg =
        Seg-append l'.block null start null ys (d ∷ zs)
          (frame l.block l'.block null start _ ys (λ q lo hi. below q hi)
            (Seg-split l.block null start null ys (c ∷ xs) v.seg).0)
          s;
  }

-- The header of the block behind `ys`, and those of the blocks after it.
pub tail-Seg :
    {l : Links} {start : ℕ} (ys xs : List Cell)
    → IsLayout l start (ys ++ xs)
    → Seg l.block (last_of null start ys) (end_of start ys) null xs
tail-Seg {l} {start} ys xs v = (Seg-split l.block null start null ys xs v.seg).1

pub tail-last :
    {l : Links} {start : ℕ} (ys xs : List Cell)
    → IsLayout l start (ys ++ xs)
    → l.last_block ≡ last_of (last_of null start ys) (end_of start ys) xs
tail-last {l} {start} ys xs v = v.last ∙ last_of-append null start ys xs
