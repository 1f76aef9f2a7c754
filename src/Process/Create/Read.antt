-- ===== src/Process/Create/Read.antt =====
-- The file that process_create_filesystem_process of userspace/process.c reads.
use whirliscope.Prelude.{
  ℕ, ◌<◌, ◌≡◌, refl, ap, subst, ◌∙◌, Bool, true, false, not, ◌||◌, Option, none, some, List, ◌==◌,
  if◌then◌else◌, arith, Bool-cases, inl, inr,
}
use mathlib.Core.Option.{some-injective}
use whirliscope.Prelude.Int.{ℤ, pos, negsuc}
use whirliscope.Process.Pages.{SpaceOps, Machine}
use whirliscope.Process.Create.{FileOps, read_image, equals}

pub none-some : {A : Type 0} {n : A} → none ≡ some n → ⊥
none-some h = ground arith

module _ {P : Type 0} (files : FileOps P) where
  -- The whole file at a path has been read to the address `image` of the memory in `r`: it is a
  -- file with some bytes, `image` is what kmalloc gave for as many, and as many were read.
  pub record IsRead (path : List ℕ) (image size : ℕ) (w r : Machine P) : Type 0 where
    pub found : (files.ext2_stat path w).0 ≡ pos 0
    pub is_file : (files.ext2_stat path w).1.type ≡ 1
    pub file_size : (files.ext2_stat path w).1.size ≡ size
    pub some_bytes : 0 < size
    pub buffer : (files.kmalloc size (files.ext2_stat path w).2).0 ≡ image
    pub some_buffer : 0 < image
    pub all_read :
        files.ext2_read_file path image size 0 (files.kmalloc size (files.ext2_stat path w).2).1
        ≡ (pos size, r)

-- The branch of read_image that gives a buffer.
read_branch :
    {A : Type 0} (c1 c2 c3 : Bool) (given buffer : ℕ × ℕ) (v u x t r : A)
    → ◌≡◌ {A = Option (ℕ × ℕ) × A}
        (if c1
          then (none, v)
          else if c2
          then (none, u)
          else if c3
          then (none, x)
          else (some given, t))
        (some buffer, r)
    → (c1 ≡ false) × (c2 ≡ false) × (c3 ≡ false) × (given ≡ buffer) × (t ≡ r)
read_branch {A} true c2 c3 given buffer v u x t r e =
    absurd (none-some (ap {A = Option (ℕ × ℕ) × A} (λ p. p.0) e))
read_branch {A} false true c3 given buffer v u x t r e =
    absurd (none-some (ap {A = Option (ℕ × ℕ) × A} (λ p. p.0) e))
read_branch {A} false false true given buffer v u x t r e =
    absurd (none-some (ap {A = Option (ℕ × ℕ) × A} (λ p. p.0) e))
read_branch {A} false false false given buffer v u x t r e = (
  refl,
  refl,
  refl,
  some-injective _ _ (ap {A = Option (ℕ × ℕ) × A} (λ p. p.0) e),
  ap {A = Option (ℕ × ℕ) × A} (λ p. p.1) e,
)

equals-pos : (code : ℤ) (n : ℕ) → not (equals code n) ≡ false → code ≡ pos n
equals-pos (pos k) n e = let same : k ≡ n = ground arith in ap pos same
equals-pos (negsuc k) n e = absurd (ground arith)

stat_tested :
    (code : ℤ) (type size : ℕ)
    → (not (equals code 0) || not (type == 1) || size == 0) ≡ false
    → (code ≡ pos 0) × (type ≡ 1) × (0 < size)
stat_tested code type size e = elim (Bool-cases (not (equals code 0))) [
  | inl f ↦ absurd (ground arith)
  | inr f ↦ (equals-pos code 0 f, ground arith, ground arith)
]

module _ {P : Type 0} (ops : SpaceOps P) (files : FileOps P) where
  pub read_image-IsRead :
      (path : List ℕ) (image size : ℕ) (w r : Machine P)
      → read_image ops files (some path) w ≡ (some (image, size), r)
      → IsRead files path image size w r
  unfolding read_image
  read_image-IsRead path image size w r e =
      let (code, file, v) = files.ext2_stat path w in
      let (at, u) = files.kmalloc file.size v in
      let (read, t) = files.ext2_read_file path at file.size 0 u in
      let (c1, c2, c3, same, end) =
        read_branch (not (equals code 0) || not (file.type == 1) || file.size == 0) (at == 0)
          (not (equals read file.size)) (at, file.size) (image, size) v u (files.kfree at t) t r
          e in
      let (good, kind, some_size) = stat_tested code file.type file.size c1 in
      let full = equals-pos read file.size c3 in
      subst (λ b. IsRead files path b.0 b.1 w r) same
        (record {
          found = good;
          is_file = kind;
          file_size = refl;
          some_bytes = some_size;
          buffer = refl;
          some_buffer = ground arith;
          all_read = ap (λ n. (n, t)) full ∙ ap (λ m. (pos file.size, m)) end;
        })
