-- ===== src/Ext2/Bitmap/Bits.antt =====
-- Single bits of the bitmaps of fs/ext2.c.
use whirliscope.Prelude.{
  ℕ, ◌+◌, ◌/◌, ◌%◌, ◌<◌, ◌≡◌, refl, ap, ◌∙◌, Bool, true, false, ◌&&◌, ltb, ◌==◌, if◌then◌else◌,
  arith, Bool-cases, inl, inr,
}
use whirliscope.Prelude.Table.{holds_from, holds_from-at}
use whirliscope.Libc.Memory.{Memory}
use whirliscope.Ext2.Bitmap.{has_bit, with_bit, eq_bool, bitmap_get, bitmap_set}

bit_right : (value : Bool) (byte i j : ℕ) → Bool
bit_right value byte i j =
    eq_bool (has_bit (with_bit byte i value) j) (if j == i then value else has_bit byte j)
    && ltb (with_bit byte i value) 256

bit_table :
    (value : Bool)
    → holds_from 0 256 (λ byte. holds_from 0 8 (λ i. holds_from 0 8 (bit_right value byte i)))
      ≡ true
unfolding holds_from bit_right
bit_table true = refl
bit_table false = refl

pub eq_bool→eq : (a b : Bool) → eq_bool a b ≡ true → a ≡ b
eq_bool→eq true true e = refl
eq_bool→eq true false e = absurd (ground arith)
eq_bool→eq false true e = absurd (ground arith)
eq_bool→eq false false e = refl

both : (a b : Bool) → (a && b) ≡ true → (a ≡ true) × (b ≡ true)
both true b e = (refl, e)
both false b e = absurd (ground arith)

-- Setting one bit of a byte leaves the other bits alone.
pub has_bit-with_bit :
    (value : Bool) (byte i j : ℕ)
    → byte < 256
    → i < 8
    → j < 8
    → (has_bit (with_bit byte i value) j ≡ (if j == i then value else has_bit byte j))
      × (with_bit byte i value < 256)
unfolding bit_right
has_bit-with_bit value byte i j b8 i8 j8 =
    let t1 = holds_from-at 0 256 byte _ (bit_table value) (omega arith) (omega arith) in
    let t2 = holds_from-at 0 8 i _ t1 (omega arith) (omega arith) in
    let t3 = holds_from-at 0 8 j _ t2 (omega arith) (omega arith) in
    let (a, b) = both _ _ t3 in (eq_bool→eq _ _ a, ground arith)

same_byte :
    (value : Bool) (byte index j : ℕ) (m : ℕ)
    → index / 8 ≡ j / 8
    → byte ≡ with_bit (m % 256) (index % 8) value
    → has_bit (byte % 256) (j % 8) ≡ (if j == index then value else has_bit (m % 256) (j % 8))
same_byte value byte index j m same e =
    let (h, small) =
      has_bit-with_bit value (m % 256) (index % 8) (j % 8) (omega arith) (omega arith)
        (omega arith) in
    let kept : byte % 256 ≡ with_bit (m % 256) (index % 8) value = omega arith in
    let numbers : (j % 8 == index % 8) ≡ (j == index) = ground arith in
    ap (λ b. has_bit b (j % 8)) kept
    ∙ h
    ∙ ap (λ t. if t then value else has_bit (m % 256) (j % 8)) numbers

-- Setting a bit of a bitmap leaves its other bits alone.
pub bitmap_get-bitmap_set :
    (bitmap index j : ℕ) (value : Bool) (m : Memory)
    → bitmap_get bitmap j (bitmap_set bitmap index value m)
      ≡ (if j == index then value else bitmap_get bitmap j m)
unfolding bitmap_get bitmap_set
bitmap_get-bitmap_set bitmap index j value m = elim (Bool-cases (j / 8 == index / 8)) [
  | inl e ↦
      let q : index / 8 ≡ j / 8 = ground arith in
      let here : (bitmap + j / 8 == bitmap + index / 8) ≡ true = ground arith in
      rw here (
        same_byte value (with_bit (m (bitmap + index / 8) % 256) (index % 8) value) index j
          (m (bitmap + index / 8)) q refl
        ∙ ap (λ k. if j == index then value else has_bit (m (bitmap + k) % 256) (j % 8)) q)
  | inr e ↦
      let apart : (bitmap + j / 8 == bitmap + index / 8) ≡ false = ground arith in
      let other : (j == index) ≡ false = ground arith in rw (apart, other)
]
