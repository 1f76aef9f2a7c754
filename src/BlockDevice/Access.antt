-- ===== src/BlockDevice/Access.antt =====
-- block_read and block_write of drivers/block.c in front of a device's driver.
use whirliscope.Prelude.{
  ℕ, ◌+◌, ◌-◌, ◌≤◌, ◌<◌, ◌≡◌, refl, ◌⊎◌, inl, inr, true, false, ◌||◌, some, ltb, ◌==◌,
  if◌then◌else◌, arith, Bool-cases,
}
use whirliscope.BlockDevice.{Device, Driver, out_of_range, block_read, block_write}

-- The range of sectors is not empty and lies on the device.
abbrev pub InRange : {W : Type 0} → ℕ → ℕ → Device W → Type 0
InRange lba count d = (0 < count) × (lba + count ≤ d.sector_count)

out_of_range-false :
    (lba count n : ℕ)
    → (count == 0 || ltb n lba || ltb (n - lba) count) ≡ false
    → (0 < count) × (lba + count ≤ n)
out_of_range-false lba count n h = ground arith

out_of_range-true :
    (lba count n : ℕ)
    → (count == 0 || ltb n lba || ltb (n - lba) count) ≡ true
    → ¬ ((0 < count) × (lba + count ≤ n))
out_of_range-true lba count n h (a, b) = ground arith

module _ {W : Type 0} where
  -- A result behind the test of the range is the driver's just where the range fits.
  behind :
      {R : Type 0} (lba count : ℕ) (d : Device W) (x y : R)
      → (InRange lba count d × ((if out_of_range lba count d then y else x) ≡ x))
        ⊎ ((¬ (InRange lba count d)) × ((if out_of_range lba count d then y else x) ≡ y))
  unfolding out_of_range
  behind lba count d x y =
      elim (Bool-cases (count == 0 || ltb d.sector_count lba || ltb (d.sector_count - lba) count)) [
        | inl refused ↦ inr (out_of_range-true lba count d.sector_count refused, rw refused refl)
        | inr passed ↦ inl (out_of_range-false lba count d.sector_count passed, rw passed refl)
      ]

  -- block_read runs the device's read function where the range is not empty and lies on the device,
  -- and passes its result on; for every other range it returns false and the driver does not run.
  pub block_read-guarded :
      (d : Device W) (read : Driver W) (lba buffer count : ℕ) (w : W)
      → d.read ≡ some read
      → let r = block_read (some d) lba (some buffer) count w in
        (InRange lba count d × (r ≡ read lba buffer count w))
        ⊎ ((¬ (InRange lba count d)) × (r ≡ (false, w)))
  unfolding block_read
  block_read-guarded d read lba buffer count w e =
      rw e (behind lba count d (read lba buffer count w) (false, w))

  -- block_write runs the device's write function where the device is writable and the range is not
  -- empty and lies on the device; otherwise it returns false and the driver does not run.
  pub block_write-guarded :
      (d : Device W) (write : Driver W) (lba buffer count : ℕ) (w : W)
      → d.write ≡ some write
      → let r = block_write (some d) lba (some buffer) count w in
        ((d.writable ≡ true) × InRange lba count d × (r ≡ write lba buffer count w))
        ⊎ ((¬ ((d.writable ≡ true) × InRange lba count d)) × (r ≡ (false, w)))
  unfolding block_write
  block_write-guarded d write lba buffer count w e = elim (Bool-cases d.writable) [
    | inl can ↦
        rw (e, can)
          (elim (behind lba count d (write lba buffer count w) (false, w)) [
            | inl ok ↦ inl (refl, ok.0, ok.1)
            | inr bad ↦ inr (λ (h, r). bad.0 r, bad.1)
          ])
    | inr cannot ↦ rw (e, cannot) (inr (λ (h, r). ground arith, refl))
  ]
