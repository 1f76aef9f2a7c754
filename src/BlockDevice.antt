-- ===== src/BlockDevice.antt =====
-- drivers/block.c: the registry of block devices, and the range checks in front of a driver. A
-- device's driver functions are parameters; NULL is `none`.
pub mod Registry
pub mod Access
mod Examples
use whirliscope.Prelude.{
  ℕ, ◌+◌, ◌-◌, Bool, true, false, not, ◌&&◌, ◌||◌, Option, none, some, List, [], ◌∷◌, ◌++◌,
  get_elem?, length, ltb, leb, ◌==◌, if◌then◌else◌,
}

-- A driver function over the world `W` takes the first sector, the buffer and the sector count.
abbrev pub Driver : Type 0 → Type 0
Driver W = ℕ → ℕ → ℕ → W → Bool × W

pub record Device (W : Type 0) : Type 0 where
  pub sector_size : ℕ
  pub sector_count : ℕ
  pub writable : Bool
  pub read : Option (Driver W)
  pub write : Option (Driver W)

abbrev pub block_max_devices : ℕ
block_max_devices = 8

abbrev pub present {ℓ} : {A : Type ℓ} → Option A → Bool
present none = false
present (some a) = true

module _ {W : Type 0} where
  -- The registered devices are the first `device_count` entries of the array, in order.
  pub block_init : List (Device W)
  block_init = []

  acceptable : Device W → Bool
  acceptable d = not (d.sector_size == 0) && not (d.sector_count == 0) && present d.read

  pub block_register : Option (Device W) → List (Device W) → Bool × List (Device W)
  unfolding acceptable
  block_register none ds = (false, ds)
  block_register (some d) ds =
      if not (acceptable d) || leb block_max_devices (length ds)
      then (false, ds)
      else (true, ds ++ d ∷ [])

  pub block_device_count : List (Device W) → ℕ
  block_device_count ds = length ds

  pub block_device_at : ℕ → List (Device W) → Option (Device W)
  block_device_at index ds = if ltb index (length ds) then get_elem? ds index else none

  pub block_first_writable : List (Device W) → Option (Device W)
  block_first_writable [] = none
  block_first_writable (d ∷ ds) = if d.writable then some d else block_first_writable ds

  -- The tests of a range of sectors; `lba <= sector_count` comes before the subtraction.
  pub out_of_range : ℕ → ℕ → Device W → Bool
  out_of_range lba count d =
      count == 0 || ltb d.sector_count lba || ltb (d.sector_count - lba) count

  pub block_read : Option (Device W) → ℕ → Option ℕ → ℕ → W → Bool × W
  unfolding out_of_range
  block_read none lba buffer count w = (false, w)
  block_read (some d) lba none count w = (false, w)
  block_read (some d) lba (some buffer) count w = elim d.read [
    | none ↦ (false, w)
    | some read ↦ if out_of_range lba count d then (false, w) else read lba buffer count w
  ]

  pub block_write : Option (Device W) → ℕ → Option ℕ → ℕ → W → Bool × W
  unfolding out_of_range
  block_write none lba buffer count w = (false, w)
  block_write (some d) lba none count w = (false, w)
  block_write (some d) lba (some buffer) count w = elim d.write [
    | none ↦ (false, w)
    | some write ↦
        if not d.writable || out_of_range lba count d then (false, w) else write lba buffer count w
  ]
