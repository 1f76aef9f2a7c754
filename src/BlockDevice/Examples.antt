-- ===== src/BlockDevice/Examples.antt =====
-- A disk of sixteen sectors that remembers its requests, and the theorems at it.
use whirliscope.Prelude.{ℕ, refl, true, false, some, List, [], ◌∷◌, arith}
use whirliscope.BlockDevice.{Driver, Device, block_register}
use whirliscope.BlockDevice.Registry.{IsUsable, IsRegistry, block_register-IsRegistry}

abbrev log : Driver (List ℕ)
log lba buffer count w = (true, lba ∷ count ∷ w)

abbrev disk : Device (List ℕ)
disk = record {
  sector_size = 512;
  sector_count = 16;
  writable = false;
  read = some log;
  write = some log;
}

disk-IsUsable : IsUsable disk
disk-IsUsable = record { sized = omega arith; counted = omega arith; readable = refl }

block_register-IsRegistry_example : IsRegistry (block_register (some disk) (disk ∷ [])).1
block_register-IsRegistry_example =
    block_register-IsRegistry (some disk) (disk ∷ [])
      (record { bounded = omega arith; usable = (disk-IsUsable, tt) })
