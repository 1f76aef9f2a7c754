-- ===== src/AddressSpace/Examples.antt =====
-- A range whose end wraps around.
use whirliscope.Prelude.{◌-◌, ◌^◌, ◌≡◌, ◌⊎◌, true, false, arith}
use whirliscope.AddressSpace.{
  userspace_range_is_valid, IsUserRange, userspace_range_is_valid-IsUserRange,
}

userspace_range_is_valid-IsUserRange_example :
    ((userspace_range_is_valid 8192 (2 ^ 64 - 4096) ≡ true) × IsUserRange 8192 (2 ^ 64 - 4096))
    ⊎ ((userspace_range_is_valid 8192 (2 ^ 64 - 4096) ≡ false)
        × ¬ (IsUserRange 8192 (2 ^ 64 - 4096)))
userspace_range_is_valid-IsUserRange_example =
    userspace_range_is_valid-IsUserRange 8192 (2 ^ 64 - 4096) (omega arith) (omega arith)
