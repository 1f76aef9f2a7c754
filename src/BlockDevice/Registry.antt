-- ===== src/BlockDevice/Registry.antt =====
-- What the registry of drivers/block.c holds.
use whirliscope.Prelude.{
  ◌+◌, ◌≤◌, ◌<◌, ◌≡◌, refl, ◌⊎◌, inl, inr, true, false, not, ◌||◌, Option, none, some, List, [],
  ◌∷◌, ◌++◌, get_elem?, length, length-append, ltb, leb, if◌then◌else◌, arith, Bool-cases,
}
use whirliscope.BlockDevice.{
  Device, block_max_devices, present, block_register, block_device_count, block_device_at,
  acceptable,
}

-- What is true of a device that block_register takes.
pub record IsUsable {W : Type 0} (d : Device W) : Type 0 where
  pub sized : 0 < d.sector_size
  pub counted : 0 < d.sector_count
  pub readable : present d.read ≡ true

abbrev pub AllUsable : {W : Type 0} → List (Device W) → Type 0
AllUsable [] = Unit {0}
AllUsable (d ∷ ds) = IsUsable d × AllUsable ds

-- At most eight devices, each with sectors and a read function.
pub record IsRegistry {W : Type 0} (ds : List (Device W)) : Type 0 where
  pub bounded : length ds ≤ block_max_devices
  pub usable : AllUsable ds

module _ {W : Type 0} where
  AllUsable-snoc :
      (ds : List (Device W)) (d : Device W) → AllUsable ds → IsUsable d → AllUsable (ds ++ d ∷ [])
  AllUsable-snoc [] d h u = (u, tt)
  AllUsable-snoc (x ∷ ds) d h u = (h.0, AllUsable-snoc ds d h.1 u)

  -- Registration keeps the registry well formed.
  pub block_register-IsRegistry :
      (o : Option (Device W)) (ds : List (Device W))
      → IsRegistry ds
      → IsRegistry (block_register o ds).1
  unfolding block_register
  block_register-IsRegistry none ds v = v
  block_register-IsRegistry (some d) ds v =
      elim (Bool-cases (not (acceptable d) || leb block_max_devices (length ds))) [
        | inl refused ↦ rw refused v
        | inr taken ↦ rw taken (record {
          bounded = ground (arith, length-append ds (d ∷ []));
          usable =
              AllUsable-snoc ds d v.usable
                (record { sized = ground arith; counted = ground arith; readable = ground arith });
        })
      ]

  get_elem?-snoc :
      (ds : List (Device W)) (d : Device W) → get_elem? (ds ++ d ∷ []) (length ds) ≡ some d
  get_elem?-snoc [] d = refl
  get_elem?-snoc (x ∷ ds) d = get_elem?-snoc ds d

  registered :
      (d : Device W) (ds : List (Device W))
      → (not (acceptable d) || leb block_max_devices (length ds)) ≡ false
      → let r = block_register (some d) ds in
        (r.0 ≡ true)
        × (block_device_at (block_device_count ds) r.1 ≡ some d)
        × (block_device_count r.1 ≡ block_device_count ds + 1)
  unfolding block_register block_device_at block_device_count
  registered d ds taken = rw taken (refl, slot, ground (arith, length-append ds (d ∷ [])))
    where
      there : ltb (length ds) (length (ds ++ d ∷ [])) ≡ true
      there = ground (arith, length-append ds (d ∷ []))

      slot :
          (if ltb (length ds) (length (ds ++ d ∷ []))
            then get_elem? (ds ++ d ∷ []) (length ds)
            else none)
          ≡ some d
      slot = rw (there, get_elem?-snoc ds d) refl

  -- A device that is registered can be had at the old count as its index, and the count grows by
  -- one; nothing changes where the registration fails.
  pub block_register-at :
      (d : Device W) (ds : List (Device W))
      → let r = block_register (some d) ds in
        ((r.0 ≡ true)
          × (block_device_at (block_device_count ds) r.1 ≡ some d)
          × (block_device_count r.1 ≡ block_device_count ds + 1))
        ⊎ ((r.0 ≡ false) × (r.1 ≡ ds))
  unfolding block_register block_device_at block_device_count
  block_register-at d ds =
      elim (Bool-cases (not (acceptable d) || leb block_max_devices (length ds))) [
        | inl refused ↦ inr (rw refused, rw refused)
        | inr taken ↦ inl (registered d ds taken)
      ]
