-- ===== src/Process/Create/Slots.antt =====
-- Which slots of the table process_create_filesystem_process of userspace/process.c touches, and
-- what it puts there.
use whirliscope.Prelude.{
  ℕ, zero, suc, ◌+◌, ◌≤◌, ◌<◌, ◌≡◌, refl, sym, ap, ◌∙◌, Bool, true, false, Option, none, some, List,
  ◌==◌, if◌then◌else◌, add64, arith, Bool-cases, Option-cases, inl, inr,
}
use whirliscope.Process.{Process, is_unused}
use whirliscope.Process.Pages.{SpaceOps, Machine}
use whirliscope.Process.Image.{process_load_user_image_bytes}
use whirliscope.Process.Image.Ready.{IsLaunchable}
use whirliscope.Process.Create.{
  Table, put, FileOps, find_slot, read_image, base_name, load_into, place_image,
  process_create_filesystem_process,
}
use whirliscope.Process.Create.Read.{IsRead}

find_slot_lem :
    (k i n : ℕ) (f : ℕ → Process)
    → find_slot k i f ≡ some n
    → (i ≤ n) × (n < i + k) × (is_unused (f n) ≡ true)
unfolding find_slot
find_slot_lem zero i n f e = absurd (ground arith)
find_slot_lem (suc k) i n f e = elim (Bool-cases (is_unused (f i))) [
  | inl unused ↦
      let same : i ≡ n = found_here _ _ i n unused e in
      (omega (arith, same), omega (arith, same), ap (λ x. is_unused (f x)) (sym same) ∙ unused)
  | inr used ↦
      let (low, high, there) = find_slot_lem k (i + 1) n f (not_here _ _ i n used e) in
      (omega arith, omega arith, there)
]
  where
    found_here :
        (b : Bool) (rest : Option ℕ) (i n : ℕ)
        → b ≡ true
        → (if b then some i else rest) ≡ some n
        → i ≡ n
    found_here b rest i n t e = ground arith

    not_here :
        (b : Bool) (rest : Option ℕ) (i n : ℕ)
        → b ≡ false
        → (if b then some i else rest) ≡ some n
        → rest ≡ some n
    not_here b rest i n t e = ground arith

put_other : (i j : ℕ) (p : Process) (f : ℕ → Process) → (j == i) ≡ false → put i p f j ≡ f j
put_other i j p f e = rw e refl

not_slot :
    (i j : ℕ) (f : ℕ → Process)
    → is_unused (f i) ≡ true
    → is_unused (f j) ≡ false
    → (j == i) ≡ false
not_slot i j f unused used = elim (Bool-cases (j == i)) [
  | inl e ↦ absurd (clash (sym unused ∙ ap (λ x. is_unused (f x)) (sym (ground arith)) ∙ used))
  | inr e ↦ e
]
  where
    clash : true ≡ false → ⊥
    clash h = ground arith

-- What a call that succeeds has made of the bytes of an image in memory.
pub record IsPlaced (image size : ℕ) (m : ℕ → ℕ) (t t' : Table) (n : ℕ) : Type 0 where
  pub slot : (1 ≤ n) × (n < 8)
  pub was_unused : is_unused (t.processes n) ≡ true
  pub launchable : IsLaunchable (t'.processes n) t.next_pid image size m
  pub others : (j : ℕ) → (j == n) ≡ false → t'.processes j ≡ t.processes j
  pub next : t'.next_pid ≡ add64 t.next_pid 1

module _ {P : Type 0} (files : FileOps P) where
  -- What process_create_filesystem_process has made where it returns a process.
  abbrev pub IsCreated : (path : List ℕ) → (w : Machine P) → Table → Table → ℕ → Type 0
  IsCreated path w t t' n =
      (image size : ℕ) × (r : Machine P) × IsRead files path image size w r
      × IsPlaced image size r.memory t t' n

module _ {P : Type 0} (ops : SpaceOps P) (files : FileOps P) where
  load_into_kept :
      (i image size j : ℕ) (name : List ℕ) (cwd : Option (List ℕ)) (t : Table) (w : Machine P)
      → (j == i) ≡ false
      → (load_into ops files i image size name cwd t w).1.processes j ≡ t.processes j
  unfolding load_into
  load_into_kept i image size j name cwd t w e =
      elim (Bool-cases
        (process_load_user_image_bytes ops (t.processes i) t.next_pid (some name) image size cwd
          w).0) [
            | inl loaded ↦ rw loaded (put_other i j _ t.processes e)
            | inr failed ↦ rw failed (put_other i j _ t.processes e)
          ]

  place_image_kept :
      (path : List ℕ) (cwd : Option (List ℕ)) (t : Table) (image : Option (ℕ × ℕ)) (w : Machine P)
      (j : ℕ)
      → is_unused (t.processes j) ≡ false
      → (place_image ops files path cwd t image w).1.processes j ≡ t.processes j
  unfolding place_image
  place_image_kept path cwd t none w j used = refl
  place_image_kept path cwd t (some (image, size)) w j used =
      elim (Option-cases (find_slot 7 1 t.processes)) [
        | inl full ↦ rw (place_image, full) refl
        | inr (i, slot) ↦
            rw (place_image, slot)
              (load_into_kept i image size j (base_name path) cwd t w
                (not_slot i j t.processes (find_slot_lem 7 1 i t.processes slot).2 used))
      ]

  -- process_create_filesystem_process changes no slot whose process is in use, whether it succeeds
  -- or fails.
  pub process_create-kept :
      (path cwd : Option (List ℕ)) (t : Table) (w : Machine P) (j : ℕ)
      → is_unused (t.processes j) ≡ false
      → (process_create_filesystem_process ops files path cwd t w).1.processes j ≡ t.processes j
  unfolding process_create_filesystem_process
  process_create-kept none cwd t w j used = refl
  process_create-kept (some path) cwd t w j used =
      place_image_kept path cwd t (read_image ops files (some path) w).0 _ j used

  abbrev Made : Type 0
  Made = Option ℕ × Table × Machine P
