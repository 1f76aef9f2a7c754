-- ===== src/Process/Pages/Run.antt =====
-- The mapping of a run of zeroed pages in process_sbrk of userspace/process.c.
use whirliscope.Prelude.{
  ℕ, zero, suc, ◌+◌, ◌*◌, ◌^◌, ◌≤◌, ◌<◌, ◌≡◌, refl, ap, subst, ◌⊎◌, inl, inr, Bool, true, false,
  ◌==◌, if◌then◌else◌, arith, Bool-cases, ◌∙◌,
}
use whirliscope.Libc.Memory.{Memory, within}
use whirliscope.Libc.Block.{memset}
use whirliscope.Libc.Block.Copy.{memset-fills}
use whirliscope.Process.Pages.{SpaceOps, Machine, map_zero_page, map_zero_pages}

gate :
    {A : Type 0} (b c : Bool) (x y : A)
    → (◌≡◌ {A = Bool} (if◌then◌else◌ {A = Bool × A} b (false, x) (c, y)).0 true)
    → (b ≡ false) × (c ≡ true)
gate true c x y e = absurd (ground arith)
gate false c x y e = (refl, e)

go_on :
    {A : Type 0} (b : Bool) (x : A) (r : Bool × A)
    → (◌≡◌ {A = Bool} (if◌then◌else◌ {A = Bool × A} b r (false, x)).0 true)
    → (b ≡ true) × (r.0 ≡ true)
go_on true x r e = (refl, e)
go_on false x r e = absurd (ground arith)

zero_inside : (page : ℕ) (m : Memory) (b : ℕ) → b < 4096 → memset page 0 4096 m (page + b) ≡ 0
zero_inside page m b low =
    let here : within page 4096 (page + b) ≡ true = ground arith in
    memset-fills page 0 4096 m (page + b) ∙ rw here refl

zero_outside :
    (page : ℕ) (m : Memory) (b : ℕ) → (b < page) ⊎ (page + 4096 ≤ b) → memset page 0 4096 m b ≡ m b
zero_outside page m b apart =
    let away : within page 4096 b ≡ false = outside apart in
    memset-fills page 0 4096 m b ∙ rw away refl
  where
    outside : (b < page) ⊎ (page + 4096 ≤ b) → within page 4096 b ≡ false
    outside (inl h) = ground arith
    outside (inr h) = ground arith

stopped :
    {A : Type 0} (b : Bool) (x : A) (r : Bool × A)
    → (◌≡◌ {A = Bool} (if◌then◌else◌ {A = Bool × A} b r (false, x)).0 false)
    → (b ≡ false) ⊎ (b ≡ true) × (r.0 ≡ false)
stopped true x r e = inr (refl, e)
stopped false x r e = inl refl

module _ {P : Type 0} (ops : SpaceOps P) (pml4 : ℕ) where
  -- One page has been mapped at the user address `a`, for the program to read and write: the page
  -- managers gave it and took the mapping, it is zero, and the rest of memory is as it was.
  pub record IsPageMapped (a : ℕ) (w v : Machine P) : Type 0 where
    pub given : ((ops.pmm_alloc_page w.pages).0 == 0) ≡ false
    pub mapped :
        ops.vmm_map_page_in_space pml4 a
          (ops.pmm_alloc_page w.pages).0
          (2 ^ 63 + 6)
          (ops.pmm_alloc_page w.pages).1
        ≡ (true, v.pages)
    pub zeroed :
        (b : ℕ)
        → b < 4096
        → v.memory
            (ops.pmm_phys_to_virt (ops.pmm_alloc_page w.pages).0 (ops.pmm_alloc_page w.pages).1 + b)
          ≡ 0
    pub kept :
        (b : ℕ)
        → (let page =
              ops.pmm_phys_to_virt (ops.pmm_alloc_page w.pages).0 (ops.pmm_alloc_page w.pages).1 in
            (b < page) ⊎ (page + 4096 ≤ b))
        → v.memory b ≡ w.memory b

  -- No page can be had for the user address `a`, or it cannot be mapped there.
  abbrev pub IsRefused : ℕ → Machine P → Type 0
  IsRefused a w =
      (((ops.pmm_alloc_page w.pages).0 == 0) ≡ true)
      ⊎ ((ops.vmm_map_page_in_space pml4 a (ops.pmm_alloc_page w.pages).0 (2 ^ 63 + 6)
            (ops.pmm_alloc_page w.pages).1).0
          ≡ false)

  -- Pages have been mapped one after the other from `a` on.
  abbrev pub PagesMapped : (n a : ℕ) → Machine P → Machine P → Type 0
  PagesMapped zero a w u = w ≡ u
  PagesMapped (suc n) a w u = (v : Machine P) × IsPageMapped a w v × PagesMapped n (a + 4096) v u

  map_zero_page-IsPageMapped :
      (a : ℕ) (w : Machine P)
      → (map_zero_page ops pml4 a w).0 ≡ true
      → IsPageMapped a w (map_zero_page ops pml4 a w).1
  unfolding map_zero_page
  map_zero_page-IsPageMapped a w e =
      let (got, mapped) = gate ((ops.pmm_alloc_page w.pages).0 == 0) _ _ _ e in
      rw got (record {
        given = got;
        mapped =
            ap
              (λ b. (
                b,
                (ops.vmm_map_page_in_space pml4 a (ops.pmm_alloc_page w.pages).0 (2 ^ 63 + 6)
                    (ops.pmm_alloc_page w.pages).1).1,
              ))
              mapped;
        zeroed = λ b low. zero_inside _ w.memory b low;
        kept = λ b apart. zero_outside _ w.memory b apart;
      })

  map_zero_page-IsRefused :
      (a : ℕ) (w : Machine P) → (map_zero_page ops pml4 a w).0 ≡ false → IsRefused a w
  unfolding map_zero_page
  map_zero_page-IsRefused a w e = elim (Bool-cases ((ops.pmm_alloc_page w.pages).0 == 0)) [
    | inl full ↦ inl full
    | inr got ↦ inr (rw got at e)
  ]

  pub map_zero_pages-PagesMapped :
      (n a : ℕ) (w : Machine P)
      → (map_zero_pages ops n pml4 a w).0 ≡ true
      → PagesMapped n a w (map_zero_pages ops n pml4 a w).1
  unfolding map_zero_pages
  map_zero_pages-PagesMapped zero a w e = refl
  map_zero_pages-PagesMapped (suc n) a w e =
      let first = map_zero_page ops pml4 a w in
      let (ok, rest) = go_on first.0 first.1 (map_zero_pages ops n pml4 (a + 4096) first.1) e in
      rw ok (
        first.1,
        map_zero_page-IsPageMapped a w ok,
        map_zero_pages-PagesMapped n (a + 4096) first.1 rest,
      )

  -- The run of pages stops before the page that is refused.
  abbrev pub StopsBefore : (n a : ℕ) → Machine P → Type 0
  StopsBefore n a w =
      (k : ℕ) × (k < n) × (v : Machine P) × PagesMapped k a w v × IsRefused (a + k * 4096) v

  pub map_zero_pages-StopsBefore :
      (n a : ℕ) (w : Machine P) → (map_zero_pages ops n pml4 a w).0 ≡ false → StopsBefore n a w
  unfolding map_zero_pages
  map_zero_pages-StopsBefore zero a w e = absurd (ground arith)
  map_zero_pages-StopsBefore (suc n) a w e =
      let first = map_zero_page ops pml4 a w in
      elim (stopped first.0 first.1 (map_zero_pages ops n pml4 (a + 4096) first.1) e) [
        | inl bad ↦
            let same : a ≡ a + 0 * 4096 = omega arith in
            (
              0,
              omega arith,
              w,
              refl,
              subst (λ p. IsRefused p w) same (map_zero_page-IsRefused a w bad),
            )
        | inr (ok, rest) ↦
            let (k, low, v, run, refused) = map_zero_pages-StopsBefore n (a + 4096) first.1 rest in
            let same : a + 4096 + k * 4096 ≡ a + suc k * 4096 = omega arith in
            (
              suc k,
              omega arith,
              v,
              (first.1, map_zero_page-IsPageMapped a w ok, run),
              subst (λ p. IsRefused p v) same refused,
            )
      ]
