-- ===== src/Pmm/Init.antt =====
-- Which pages pmm_init of memory/pmm.c puts on the free list.
use whirliscope.Prelude.{
  ℕ, zero, suc, ◌+◌, ◌-◌, ◌*◌, ◌/◌, ◌%◌, ◌^◌, ◌≤◌, ◌<◌, ◌≡◌, refl, sym, ap, subst, ◌∙◌, ◌⊎◌, inl,
  inr, Bool, true, false, not, ◌&&◌, ◌||◌, some, List, [], ◌∷◌, length, ltb, leb, ◌==◌, add64,
  align_up, align_down, arith, Bool-cases,
}
use whirliscope.Pmm.{
  Pmm, MemmapEntry, limine_memmap_usable, pmm_page_size, push_page, add_pages, add_entry,
  add_entries, pmm_init, cleared,
}
use whirliscope.Pmm.FreeList.{elem, IsFreeList, push_page-IsFreeList}

-- The memory map lists its regions in order and without overlap, from `low` on, and none reaches
-- past the end of the addresses that the offset `h` leaves.
abbrev pub Ordered : ℕ → ℕ → List MemmapEntry → Type 0
Ordered h low [] = Unit {0}
Ordered h low (e ∷ es) =
    (low ≤ e.base)
    × (h + (e.base + e.length) + pmm_page_size < 2 ^ 64)
    × Ordered h (e.base + e.length) es

-- The page lies in a usable region as a whole.
abbrev pub usable_in : ℕ → MemmapEntry → Bool
usable_in p e =
    e.type == limine_memmap_usable && leb e.base p && leb (p + pmm_page_size) (e.base + e.length)

abbrev pub usable_page : ℕ → List MemmapEntry → Bool
usable_page p [] = false
usable_page p (e ∷ es) = usable_in p e || usable_page p es

-- The state of pmm_init on its way: `ps` are the pages so far, all below `bound`.
pub record Filled (s : Pmm) (h bound : ℕ) (ps : List ℕ) : Type 0 where
  pub offset : s.hhdm_base ≡ h
  pub list : IsFreeList s ps
  pub total : s.total_pages ≡ length ps % 2 ^ 64
  pub below : (p : ℕ) → elem p ps ≡ true → p < bound

fresh :
    (p bound : ℕ) (ps : List ℕ)
    → ((q : ℕ) → elem q ps ≡ true → q < bound)
    → bound ≤ p
    → elem p ps ≡ false
fresh p bound ps h le = elim (Bool-cases (elem p ps)) [
  | inl e ↦ absurd (omega (arith, h p e))
  | inr e ↦ e
]

below_cons :
    (p page : ℕ) (b : Bool)
    → (b ≡ true → p < page)
    → (p == page || b) ≡ true
    → p < page + pmm_page_size
below_cons p page true h e = omega (arith, h refl)
below_cons p page false h e = ground arith

Filled-push :
    (s : Pmm) (h page : ℕ) (ps : List ℕ)
    → 0 < page
    → page % pmm_page_size ≡ 0
    → h + page < 2 ^ 64
    → Filled s h page ps
    → let t = push_page page s in
      Filled (record t { total_pages = add64 t.total_pages 1 }) h (page + pmm_page_size) (page ∷ ps)
unfolding push_page
Filled-push s h page ps pos unit room v =
    let list =
      push_page-IsFreeList page s ps (pos, unit, subst (λ x. x + page < 2 ^ 64) (sym v.offset) room)
        (fresh page page ps v.below (omega arith)) v.list in
    record {
      offset = v.offset;
      list = record { chain = list.chain; count = list.count; pages = list.pages };
      total = omega (arith, v.total);
      below = λ p e. below_cons p page (elem p ps) (v.below p) e;
    }

Filled-weaken :
    (s : Pmm) (h low high : ℕ) (ps : List ℕ) → low ≤ high → Filled s h low ps → Filled s h high ps
Filled-weaken s h low high ps le v = record {
  offset = v.offset;
  list = v.list;
  total = v.total;
  below = λ p e. omega (arith, v.below p e);
}

-- The pages other than zero of a run of `n` pages from `page` on.
abbrev in_run : ℕ → ℕ → ℕ → Bool
in_run p page n =
    p % pmm_page_size == 0 && not (p == 0) && leb page p && ltb p (page + n * pmm_page_size)

-- More pages are on the list, those for which `more` says so.
abbrev Added : Pmm → ℕ → ℕ → List ℕ → (ℕ → Bool) → Type 0
Added s h bound ps more =
    (ps' : List ℕ) × Filled s h bound ps' × ((p : ℕ) → elem p ps' ≡ (more p || elem p ps))

run_none : (p page : ℕ) (b : Bool) → b ≡ (in_run p page 0 || b)
run_none p page b = ground arith

run_zero : (p page n : ℕ) → page ≡ 0 → in_run p (page + 4096) n ≡ in_run p page (suc n)
run_zero p page n e = ground arith

run_next :
    (p page n : ℕ) (b : Bool)
    → 0 < page
    → page % 4096 ≡ 0
    → (in_run p (page + 4096) n || (p == page || b)) ≡ (in_run p page (suc n) || b)
run_next p page n b pos unit = ground arith

add_pages-Added :
    (n page : ℕ) (s : Pmm) (h : ℕ) (ps : List ℕ)
    → page % pmm_page_size ≡ 0
    → h + (page + n * pmm_page_size) < 2 ^ 64
    → Filled s h page ps
    → Added (add_pages n page s) h (page + n * pmm_page_size) ps (λ p. in_run p page n)
unfolding add_pages
add_pages-Added zero page s h ps unit room v =
    (ps, Filled-weaken s h page (page + 0) ps (omega arith) v, λ p. run_none p page (elem p ps))
add_pages-Added (suc n) page s h ps unit room v =
    let bound : (page + 4096) + n * 4096 ≡ page + suc n * 4096 = omega arith in
    elim (Bool-cases (page == 0)) [
      | inl e ↦
          let (ps', w, f) =
            add_pages-Added n (page + 4096) s h ps (omega arith) (omega arith)
              (Filled-weaken s h page (page + 4096) ps (omega arith) v) in
          rw e (
            ps',
            subst (λ b. Filled (add_pages n (page + 4096) s) h b ps') bound w,
            λ p. f p ∙ ap (λ x. x || elem p ps) (run_zero p page n (ground arith)),
          )
      | inr e ↦
          let t = push_page page s in
          let (ps', w, f) =
            add_pages-Added n (page + 4096) (record t { total_pages = add64 t.total_pages 1 }) h
              (page ∷ ps) (omega arith) (omega arith)
              (Filled-push s h page ps (ground arith) unit (omega arith) v) in
          rw e (
            ps',
            subst
                (λ b.
                  Filled
                    (add_pages n (page + 4096) (record t { total_pages = add64 t.total_pages 1 })) h
                    b ps')
                bound w,
            λ p. f p ∙ run_next p page n (elem p ps) (ground arith) unit,
          )
    ]

-- The pages that an entry has to offer.
abbrev offered : MemmapEntry → ℕ → Bool
offered e p = p % pmm_page_size == 0 && not (p == 0) && usable_in p e

abbrev first_page : ℕ → ℕ
first_page base = align_up base pmm_page_size

abbrev page_count : ℕ → ℕ → ℕ
page_count base len =
    (align_down (add64 base len) pmm_page_size - align_up base pmm_page_size) / pmm_page_size

run_offered :
    (p base len : ℕ)
    → base + len + 4096 < 2 ^ 64
    → in_run p (first_page base) (page_count base len) ≡ (
        p % pmm_page_size == 0
        && not (p == 0)
        && (leb base p && leb (p + pmm_page_size) (base + len)))
run_offered p base len room = ground arith

end_of_run :
    (base len : ℕ)
    → base + len + 4096 < 2 ^ 64
    → (base ≤ first_page base)
      × (first_page base % pmm_page_size ≡ 0)
      × ((page_count base len ≡ 0)
          ⊎ (first_page base + page_count base len * pmm_page_size ≤ base + len))
end_of_run base len room = (
  omega arith,
  omega arith,
  elim (Bool-cases (ltb (first_page base) (align_down (add64 base len) pmm_page_size))) [
    | inl more ↦ inr (ground arith)
    | inr over ↦ inl (ground arith)
  ],
)

nothing_added :
    (base len : ℕ) (s : Pmm) (h : ℕ) (ps : List ℕ)
    → Filled s h base ps
    → Filled (add_pages 0 (first_page base) s) h (base + len) ps
unfolding add_pages
nothing_added base len s h ps v = Filled-weaken s h base (base + len) ps (omega arith) v

usable_run :
    (base len : ℕ) (s : Pmm) (h : ℕ) (ps : List ℕ)
    → h + (base + len) + pmm_page_size < 2 ^ 64
    → Filled s h base ps
    → Added (add_pages (page_count base len) (first_page base) s) h (base + len) ps (λ p.
      p % pmm_page_size == 0
      && not (p == 0)
      && (leb base p && leb (p + pmm_page_size) (base + len)))
usable_run base len s h ps room v =
    let (ge, unit, last) = end_of_run base len (omega arith) in
    elim last [
      | inl e ↦ (
        ps,
        subst (λ n. Filled (add_pages n (first_page base) s) h (base + len) ps) (sym e)
            (nothing_added base len s h ps v),
        λ p.
            run_none p (first_page base) (elem p ps)
            ∙ ap (λ x. x || elem p ps)
                (ap (λ n. in_run p (first_page base) n) (sym e)
                  ∙ run_offered p base len (omega arith)),
      )
      | inr le ↦
          let (ps', w, f) =
            add_pages-Added (page_count base len) (first_page base) s h ps unit (omega arith)
              (Filled-weaken s h base (first_page base) ps ge v) in
          (
            ps',
            Filled-weaken (add_pages (page_count base len) (first_page base) s) h _ (base + len) ps'
                le w,
            λ p. f p ∙ ap (λ x. x || elem p ps) (run_offered p base len (omega arith)),
          )
    ]

add_entry-Added :
    (e : MemmapEntry) (s : Pmm) (h low : ℕ) (ps : List ℕ)
    → low ≤ e.base
    → h + (e.base + e.length) + pmm_page_size < 2 ^ 64
    → Filled s h low ps
    → Added (add_entry e s) h (e.base + e.length) ps (offered e)
unfolding add_entry
add_entry-Added e s h low ps le room v = elim (Bool-cases (e.type == limine_memmap_usable)) [
  | inr other ↦
      rw other (ps, Filled-weaken s h low (e.base + e.length) ps (omega arith) v, λ p. ground arith)
  | inl usable ↦
      rw usable (usable_run e.base e.length s h ps room (Filled-weaken s h low e.base ps le v))
]

or_false : (a : Bool) → (a || false) ≡ a
or_false true = refl
or_false false = refl

offered_more :
    (a b u us x y : Bool)
    → x ≡ (a && b && u || y)
    → (a && b && us || x) ≡ (a && b && (u || us) || y)
offered_more a b u us x y e = ground arith

add_entries-Added :
    (es : List MemmapEntry) (s : Pmm) (h low : ℕ) (ps : List ℕ)
    → Ordered h low es
    → Filled s h low ps
    → (bound : ℕ) × Added
        (add_entries es s)
        h
        bound
        ps
        (λ p. p % pmm_page_size == 0 && not (p == 0) && usable_page p es)
unfolding add_entries
add_entries-Added [] s h low ps o v = (low, (ps, v, λ p. ground arith))
add_entries-Added (e ∷ es) s h low ps o v =
    let (ps1, v1, f1) = add_entry-Added e s h low ps o.0 o.1 v in
    let (bound, (ps2, v2, f2)) =
      add_entries-Added es (add_entry e s) h (e.base + e.length) ps1 o.2 v1 in
    (
      bound,
      (
        ps2,
        v2,
        λ p.
            f2 p
            ∙ offered_more (p % pmm_page_size == 0) (not (p == 0)) (usable_in p e)
                (usable_page p es) (elem p ps1) (elem p ps) (f1 p),
      ),
    )

-- pmm_init, for a memory map that is in order and without overlap and whose regions, at the offset
-- at which the kernel sees them, end more than a page below 2 ^ 64: the free list holds exactly the
-- pages that lie as a whole in a usable region, without page 0, each of them once, and both counters
-- are their number.
pub pmm_init-IsFreeList :
    (es : List MemmapEntry) (offset : ℕ) (s : Pmm)
    → Ordered offset 0 es
    → let t = pmm_init (some es) (some offset) s in
      (ps : List ℕ) × IsFreeList t ps
      × (t.initialized ≡ true)
      × (t.total_pages ≡ length ps % 2 ^ 64)
      × ((p : ℕ) → elem p ps ≡ (p % pmm_page_size == 0 && not (p == 0) && usable_page p es))
unfolding pmm_init
pmm_init-IsFreeList es offset s o =
    let start = record (cleared s) { hhdm_base = offset } in
    let none_yet : Filled start offset 0 [] = record {
      offset = refl;
      list = record { chain = refl; count = refl; pages = tt };
      total = refl;
      below = λ p e. ground arith;
    } in
    let (bound, (ps, v, f)) = add_entries-Added es start offset 0 [] o none_yet in
    (
      ps,
      record { chain = v.list.chain; count = v.list.count; pages = v.list.pages },
      refl,
      v.total,
      λ p. f p ∙ or_false (p % pmm_page_size == 0 && not (p == 0) && usable_page p es),
    )
