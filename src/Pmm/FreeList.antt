-- ===== src/Pmm/FreeList.antt =====
-- The free list of memory/pmm.c as a list of physical pages, and the calls on it.
use whirliscope.Prelude.{
  ℕ, ◌+◌, ◌%◌, ◌^◌, ◌<◌, ◌≡◌, refl, sym, subst, ◌⊎◌, Bool, true, false, not, ◌||◌, List, [], ◌∷◌,
  length, ◌==◌, if◌then◌else◌, sub64, arith,
}
use whirliscope.Pmm.{
  Pmm, pmm_page_size, null_page, push_page, pmm_alloc_page, pmm_free_page, pmm_virt_to_phys,
  pmm_phys_to_virt,
}

abbrev pub elem : ℕ → List ℕ → Bool
elem p [] = false
elem p (q ∷ qs) = p == q || elem p qs

-- The links from `a` on lead through the pages at the offset `h`, and end.
abbrev pub Chain : (ℕ → ℕ) → ℕ → ℕ → List ℕ → Type 0
Chain next h a [] = a ≡ null_page
Chain next h a (p ∷ ps) = (a ≡ h + p) × Chain next h (next a) ps

-- A page that the list may hold.
abbrev pub IsPage : ℕ → ℕ → Type 0
IsPage h p = (0 < p) × (p % pmm_page_size ≡ 0) × (h + p < 2 ^ 64)

-- Pages, none of them twice.
abbrev pub Pages : ℕ → List ℕ → Type 0
Pages h [] = Unit {0}
Pages h (p ∷ ps) = IsPage h p × (elem p ps ≡ false) × Pages h ps

-- The free pages are `ps`, in the order in which they are given out.
pub record IsFreeList (s : Pmm) (ps : List ℕ) : Type 0 where
  pub chain : Chain s.next s.hhdm_base s.free_list ps
  pub count : s.free_pages ≡ length ps % 2 ^ 64
  pub pages : Pages s.hhdm_base ps

other_link :
    (next : ℕ → ℕ) (a q h p v : ℕ)
    → a ≡ h + q
    → (p == q) ≡ false
    → (if a == h + p then v else next a) ≡ next a
other_link next a q h p v at apart = ground arith

not_first : (p q : ℕ) (b : Bool) → (p == q || b) ≡ false → ((p == q) ≡ false) × (b ≡ false)
not_first p q b e = ground arith

same_link : (next : ℕ → ℕ) (v a : ℕ) → (if a == a then v else next a) ≡ v
same_link next v a = ground arith

Chain-put :
    (next : ℕ → ℕ) (h a p v : ℕ) (ps : List ℕ)
    → elem p ps ≡ false
    → Chain next h a ps
    → Chain (λ b. if b == h + p then v else next b) h a ps
Chain-put next h a p v [] no_p c = c
Chain-put next h a p v (q ∷ ps) no_p c =
    let (apart, rest) = not_first p q (elem p ps) no_p in
    (
      c.0,
      subst (λ b. Chain (λ d. if d == h + p then v else next d) h b ps)
          (sym (other_link next a q h p v c.0 apart)) (Chain-put next h (next a) p v ps rest c.1),
    )

Chain-push :
    (next : ℕ → ℕ) (h a p page : ℕ) (ps : List ℕ)
    → page ≡ h + p
    → elem p ps ≡ false
    → Chain next h a ps
    → Chain (λ b. if b == page then a else next b) h page (p ∷ ps)
Chain-push next h a p page ps at no_p c =
    subst (λ x. Chain (λ b. if b == x then a else next b) h x (p ∷ ps)) (sym at)
      (
        refl,
        subst (λ x. Chain (λ b. if b == h + p then a else next b) h x ps)
            (sym (same_link next a (h + p))) (Chain-put next h a p a ps no_p c),
      )

pub push_page-IsFreeList :
    (p : ℕ) (s : Pmm) (ps : List ℕ)
    → IsPage s.hhdm_base p
    → elem p ps ≡ false
    → IsFreeList s ps
    → IsFreeList (push_page p s) (p ∷ ps)
unfolding push_page pmm_phys_to_virt
push_page-IsFreeList p s ps ok no_p v = record {
  chain = Chain-push s.next s.hhdm_base s.free_list p _ ps (omega (arith, ok)) no_p v.chain;
  count = ground (arith, v.count);
  pages = (ok, no_p, v.pages);
}

-- Where a page is free, pmm_alloc_page takes the first of the list.
pub pmm_alloc_page-IsFreeList :
    (s : Pmm) (p : ℕ) (ps : List ℕ)
    → s.initialized ≡ true
    → IsFreeList s (p ∷ ps)
    → ((pmm_alloc_page s).0 ≡ p) × IsFreeList (pmm_alloc_page s).1 ps
unfolding pmm_alloc_page pmm_virt_to_phys
pmm_alloc_page-IsFreeList s p ps ready v =
    rw there
      (taken, record { chain = v.chain.1; count = omega (arith, v.count); pages = v.pages.2 })
  where
    there : (not s.initialized || s.free_list == null_page) ≡ false
    there = ground (arith, ready, v.chain.0, v.pages.0.0)

    taken : sub64 s.free_list s.hhdm_base ≡ p
    taken = omega (arith, v.chain.0, v.pages.0)

-- Where no page is free, pmm_alloc_page returns 0 and changes nothing.
pub pmm_alloc_page_none : (s : Pmm) → IsFreeList s [] → pmm_alloc_page s ≡ (0, s)
unfolding pmm_alloc_page
pmm_alloc_page_none s v = ground (arith, v.chain)

-- pmm_free_page of a page that is not free puts the page in front of the free pages.
pub pmm_free_page-IsFreeList :
    (s : Pmm) (p : ℕ) (ps : List ℕ)
    → s.initialized ≡ true
    → IsPage s.hhdm_base p
    → elem p ps ≡ false
    → IsFreeList s ps
    → IsFreeList (pmm_free_page p s) (p ∷ ps)
unfolding pmm_free_page
pmm_free_page-IsFreeList s p ps ready ok no_p v =
    rw accepted (push_page-IsFreeList p s ps ok no_p v)
  where
    accepted : (not s.initialized || p == 0 || not (p % pmm_page_size == 0)) ≡ false
    accepted = ground (arith, ready, ok)

-- pmm_free_page of zero, or of an address inside a page, changes nothing.
pub pmm_free_page_other :
    (s : Pmm) (a : ℕ) → (a ≡ 0) ⊎ (0 < a % pmm_page_size) → pmm_free_page a s ≡ s
unfolding pmm_free_page
pmm_free_page_other s a h = ground arith
