-- ===== src/Process/Pages/Break.antt =====
-- The program break that process_sbrk of userspace/process.c moves.
use whirliscope.Prelude.{
  ℕ, ◌+◌, ◌*◌, ◌%◌, ◌^◌, ◌≤◌, ◌<◌, ◌≡◌, refl, sym, ap, subst, ◌⊎◌, inl, inr, Bool, true, false,
  ◌||◌, ltb, ◌==◌, add64, align_up, arith, Bool-cases,
}
use whirliscope.Prelude.Int.{ℤ, pos, negsuc}
use whirliscope.Process.{Process}
use whirliscope.Process.Pages.{
  SpaceOps, Machine, vmm_page_size, map_zero_pages, pages_between, process_sbrk,
}
use whirliscope.Process.Pages.Run.{
  PagesMapped, StopsBefore, map_zero_pages-PagesMapped, map_zero_pages-StopsBefore,
}

-- process_sbrk keeps the break between the start and the end of the heap.
pub record IsBreak (p : Process) : Type 0 where
  pub aligned : p.heap_start % vmm_page_size ≡ 0
  pub low : p.heap_start ≤ p.heap_current
  pub high : p.heap_current ≤ p.heap_end
  pub limit : p.heap_end < 2 ^ 63

break_room :
    (current end amount new : ℕ)
    → current ≤ end
    → end < 2 ^ 63
    → amount < 2 ^ 63
    → new ≡ add64 current amount
    → (ltb new current || ltb end new) ≡ false
    → (new ≡ current + amount) × (current + amount ≤ end)
break_room current end amount new high limit small e h = (ground arith, ground arith)

no_room :
    (current end amount new : ℕ)
    → current ≤ end
    → end < 2 ^ 63
    → amount < 2 ^ 63
    → new ≡ add64 current amount
    → (ltb new current || ltb end new) ≡ true
    → end < current + amount
no_room current end amount new high limit small e h = ground arith

-- `n` pages from `a` on are those between two breaks: `a` is the first place for a page from the
-- old break on, and the last page is the one that the new break needs.
pub record Spans (old new n a : ℕ) : Type 0 where
  pub unit : a % 4096 ≡ 0
  pub from_old : (old ≤ a) × (a < old + 4096)
  pub covers : new ≤ a + n * 4096
  pub no_more : a + n * 4096 < new + 4096

pages_between-Spans :
    (current new : ℕ)
    → current ≤ new
    → new < 2 ^ 63
    → Spans current new (pages_between current new) (align_up current 4096)
pages_between-Spans current new le limit = record {
  unit = omega arith;
  from_old = (omega arith, omega arith);
  covers = omega arith;
  no_more = omega arith;
}

nothing-Spans :
    (current new : ℕ)
    → current < 2 ^ 63
    → current ≡ new
    → Spans current new 0 (align_up current 4096)
nothing-Spans current new limit same = record {
  unit = omega arith;
  from_old = (omega arith, omega arith);
  covers = omega arith;
  no_more = omega arith;
}

module _ {P : Type 0} (ops : SpaceOps P) where
  -- How a call of process_sbrk ends: the break moves up and the pages up to it are mapped; or the
  -- process stays as it is, since the increment is negative, the heap has no room for it, or one of
  -- those pages was refused.
  pub Moved : Process → ℤ → Machine P → Bool × ℕ × Process × Machine P → Type 0
  Moved p (negsuc n) w (done, old, p', u) = (done ≡ false) × (p' ≡ p) × (u ≡ w)
  Moved p (pos n) w (true, old, p', u) =
      (p.heap_current + n ≤ p.heap_end)
      × (p' ≡ record p { heap_current = p.heap_current + n })
      × (k : ℕ) × (a : ℕ) × Spans p.heap_current (p.heap_current + n) k a
      × PagesMapped ops p.pml4_phys k a w u
  Moved p (pos n) w (false, old, p', u) =
      (p' ≡ p)
      × ((p.heap_end < p.heap_current + n)
          ⊎ ((k : ℕ) × (a : ℕ) × Spans p.heap_current (p.heap_current + n) k a
              × StopsBefore ops p.pml4_phys k a w))

  -- process_sbrk, for an increment below 2 ^ 63 and a break between the two ends of the heap, which
  -- begins at a page and ends below 2 ^ 63: it reports the break from before the call, and moves it up by the increment after it has taken a page for each place of a page
  -- from the old break up to the new one, cleared it and mapped it there for the program. It
  -- leaves the process as it is only for a negative increment, for one that passes the end of the
  -- heap, and where one of those pages cannot be had or mapped. The break stays between the ends.
  pub process_sbrk-Moved :
      (p : Process) (increment : ℤ) (w : Machine P)
      → IsBreak p
      → ((n : ℕ) → increment ≡ pos n → n < 2 ^ 63)
      → let r = process_sbrk ops p increment w in
        IsBreak r.2 × (r.1 ≡ p.heap_current) × Moved p increment w r
  unfolding process_sbrk Moved
  process_sbrk-Moved p (negsuc n) w v small = (v, refl, (refl, refl, refl))
  process_sbrk-Moved p (pos amount) w v small =
      let new = add64 p.heap_current amount in
      let current = p.heap_current in
      elim (Bool-cases (amount == 0)) [
        | inl nothing ↦
            let none_more : current ≡ current + amount = ground arith in
            rw nothing (
              v,
              refl,
              (
                omega (arith, none_more, v.high),
                ap (λ c. record p { heap_current = c }) none_more,
                0,
                align_up current 4096,
                nothing-Spans current (current + amount) (omega (arith, v.limit, v.high)) none_more,
                refl,
              ),
            )
        | inr some ↦ elim (Bool-cases (ltb new current || ltb p.heap_end new)) [
          | inl out ↦
              rw (some, out)
                (
                  v,
                  refl,
                  (
                    refl,
                    inl (
                        no_room current p.heap_end amount new v.high v.limit (small amount refl)
                          refl out),
                  ),
                )
          | inr fits ↦
              let (same, room) =
                break_room current p.heap_end amount new v.high v.limit (small amount refl) refl
                  fits in
              let run =
                map_zero_pages ops (pages_between current new) p.pml4_phys (align_up current 4096)
                  w in
              let spans : Spans current (current + amount) (pages_between current new)
                  (align_up current 4096) =
                subst
                  (λ n.
                    Spans current (current + amount) (pages_between current n)
                      (align_up current 4096))
                  (sym same)
                  (pages_between-Spans current (current + amount) (omega arith)
                    (omega (arith, v.limit))) in
              elim (Bool-cases run.0) [
                | inl ok ↦
                    rw (some, fits, ok)
                      (
                        record {
                          aligned = v.aligned;
                          low = omega (arith, v.low, same);
                          high = omega (arith, same, room);
                          limit = v.limit;
                        },
                        refl,
                        (
                          room,
                          ap (λ c. record p { heap_current = c }) same,
                          pages_between current new,
                          align_up current 4096,
                          spans,
                          map_zero_pages-PagesMapped ops p.pml4_phys (pages_between current new)
                              (align_up current 4096) w ok,
                        ),
                      )
                | inr failed ↦
                    rw (some, fits, failed)
                      (
                        v,
                        refl,
                        (
                          refl,
                          inr (
                            pages_between current new,
                            align_up current 4096,
                            spans,
                            map_zero_pages-StopsBefore ops p.pml4_phys (pages_between current new)
                                (align_up current 4096) w failed,
                          ),
                        ),
                      )
              ]
        ]
      ]
