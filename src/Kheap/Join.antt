-- ===== src/Kheap/Join.antt =====
-- The merge of a free block with the one before it, at the end of kfree and of expand_heap in
-- memory/heap.c.
use whirliscope.Prelude.{
  ℕ, ◌+◌, ◌%◌, ◌^◌, ◌<◌, ◌≡◌, refl, sym, ap, ◌∙◌, subst, ◌⊎◌, inl, inr, Bool, true, false, not,
  ◌&&◌, List, [], ◌∷◌, ◌++◌, arith, ◌==◌, if◌then◌else◌, Bool-cases,
}
use mathlib.Core.List.{append_assoc}
use whirliscope.Kheap.Blocks.{null, Links, coalesce_with_next}
use whirliscope.Kheap.Blocks.Layout.{Cell, end_of, IsLayout, end_of-le, end_of-append, tail-Seg}
use whirliscope.Kheap.Blocks.Coalesce.{merge_cells, coalesce-IsLayout}
use whirliscope.Kheap.Cells.{Sound, Sound-split, Sound-append, last_free}
use whirliscope.Kheap.Joined.{IsJoined, IsJoined-refl, IsJoined-append, IsJoined-merge, snoc-cases}

-- The last step of kfree and of expand_heap: the block before the one at `p` takes it in, if it is free.
abbrev pub join_before : ℕ → Links → Links
join_before p l =
    let before = (l.block p).prev in
    if not (before == null) && (l.block before).free then coalesce_with_next before l else l

-- The list `l` now stands for blocks that come from `xs` by merging free neighbours.
abbrev pub Rejoined : Links → ℕ → List Cell → Type 0
Rejoined l start xs =
    (xs' : List Cell) × IsLayout l start xs' × IsJoined start xs xs' × Sound false xs'

join_yes :
    (l : Links) (p q : ℕ)
    → (l.block p).prev ≡ q
    → 0 < q
    → (l.block q).free ≡ true
    → join_before p l ≡ coalesce_with_next q l
join_yes l p q e pos f = ground arith

join_none :
    (l : Links) (p q : ℕ)
    → (l.block p).prev ≡ q
    → (q ≡ null) ⊎ ((l.block q).free ≡ false)
    → join_before p l ≡ l
join_none l p q e f = ground arith

pub Sound-set : {f g : Bool} (xs : List Cell) → f ≡ g → Sound f xs → Sound g xs
Sound-set xs e s = subst (λ f. Sound f xs) e s

Sound-absorb :
    (f : Bool) (d m : Cell) (ws : List Cell)
    → m.free ≡ true
    → d.free ≡ true
    → d.size % 16 ≡ 0
    → m.size % 16 ≡ 0
    → (f && d.free) ≡ false
    → Sound true ws
    → Sound f (merge_cells d (m ∷ ws))
unfolding merge_cells
Sound-absorb f d m ws idle e u w apart t = simp idle (omega arith, apart, Sound-set ws (sym e) t)

module _ (l : Links) (start : ℕ) (us : List Cell) (d m : Cell) (ws : List Cell) (pos : 0 < start)
    (small : end_of start (us ++ d ∷ m ∷ ws) < 2 ^ 64) (v : IsLayout l start (us ++ d ∷ m ∷ ws))
    (s : Sound false (us ++ d ∷ [])) (u : m.size % 16 ≡ 0) (idle : m.free ≡ true)
    (t : Sound true ws) where
  abbrev here : ℕ
  here = end_of start us + 32 + d.size

  before : (l.block here).prev ≡ end_of start us
  before = (tail-Seg us (d ∷ m ∷ ws) v).1.0.prev

  state : (l.block (end_of start us)).free ≡ d.free
  state = (tail-Seg us (d ∷ m ∷ ws) v).0.free

  parts : Sound false us × Sound (last_free false us) (d ∷ [])
  parts = Sound-split false us (d ∷ []) s

  join_snoc : Rejoined (join_before here l) start (us ++ d ∷ m ∷ ws)
  join_snoc = elim (Bool-cases d.free) [
    | inl free ↦
        rw
          (join_yes l here (end_of start us) before (omega (arith, end_of-le start us))
            (state ∙ free))
          (
            us ++ merge_cells d (m ∷ ws),
            coalesce-IsLayout l start us d (m ∷ ws) small v,
            IsJoined-append start us (IsJoined-merge (end_of start us) d (m ∷ ws) free),
            Sound-append false us _ parts.0
                (Sound-absorb (last_free false us) d m ws idle free parts.1.0 u parts.1.1 t),
          )
    | inr busy ↦ rw (join_none l here (end_of start us) before (inr (state ∙ busy))) (
      us ++ d ∷ m ∷ ws,
      v,
      IsJoined-refl start _,
      Sound-append false us _ parts.0
          (parts.1.0, parts.1.1, (u, ap (λ f. f && m.free) busy, Sound-set ws (sym idle) t)),
    )
  ]

pub join_before-Rejoined :
    (l : Links) (start : ℕ) (ys : List Cell) (m : Cell) (ws : List Cell)
    → 0 < start
    → end_of start (ys ++ m ∷ ws) < 2 ^ 64
    → IsLayout l start (ys ++ m ∷ ws)
    → Sound false ys
    → m.size % 16 ≡ 0
    → m.free ≡ true
    → Sound true ws
    → Rejoined (join_before (end_of start ys) l) start (ys ++ m ∷ ws)
join_before-Rejoined l start [] m ws pos small v s u idle t =
    rw (join_none l start null v.seg.0.prev (inl refl))
      (m ∷ ws, v, IsJoined-refl start _, (u, refl, Sound-set ws (sym idle) t))
join_before-Rejoined l start (y ∷ ys) m ws pos small v s u idle t = elim (snoc-cases (y ∷ ys)) [
  | inl e ↦ cc
  | inr (us, d, e) ↦
      let e' : (y ∷ ys) ++ m ∷ ws ≡ us ++ d ∷ m ∷ ws =
        ap (λ l. l ++ m ∷ ws) e ∙ append_assoc us (d ∷ []) (m ∷ ws) in
      let at : end_of start us + 32 + d.size ≡ end_of start (y ∷ ys) =
        sym (ap (end_of start) e ∙ end_of-append start us (d ∷ [])) in
      subst (λ q. Rejoined (join_before q l) start ((y ∷ ys) ++ m ∷ ws)) at
        (subst (λ xs. Rejoined (join_before (end_of start us + 32 + d.size) l) start xs) (sym e')
          (join_snoc l start us d m ws pos (subst (λ xs. end_of start xs < 2 ^ 64) e' small)
            (subst (IsLayout l start) e' v) (subst (Sound false) e s) u idle t))
]
