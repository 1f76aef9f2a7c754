-- ===== src/Syscall/Whole.antt =====
-- The path that resolve_path_for_current of userspace/syscall.c resolves, against a walk from the
-- working directory.
use whirliscope.Prelude.{
  ℕ, suc, ◌+◌, ◌-◌, ◌<◌, ◌≡◌, ◌≢◌, refl, sym, ap, ap₂, ◌∙◌, List, [], ◌∷◌, ◌++◌, Bool, true, false,
  not, ◌&&◌, Option, none, some, ltb, ◌==◌, if◌then◌else◌, length, get_or, take, drop, arith,
  Bool-cases, ◌⊎◌, inl, inr,
}
use mathlib.Core.Option.{some-injective}
use whirliscope.Prelude.Slices.{take-drop, drop-cons, length-drop}
use whirliscope.Ext2.Paths.{slash, component}
use whirliscope.Syscall.{combine}
use whirliscope.Syscall.Resolve.{splits, visit, walk, visit_nothing, extend, splits-component}

walk-append :
    (xs ys : List (List ℕ)) (names : List (List ℕ))
    → walk (xs ++ ys) names ≡ walk ys (walk xs names)
walk-append [] ys names = refl
walk-append (x ∷ xs) ys names = walk-append xs ys (visit x names)

extend-append :
    (ch : ℕ) (xs ys : List (List ℕ)) (w : List ℕ) (ws : List (List ℕ))
    → xs ≡ w ∷ ws
    → extend ch (xs ++ ys) ≡ extend ch xs ++ ys
extend-append ch xs ys w ws e = rw e refl

splits-slash : (a b : List ℕ) → splits (a ++ slash ∷ b) ≡ splits a ++ splits b
splits-slash [] b = refl
splits-slash (ch ∷ a) b = elim (Bool-cases (ch == slash)) [
  | inl e ↦ rw e (ap (λ (x : List (List ℕ)). [] ∷ x) (splits-slash a b))
  | inr e ↦
      let (ws, f, g) = splits-component a in
      rw e (
        ap (extend ch) (splits-slash a b)
        ∙ extend-append ch (splits a) (splits b) (component a) ws f)
]

-- A walk along `a`, a slash and `b`.
walk-slash :
    (a b : List ℕ) (names : List (List ℕ))
    → walk (splits (a ++ slash ∷ b)) names ≡ walk (splits b) (walk (splits a) names)
walk-slash a b names =
    ap (λ (x : List (List ℕ)). walk x names) (splits-slash a b)
    ∙ walk-append (splits a) (splits b) names

-- The same where `a` ends with a slash itself.
walk-behind :
    (a b : List ℕ) (names : List (List ℕ))
    → 0 < length a
    → get_or a (length a - 1) 0 ≡ slash
    → walk (splits (a ++ b)) names ≡ walk (splits b) (walk (splits a) names)
walk-behind a b names some_char last =
    let k = length a - 1 in
    let none_left : drop (suc k) a ≡ [] =
      no_rest (drop (suc k) a) (omega (arith, length-drop (suc k) a)) in
    let whole : take k a ++ slash ∷ [] ≡ a =
      ap (λ t. take k a ++ t)
        (sym (drop-cons k a (omega arith) ∙ ap₂ (λ (y : ℕ) (ys : List ℕ). y ∷ ys) last none_left))
      ∙ take-drop k a in
    let longer : take k a ++ slash ∷ b ≡ a ++ b =
      sym (assoc (take k a) (slash ∷ []) b) ∙ ap (λ t. t ++ b) whole in
    ap (λ t. walk (splits t) names) (sym longer)
    ∙ walk-slash (take k a) b names
    ∙ ap (walk (splits b)) (
        visit_nothing (walk (splits (take k a)) names)
        ∙ sym (walk-slash (take k a) [] names)
        ∙ ap (λ t. walk (splits t) names) whole)
  where
    no_rest : (xs : List ℕ) → length xs ≡ 0 → xs ≡ []
    no_rest [] e = refl
    no_rest (x ∷ xs) e = absurd (omega arith)

    assoc : (a b c : List ℕ) → (a ++ b) ++ c ≡ a ++ (b ++ c)
    assoc [] b c = refl
    assoc (x ∷ a) b c = ap (λ t. x ∷ t) (assoc a b c)

-- Where a path leads: `names` are those that a walk from the root comes to, or from the working
-- directory for a path that does not begin with a slash.
pub record LeadsTo (cwd path : List ℕ) (names : List (List ℕ)) : Type 0 where
  pub absolute : get_or path 0 0 ≡ slash → names ≡ walk (splits (take 127 path)) []
  pub relative : get_or path 0 0 ≢ slash → names ≡ walk (splits path) (walk (splits cwd) [])

pub taken_else :
    (test : Bool) (m : Option (List ℕ)) (r : List ℕ)
    → (if test then none else m) ≡ some r
    → (test ≡ false) × (m ≡ some r)
taken_else true m r e = absurd (ground arith)
taken_else false m r e = (refl, e)

last_slash_or :
    (n c : ℕ)
    → (n ≡ 1 → c ≡ slash)
    → 0 < n
    → ((ltb 1 n && not (c == slash)) ≡ true) ⊎ ((ltb 1 n && not (c == slash)) ≡ false) × (c ≡ slash)
last_slash_or n c h some_char = elim (Bool-cases (c == slash)) [
  | inl e ↦ inr (ground arith, ground arith)
  | inr e ↦ elim (Bool-cases (ltb 1 n)) [
    | inl f ↦ inl (ground arith)
    | inr f ↦ inr (ground arith, h (ground arith))
  ]
]

one_char :
    (cwd : List ℕ)
    → get_or cwd 0 slash ≡ slash
    → length cwd ≡ 1
    → get_or cwd (length cwd - 1) 0 ≡ slash
one_char [] h e = absurd (omega arith)
one_char (c ∷ cwd) h e = rw e h

-- The parts of the path behind the working directory.
behind_cwd :
    (needs_slash : Bool) (cwd path : List ℕ)
    → 0 < length cwd
    → (needs_slash ≡ true) ⊎ (needs_slash ≡ false) × (get_or cwd (length cwd - 1) 0 ≡ slash)
    → walk (splits (cwd ++ ((if needs_slash then slash ∷ [] else []) ++ path))) []
      ≡ walk (splits path) (walk (splits cwd) [])
behind_cwd true cwd path some_char h = walk-slash cwd path []
behind_cwd false cwd path some_char (inl e) = absurd (ground arith)
behind_cwd false cwd path some_char (inr (e, last)) = walk-behind cwd path [] some_char last

combined_relative :
    (cwd path : List ℕ) (whole : List ℕ)
    → get_or cwd 0 slash ≡ slash
    → (get_or path 0 0 == slash) ≡ false
    → combine cwd path ≡ some whole
    → walk (splits whole) [] ≡ walk (splits path) (walk (splits cwd) [])
unfolding combine
combined_relative [] path whole rooted e found =
    let found1 : combine [] path
        ≡ (if ltb 128 (1 + 0 + length path + 1) then none else some (slash ∷ path)) =
      rw e refl in
    let (small, same) = taken_else _ _ whole (sym found1 ∙ found) in
    ap (λ w. walk (splits w) []) (sym (some-injective _ _ same))
combined_relative (c ∷ cwd) path whole rooted e found =
    let dir = c ∷ cwd in
    let some_dir : (length dir == 0) ≡ false = ground arith in
    let needs_slash = ltb 1 (length dir) && not (get_or dir (length dir - 1) 0 == slash) in
    let found1 : combine dir path ≡ (
        if ltb 128 (length dir + (if needs_slash then 1 else 0) + length path + 1)
        then none
        else some (dir ++ ((if needs_slash then slash ∷ [] else []) ++ path))) =
      rw (e, some_dir) refl in
    let (small, same) = taken_else _ _ whole (sym found1 ∙ found) in
    ap (λ w. walk (splits w) []) (sym (some-injective _ _ same))
    ∙ behind_cwd needs_slash dir path (omega arith) (
        last_slash_or (length dir) (get_or dir (length dir - 1) 0) (one_char dir rooted)
          (omega arith))

combined_absolute :
    (cwd path : List ℕ) (whole : List ℕ)
    → (get_or path 0 0 == slash) ≡ true
    → combine cwd path ≡ some whole
    → whole ≡ take 127 path
unfolding combine
combined_absolute cwd path whole e found =
    let found1 : combine cwd path ≡ some (take 127 path) = rw e refl in
    some-injective _ _ (sym found ∙ found1)

pub combine-LeadsTo :
    (cwd path whole : List ℕ)
    → get_or cwd 0 slash ≡ slash
    → combine cwd path ≡ some whole
    → LeadsTo cwd path (walk (splits whole) [])
combine-LeadsTo cwd path whole rooted found = record {
  absolute =
      λ e. ap (λ w. walk (splits w) []) (combined_absolute cwd path whole (ground arith) found);
  relative = λ n. combined_relative cwd path whole rooted (ground arith) found;
}
