-- ===== src/Syscall/Resolve.antt =====
-- resolve_path_for_current of userspace/syscall.c against a walk over the names of the path.
use whirliscope.Prelude.{
  ℕ, zero, suc, ◌<◌, ◌≡◌, ◌≢◌, refl, ap, ◌∙◌, List, [], ◌∷◌, ◌++◌, Bool, false, ◌&&◌, ◌||◌, ◌==◌,
  if◌then◌else◌, length, get_or, drop, arith, Bool-cases, inl, inr,
}
use whirliscope.Ext2.Paths.{slash, skip_slashes, component}

-- `.` and `..`.
abbrev pub is_here : List ℕ → Bool
is_here name = length name == 1 && get_or name 0 0 == b'.'

abbrev pub is_up : List ℕ → Bool
is_up name = length name == 2 && (get_or name 0 0 == b'.' && get_or name 1 0 == b'.')

abbrev pub extend : ℕ → List (List ℕ) → List (List ℕ)
extend ch [] = (ch ∷ []) ∷ []
extend ch (w ∷ ws) = (ch ∷ w) ∷ ws

-- The parts of a path between slashes, empty ones too.
abbrev pub splits : List ℕ → List (List ℕ)
splits [] = [] ∷ []
splits (ch ∷ path) = if ch == slash then [] ∷ splits path else extend ch (splits path)

-- A directory as the names that lead to it, the last one first; and one part of a path followed.
abbrev pub visit : List ℕ → List (List ℕ) → List (List ℕ)
visit name [] = if is_here name || (is_up name || length name == 0) then [] else name ∷ []
visit name (last ∷ names) =
    if is_here name
    then last ∷ names
    else if is_up name
    then names
    else if length name == 0
    then last ∷ names
    else name ∷ last ∷ names

abbrev pub walk : List (List ℕ) → List (List ℕ) → List (List ℕ)
walk [] names = names
walk (w ∷ ws) names = walk ws (visit w names)

-- The names as a path.
abbrev pub body : List (List ℕ) → List ℕ
body [] = []
body (name ∷ names) = body names ++ slash ∷ name

abbrev pub render : List (List ℕ) → List ℕ
render [] = slash ∷ []
render (name ∷ names) = body (name ∷ names)

-- A name of a path without `.`, `..`, empty parts and slashes inside.
pub record IsName (name : List ℕ) : Type 0 where
  pub nonempty : 0 < length name
  pub no_slash : (i : ℕ) → i < length name → get_or name i 0 ≢ slash
  pub not_here : is_here name ≡ false
  pub not_up : is_up name ≡ false

abbrev pub AllNames : List (List ℕ) → Type 0
AllNames [] = Unit
AllNames (name ∷ names) = IsName name × AllNames names

pub visit_nothing : (names : List (List ℕ)) → names ≡ visit [] names
visit_nothing [] = refl
visit_nothing (n ∷ names) = refl

-- The first part of a path, and how the walk goes on behind it.
pub splits-component :
    (path : List ℕ)
    → (ws : List (List ℕ)) × (splits path ≡ component path ∷ ws)
      × ((names : List (List ℕ))
          → walk ws names ≡ walk (splits (drop (length (component path)) path)) names)
unfolding component
splits-component [] = ([], refl, λ names. visit_nothing names)
splits-component (ch ∷ path) = elim (Bool-cases (ch == slash)) [
  | inl e ↦ rw e (splits path, refl, λ names. rw e (ap (walk (splits path)) (visit_nothing names)))
  | inr e ↦ let (ws, f, g) = splits-component path in rw e (ws, ap (extend ch) f, g)
]

pub walk-skip_slashes :
    (path : List ℕ) (names : List (List ℕ))
    → walk (splits (skip_slashes path)) names ≡ walk (splits path) names
unfolding skip_slashes
walk-skip_slashes [] names = refl
walk-skip_slashes (ch ∷ path) names = elim (Bool-cases (ch == slash)) [
  | inl e ↦ rw e (walk-skip_slashes path names ∙ ap (walk (splits path)) (visit_nothing names))
  | inr e ↦ rw e (rw e refl)
]

pub component-no_slash :
    (path : List ℕ) (i : ℕ) → i < length (component path) → get_or (component path) i 0 ≢ slash
unfolding component
component-no_slash [] i low = absurd (omega arith)
component-no_slash (ch ∷ path) i low = elim (Bool-cases (ch == slash)) [
  | inl e ↦ let none_left : i < 0 = rw e at low in absurd (omega arith)
  | inr e ↦ rw e (first ch (component path) i e (rw e at low) (component-no_slash path))
]
  where
    first :
        (ch : ℕ) (rest : List ℕ) (i : ℕ)
        → (ch == slash) ≡ false
        → i < suc (length rest)
        → ((j : ℕ) → j < length rest → get_or rest j 0 ≢ slash)
        → get_or (ch ∷ rest) i 0 ≢ slash
    first ch rest zero e low h = λ z. absurd (ground arith)
    first ch rest (suc i) e low h = h i (omega arith)
