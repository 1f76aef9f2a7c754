-- ===== src/Ext2/Paths/Split.antt =====
-- split_parent_path of fs/ext2.c: the path is the parent, a slash, the name and more slashes.
use whirliscope.Prelude.{
  ℕ, zero, suc, ◌+◌, ◌-◌, ◌≤◌, ◌<◌, ◌≡◌, ◌≢◌, ◌⊎◌, inl, inr, refl, sym, ap, ap₂, ◌∙◌, subst, List,
  [], ◌∷◌, ◌++◌, Bool, true, false, not, ◌||◌, none, some, ltb, leb, ◌==◌, if◌then◌else◌, length,
  get_or, take, drop, replicate, arith, Bool-cases,
}
use whirliscope.Prelude.Slices.{
  take-drop, drop-cons, drop-drop, length-take, get_or-take, get_or-drop, length-drop,
}
use whirliscope.Ext2.Directory.{name_max}
use whirliscope.Ext2.Paths.{slash, starts_at_root, trim, last_slash, split_parent_path}

-- A list of slashes only.
all_slashes :
    (xs : List ℕ)
    → ((i : ℕ) → i < length xs → get_or xs i 0 ≡ slash)
    → xs ≡ replicate (length xs) slash
all_slashes [] h = refl
all_slashes (x ∷ xs) h =
    ap₂ (λ (y : ℕ) (ys : List ℕ). y ∷ ys) (h 0 (omega arith))
      (all_slashes xs (λ i low. h (suc i) (omega arith)))

trim-le : (path : List ℕ) (n : ℕ) → trim path n ≤ n
unfolding trim
trim-le path zero = omega arith
trim-le path (suc zero) = omega arith
trim-le path (suc (suc n)) = ground (arith, trim-le path (suc n))

trim-slash : (path : List ℕ) (n i : ℕ) → trim path n ≤ i → i < n → get_or path i 0 ≡ slash
unfolding trim
trim-slash path zero i low high = absurd (omega arith)
trim-slash path (suc zero) i low high = absurd (omega arith)
trim-slash path (suc (suc n)) i low high = elim (Bool-cases (get_or path (suc n) 0 == slash)) [
  | inl e ↦
      let low' : trim path (suc n) ≤ i = rw e at low in
      elim (Bool-cases (i == suc n)) [
        | inl f ↦ let last : i ≡ suc n = ground arith in rw last (ground arith)
        | inr f ↦ trim-slash path (suc n) i low' (ground arith)
      ]
  | inr e ↦ let low' : suc (suc n) ≤ i = rw e at low in absurd (omega arith)
]

last_slash-le : (path : List ℕ) (n : ℕ) → last_slash path n ≤ n
unfolding last_slash
last_slash-le path zero = omega arith
last_slash-le path (suc n) = ground (arith, last_slash-le path n)

last_slash-slash :
    (path : List ℕ) (n : ℕ) → (last_slash path n ≡ 0) ⊎ (get_or path (last_slash path n) 0 ≡ slash)
unfolding last_slash
last_slash-slash path zero = inl refl
last_slash-slash path (suc n) = elim (Bool-cases (get_or path (suc n) 0 == slash)) [
  | inl e ↦ rw e (inr (ground arith))
  | inr e ↦ rw e (last_slash-slash path n)
]

last_slash-none :
    (path : List ℕ) (n i : ℕ) → last_slash path n < i → i ≤ n → get_or path i 0 ≢ slash
unfolding last_slash
last_slash-none path zero i low high = absurd (omega arith)
last_slash-none path (suc n) i low high = elim (Bool-cases (get_or path (suc n) 0 == slash)) [
  | inl e ↦ let low' : suc n < i = rw e at low in absurd (omega arith)
  | inr e ↦
      let low' : last_slash path n < i = rw e at low in
      elim (Bool-cases (i == suc n)) [
        | inl f ↦ let last : i ≡ suc n = ground arith in rw last (λ z. absurd (ground arith))
        | inr f ↦ last_slash-none path n i low' (ground arith)
      ]
]

-- `parent` and `name` as parts of `path`, which has `before` before the slash in front of the name.
pub record IsSplit (path : List ℕ) (parent_size : ℕ) (parent name : List ℕ) : Type 0 where
  pub rooted : get_or path 0 0 ≡ slash
  pub before : List ℕ
  pub trailing : ℕ
  pub whole : path ≡ before ++ slash ∷ (name ++ replicate trailing slash)
  pub parent_lem : parent ≡ (if length before == 0 then slash ∷ [] else before)
  pub parent_fits : length parent < parent_size
  pub some_name : 0 < length name
  pub short_name : length name ≤ name_max
  pub no_slash : (i : ℕ) → i < length name → get_or name i 0 ≢ slash

root_slash : (path : List ℕ) → starts_at_root path ≡ true → get_or path 0 0 ≡ slash
root_slash path e = ground arith

module _ (path : List ℕ) (rooted : starts_at_root path ≡ true) where
  len : ℕ
  len = trim path (length path)

  at : ℕ
  at = last_slash path (len - 1)

  name_of : List ℕ
  name_of = take (len - at - 1) (drop (at + 1) path)

  at-slash : get_or path at 0 ≡ slash
  unfolding at
  at-slash = elim (last_slash-slash path (len - 1)) [ inl z ↦ rw z (ground arith) | inr e ↦ e ]

  whole_path :
      at < len → path ≡ take at path ++ slash ∷ (name_of ++ replicate (length path - len) slash)
  unfolding len at name_of
  whole_path small =
      let n = length path in
      let k = len - at - 1 in
      let below = trim-le path n in
      let behind : at + 1 + k ≡ len = omega arith in
      let tail : drop len path ≡ replicate (n - len) slash =
        all_slashes (drop len path) (λ i low.
          get_or-drop i len path
          ∙ trim-slash path n (len + i) (omega arith) (omega (arith, length-drop len path)))
        ∙ ap (λ j. replicate j slash) (length-drop len path) in
      let rest : drop (at + 1) path ≡ name_of ++ replicate (n - len) slash =
        sym (take-drop k (drop (at + 1) path))
        ∙ ap (λ t. name_of ++ t)
            (drop-drop k (at + 1) path ∙ ap (λ j. drop j path) behind ∙ tail) in
      let next : suc at ≡ at + 1 = omega arith in
      sym (take-drop at path)
      ∙ ap (λ t. take at path ++ t)
          (drop-cons at path (omega arith)
            ∙ ap₂ (λ (y : ℕ) (ys : List ℕ). y ∷ ys) at-slash (ap (λ j. drop j path) next ∙ rest))

  length-name_of : at < len → length name_of ≡ len - at - 1
  unfolding name_of len at
  length-name_of small =
      length-take (len - at - 1) (drop (at + 1) path)
        (omega (arith, length-drop (at + 1) path, trim-le path (length path)))

  name_of-slash : (i : ℕ) → at < len → i < len - at - 1 → get_or name_of i 0 ≢ slash
  unfolding name_of len at
  name_of-slash i small low e =
      last_slash-none path (len - 1) (at + 1 + i) (omega arith) (omega arith) (
        sym (get_or-take i (len - at - 1) (drop (at + 1) path) low ∙ get_or-drop i (at + 1) path)
        ∙ e)

  length-before : at < len → length (take at path) ≡ at
  unfolding len
  length-before small = length-take at path (omega (arith, trim-le path (length path)))

  at-lt : 1 < len → at < len
  unfolding at len
  at-lt h = omega (arith, last_slash-le path (len - 1))

-- Which branch of the tests gave the result.
picked {ℓ} :
    {A : Type ℓ} (c1 c2 c3 c4 c5 c6 : Bool) (x y r : A)
    → (if c1
        then none
        else if c2
        then none
        else if c3
        then none
        else if c4
        then if c5 then none else some x
        else if c6
        then none
        else some y)
      ≡ some r
    → (c1 ≡ false)
      × (c2 ≡ false)
      × (c3 ≡ false)
      × ((c4 ≡ true) × (c5 ≡ false) × (x ≡ r) ⊎ (c4 ≡ false) × (c6 ≡ false) × (y ≡ r))
picked true c2 c3 c4 c5 c6 x y r e = absurd (ground arith)
picked false true c3 c4 c5 c6 x y r e = absurd (ground arith)
picked false false true c4 c5 c6 x y r e = absurd (ground arith)
picked false false false true true c6 x y r e = absurd (ground arith)
picked false false false true false c6 x y r e = (refl, refl, refl, inl (refl, refl, cc))
picked false false false false c5 true x y r e = absurd (ground arith)
picked false false false false c5 false x y r e = (refl, refl, refl, inr (refl, refl, cc))

module _ (path : List ℕ) (rooted : starts_at_root path ≡ true) (two : 1 < len path rooted) where
  -- The parts of a path that passes the tests, for either form of the parent.
  cut-IsSplit :
      (parent_size : ℕ) (parent : List ℕ)
      → parent ≡ (if at path rooted == 0 then slash ∷ [] else take (at path rooted) path)
      → length parent < parent_size
      → 0 < len path rooted - at path rooted - 1
      → len path rooted - at path rooted - 1 ≤ name_max
      → IsSplit path parent_size parent (name_of path rooted)
  cut-IsSplit parent_size parent form fits some_left short =
      let small = at-lt path rooted two in
      let named = length-name_of path rooted small in
      record {
        rooted = root_slash path rooted;
        before = take (at path rooted) path;
        trailing = length path - len path rooted;
        whole = whole_path path rooted small;
        parent_lem =
            form
            ∙ ap (λ n. if n == 0 then slash ∷ [] else take (at path rooted) path)
                (sym (length-before path rooted small));
        parent_fits = fits;
        some_name = omega (arith, named);
        short_name = omega (arith, named);
        no_slash = λ i low. name_of-slash path rooted i small (omega (arith, named));
      }

root_tested : (rooted empty : Bool) → (empty || not rooted) ≡ false → rooted ≡ true
root_tested true empty e = refl
root_tested false true e = absurd (ground arith)
root_tested false false e = absurd (ground arith)

name_tested : (n : ℕ) → (n == 0 || ltb name_max n) ≡ false → (0 < n) × (n ≤ name_max)
name_tested n e = ground arith

fits_tested : (size n : ℕ) → ltb size n ≡ false → n ≤ size
fits_tested size n e = ground arith

-- A path that is split begins with a slash and is the parent, a slash, the name and any number of
-- slashes, where the parent `/` stands for nothing before the slash; the name has from 1 to 255
-- characters and no slash among them, and the parent with its zero byte fits its buffer.
pub split_parent_path-IsSplit :
    (path : List ℕ) (parent_size : ℕ) {parent name : List ℕ}
    → split_parent_path path parent_size ≡ some (parent, name)
    → IsSplit path parent_size parent name
unfolding split_parent_path len at name_of
split_parent_path-IsSplit path parent_size {parent} {name} e =
    let n = trim path (length path) in
    let k = last_slash path (n - 1) in
    let named = take (n - k - 1) (drop (k + 1) path) in
    let (c1, c2, c3, branch) =
      picked (parent_size == 0 || not (starts_at_root path)) (leb n 1)
        (n - k - 1 == 0 || ltb name_max (n - k - 1)) (k == 0) (ltb parent_size 2)
        (ltb parent_size (k + 1)) (slash ∷ [], named) (take k path, named) (parent, name) e in
    let rooted = root_tested (starts_at_root path) (parent_size == 0) c1 in
    let two : 1 < n = ground arith in
    let (some_left, short) = name_tested (n - k - 1) c3 in
    elim branch [
      | inl (c4, c5, same) ↦
          subst (λ r. IsSplit path parent_size r.0 r.1) same
            (cut-IsSplit path rooted two parent_size (slash ∷ []) (rw c4) (ground arith) some_left
              short)
      | inr (c4, c6, same) ↦
          subst (λ r. IsSplit path parent_size r.0 r.1) same
            (cut-IsSplit path rooted two parent_size (take k path) (rw c4)
              (omega (
                arith,
                length-before path rooted (at-lt path rooted two),
                fits_tested parent_size (k + 1) c6,
              ))
              some_left short)
    ]
