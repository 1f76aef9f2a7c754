-- ===== src/Stdio/Text.antt =====
-- What the emit_* functions of libc/stdio.c emit, as texts.
use whirliscope.Prelude.{
  ℕ, zero, suc, ◌-◌, ◌≡◌, refl, sym, ap, ◌∙◌, List, [], ◌∷◌, ◌++◌, Bool, true, false, not, ◌&&◌,
  ltb, ◌==◌, if◌then◌else◌, length, get_or, replicate,
}
use whirliscope.Prelude.Int.{is_neg}
use mathlib.Core.List.{reverse, reverse-cons}
use whirliscope.Stdio.Emit.{
  Out, Number, emit_char, emit_repeat, emit_chars, emit_padded_string, emit_digits, emit_number,
  format_unsigned, digit_len, zeroes, spaces, is_zero,
}

abbrev padding : List ℕ → ℕ → ℕ
padding s width = if ltb (length s) width then width - length s else 0

-- The text of a string in a field, blanks on the side that is not adjusted to.
abbrev pub padded_text : List ℕ → (width : ℕ) → (left_adjust : Bool) → List ℕ
padded_text s width left_adjust =
    let blanks = replicate (if ltb (length s) width then width - length s else 0) b' ' in
    if left_adjust then s ++ blanks else blanks ++ s

-- The digits of a number, the first digit first; none where both precision and value are zero.
abbrev pub digits_text : Number → List ℕ
digits_text n =
    if is_zero n.precision && n.value == 0
    then []
    else reverse (format_unsigned n.value n.base n.uppercase)

abbrev pub filled : Bool → ℕ → ℕ → List ℕ
filled test ch count = if test then replicate count ch else []

-- The text of a number: blanks, sign, prefix, zeroes that fill the field, zeroes that the
-- precision asks for, digits, blanks.
abbrev pub number_text : Number → List ℕ
number_text n =
    filled (not n.left_adjust && not n.zero_pad) b' ' (spaces n)
    ++ ((if n.negative then b'-' ∷ [] else [])
        ++ (n.prefix
            ++ (filled (not n.left_adjust && (n.zero_pad && is_neg n.precision)) b'0' (spaces n)
                ++ (replicate (zeroes n) b'0'
                    ++ (digits_text n ++ filled n.left_adjust b' ' (spaces n))))))

module _ {ℓ} {S : Type ℓ} (put : ℕ → ℕ → S → S) where
  pub emit_chars-append :
      (o : Out S) (s t : List ℕ) → emit_chars put o (s ++ t) ≡ emit_chars put (emit_chars put o s) t
  unfolding emit_chars
  emit_chars-append o [] t = refl
  emit_chars-append o (ch ∷ s) t = emit_chars-append (emit_char put o ch) s t

  pub emit_repeat-replicate :
      (o : Out S) (ch count : ℕ)
      → emit_repeat put o ch count ≡ emit_chars put o (replicate count ch)
  unfolding emit_repeat emit_chars
  emit_repeat-replicate o ch zero = refl
  emit_repeat-replicate o ch (suc count) = emit_repeat-replicate (emit_char put o ch) ch count

  -- An emission under a test.
  emit_repeat-filled :
      (test : Bool) (o : Out S) (ch count : ℕ)
      → (if test then emit_repeat put o ch count else o) ≡ emit_chars put o (filled test ch count)
  unfolding emit_chars
  emit_repeat-filled true o ch count = emit_repeat-replicate o ch count
  emit_repeat-filled false o ch count = refl

  emit_char-sign :
      (negative : Bool) (o : Out S)
      → (if negative then emit_char put o b'-' else o)
        ≡ emit_chars put o (if negative then b'-' ∷ [] else [])
  unfolding emit_chars
  emit_char-sign true o = refl
  emit_char-sign false o = refl

  pub emit_padded_string-text :
      (o : Out S) (s : List ℕ) (width : ℕ) (left_adjust : Bool)
      → emit_padded_string put o s width left_adjust
        ≡ emit_chars put o (padded_text s width left_adjust)
  unfolding emit_padded_string
  emit_padded_string-text o s width true =
      emit_repeat-replicate (emit_chars put o s) b' ' (padding s width)
      ∙ sym (emit_chars-append o s (replicate (padding s width) b' '))
  emit_padded_string-text o s width false =
      ap (λ x. emit_chars put x s) (emit_repeat-replicate o b' ' (padding s width))
      ∙ sym (emit_chars-append o (replicate (padding s width) b' ') s)

-- The characters that emit_digits takes, from number `n - 1` down.
down : List ℕ → ℕ → List ℕ
down digits zero = []
down digits (suc i) = get_or digits i 0 ∷ down digits i

down-cons : (d : ℕ) (ds : List ℕ) (n : ℕ) → down (d ∷ ds) (suc n) ≡ down ds n ++ d ∷ []
unfolding down
down-cons d ds zero = refl
down-cons d ds (suc n) = ap (λ t. get_or ds n 0 ∷ t) (down-cons d ds n)

down-reverse : (ds : List ℕ) → down ds (length ds) ≡ reverse ds
unfolding down
down-reverse [] = refl
down-reverse (d ∷ ds) =
    down-cons d ds (length ds) ∙ ap (λ t. t ++ d ∷ []) (down-reverse ds) ∙ sym (reverse-cons d ds)

module _ {ℓ} {S : Type ℓ} (put : ℕ → ℕ → S → S) where
  emit_digits-down :
      (o : Out S) (ds : List ℕ) (n : ℕ) → emit_digits put o ds n ≡ emit_chars put o (down ds n)
  unfolding emit_digits down emit_chars
  emit_digits-down o ds zero = refl
  emit_digits-down o ds (suc n) = emit_digits-down (emit_char put o (get_or ds n 0)) ds n

  digits_chosen :
      (none_at_all : Bool) (o : Out S) (ds : List ℕ)
      → emit_digits put o ds (if none_at_all then 0 else length ds)
        ≡ emit_chars put o (if none_at_all then [] else reverse ds)
  unfolding emit_digits emit_chars
  digits_chosen true o ds = refl
  digits_chosen false o ds =
      emit_digits-down o ds (length ds) ∙ ap (emit_chars put o) (down-reverse ds)

  pub emit_digits-text :
      (o : Out S) (n : Number)
      → emit_digits put o (format_unsigned n.value n.base n.uppercase) (digit_len n)
        ≡ emit_chars put o (digits_text n)
  unfolding digit_len
  emit_digits-text o n =
      digits_chosen (is_zero n.precision && n.value == 0) o
        (format_unsigned n.value n.base n.uppercase)

  pub emit_number-text :
      (o : Out S) (n : Number) → emit_number put o n ≡ emit_chars put o (number_text n)
  unfolding emit_number
  emit_number-text o n =
      simp (emit_repeat-filled put, emit_char-sign put)
        (simp (emit_repeat-replicate put, emit_digits-text, emit_chars-append put))
