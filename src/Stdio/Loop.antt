-- ===== src/Stdio/Loop.antt =====
-- The loop of vformat in libc/stdio.c over the format.
use whirliscope.Prelude.{
  ℕ, zero, suc, ◌≤◌, ◌<◌, ◌≡◌, refl, sym, ap, ◌∙◌, List, [], ◌∷◌, Option, none, some, ◌==◌,
  if◌then◌else◌, length, arith, Bool, true, false, Bool-cases, inl, inr,
}
use whirliscope.Stdio.{convert, conversion, after_percent, format_loop, vformat}
use whirliscope.Stdio.Emit.{Out, emit_char, emit_chars}
use whirliscope.Stdio.Parse.{Spec, Args, parse_spec}
use whirliscope.Stdio.Shorter.{parse_spec-length}
use whirliscope.Stdio.Text.{emit_chars-append}
use whirliscope.Stdio.Format.{collect, blank, emit_chars-collect, sent, convert_text, convert-text}

-- The text that was collected, emitted from `o` on.
unfoldable pub fed {ℓ} :
    {S : Type ℓ} (put : ℕ → ℕ → S → S) → Out S → Option (Out (List ℕ)) → Option (Out S)
fed put o none = none
fed put o (some t) = some (emit_chars put o t.ctx)

module _ {ℓ} {S : Type ℓ} (text_at : ℕ → List ℕ) (put : ℕ → ℕ → S → S) where
  fed_char :
      (o o1 : Out S) (t : Out (List ℕ)) (ch : ℕ)
      → o1 ≡ emit_chars put o t.ctx
      → emit_char put o1 ch ≡ emit_chars put o (emit_char collect t ch).ctx
  unfolding emit_char emit_chars
  fed_char o o1 t ch e =
      ap (λ x. emit_char put x ch) e ∙ sym (emit_chars-append put o t.ctx (ch ∷ []))

  fed_convert :
      (o o1 : Out S) (t : Out (List ℕ)) (s : Spec) (spec : ℕ)
      → o1 ≡ emit_chars put o t.ctx
      → (convert text_at put o1 s spec).0
        ≡ emit_chars put o (convert text_at collect t s spec).0.ctx
  unfolding sent
  fed_convert o o1 t s spec e =
      let text = (convert_text text_at s spec).0 in
      ap (λ x. x.0) (convert-text text_at put o1 s spec)
      ∙ ap (λ x. emit_chars put x text) e
      ∙ sym (emit_chars-append put o t.ctx text)
      ∙ ap (emit_chars put o) (
          sym (emit_chars-collect t text)
          ∙ ap (λ x. x.0.ctx) (sym (convert-text text_at collect t s spec)))

  convert_args :
      (o1 : Out S) (t : Out (List ℕ)) (s : Spec) (spec : ℕ)
      → (convert text_at put o1 s spec).1 ≡ (convert text_at collect t s spec).1
  unfolding sent
  convert_args o1 t s spec =
      ap (λ x. x.1) (convert-text text_at put o1 s spec)
      ∙ ap (λ x. x.1) (sym (convert-text text_at collect t s spec))

  Follows : ℕ → Type ℓ
  Follows k =
      (fmt : List ℕ) (args : Args) (o o1 : Out S) (t : Out (List ℕ))
      → o1 ≡ emit_chars put o t.ctx
      → format_loop text_at put k fmt args o1 ≡ fed put o (format_loop text_at collect k fmt args t)

  conversion-fed :
      (k : ℕ)
      → Follows k
      → (s : Spec) (fmt : List ℕ) (o o1 : Out S) (t : Out (List ℕ)) → o1 ≡ emit_chars put o t.ctx
      → conversion text_at put (format_loop text_at put k) o1 s fmt
        ≡ fed put o (conversion text_at collect (format_loop text_at collect k) t s fmt)
  unfolding conversion fed Follows
  conversion-fed k ih s [] o o1 t e = ap some e
  conversion-fed k ih s (spec ∷ fmt) o o1 t e = rw (convert_args o1 t s spec) (
      ih fmt _ o (convert text_at put o1 s spec).0 (convert text_at collect t s spec).0
        (fed_convert o o1 t s spec e))

  chosen-fed :
      (test : Bool) (o : Out S) (u v : Option (Out (List ℕ))) {x y : Option (Out S)}
      → x ≡ fed put o u
      → y ≡ fed put o v
      → (if test then x else y) ≡ fed put o (if test then u else v)
  chosen-fed true o u v e f = e
  chosen-fed false o u v e f = f

  after_percent-fed :
      (k : ℕ)
      → Follows k
      → (fmt : List ℕ) (args : Args) (o o1 : Out S) (t : Out (List ℕ)) → o1 ≡ emit_chars put o t.ctx
      → after_percent text_at put (format_loop text_at put k) fmt args o1
        ≡ fed put o (after_percent text_at collect (format_loop text_at collect k) fmt args t)
  unfolding after_percent Follows
  after_percent-fed k ih [] args o o1 t e =
      conversion-fed k ih (parse_spec args []) (parse_spec args []).fmt o o1 t e
  after_percent-fed k ih (ch ∷ fmt) args o o1 t e =
      let s = parse_spec args (ch ∷ fmt) in
      chosen-fed (ch == b'%') o _ _
        (ih fmt args o (emit_char put o1 ch) (emit_char collect t ch) (fed_char o o1 t ch e))
        (conversion-fed k ih s s.fmt o o1 t e)

  format_loop-fed : (k : ℕ) → Follows k
  unfolding format_loop fed Follows
  format_loop-fed zero fmt args o o1 t e = refl
  format_loop-fed (suc k) [] args o o1 t e = ap some e
  format_loop-fed (suc k) (ch ∷ fmt) args o o1 t e =
      chosen-fed (ch == b'%') o _ _ (after_percent-fed k (format_loop-fed k) fmt args o o1 t e) (
        format_loop-fed k fmt args o (emit_char put o1 ch) (emit_char collect t ch)
          (fed_char o o1 t ch e))

  -- What vformat emits does not depend on its `put`: with every `put` it emits, character by
  -- character, the text that a `put` which keeps the characters has collected.
  pub vformat-fed :
      (fmt : List ℕ) (args : Args) (o : Out S)
      → vformat text_at put fmt args o ≡ fed put o (vformat text_at collect fmt args blank)
  unfolding vformat Follows emit_chars
  vformat-fed fmt args o = format_loop-fed (suc (length fmt)) fmt args o o blank refl

  Ends : ℕ → Type ℓ
  Ends k =
      (fmt : List ℕ) (args : Args) (o : Out S)
      → length fmt < k
      → (r : Out S) × (format_loop text_at put k fmt args o ≡ some r)

  conversion-total :
      (k : ℕ)
      → Ends k
      → (s : Spec) (fmt : List ℕ) (o : Out S) → length fmt ≤ k
      → (r : Out S) × (conversion text_at put (format_loop text_at put k) o s fmt ≡ some r)
  unfolding conversion Ends
  conversion-total k ih s [] o short = (o, refl)
  conversion-total k ih s (spec ∷ fmt) o short =
      ih fmt (convert text_at put o s spec).1 (convert text_at put o s spec).0 (omega arith)

  after_percent-total :
      (k : ℕ)
      → Ends k
      → (fmt : List ℕ) (args : Args) (o : Out S) → length fmt ≤ k
      → (r : Out S) × (after_percent text_at put (format_loop text_at put k) fmt args o ≡ some r)
  unfolding after_percent Ends
  after_percent-total k ih [] args o short =
      conversion-total k ih (parse_spec args []) (parse_spec args []).fmt o
        (omega (arith, parse_spec-length args []))
  after_percent-total k ih (ch ∷ fmt) args o short =
      let s = parse_spec args (ch ∷ fmt) in
      elim (Bool-cases (ch == b'%')) [
        | inl e ↦ rw e (ih fmt args (emit_char put o ch) (omega arith))
        | inr e ↦
            rw e
              (conversion-total k ih s s.fmt o (omega (arith, parse_spec-length args (ch ∷ fmt))))
      ]

  format_loop-total : (k : ℕ) → Ends k
  unfolding format_loop Ends
  format_loop-total zero fmt args o short = absurd (omega arith)
  format_loop-total (suc k) [] args o short = (o, refl)
  format_loop-total (suc k) (ch ∷ fmt) args o short = elim (Bool-cases (ch == b'%')) [
    | inl e ↦ rw e (after_percent-total k (format_loop-total k) fmt args o (omega arith))
    | inr e ↦ rw e (format_loop-total k fmt args (emit_char put o ch) (omega arith))
  ]

-- vformat ends for every format, also one that breaks off inside a conversion: there is a text
-- that it emits with every `put`.
pub vformat_total {ℓ} :
    {S : Type ℓ} (text_at : ℕ → List ℕ) (put : ℕ → ℕ → S → S) (fmt : List ℕ) (args : Args)
    (o : Out S)
    → (text : Out (List ℕ)) × (vformat text_at collect fmt args blank ≡ some text)
      × (vformat text_at put fmt args o ≡ some (emit_chars put o text.ctx))
unfolding vformat fed Ends
vformat_total text_at put fmt args o =
    let (t, e) =
      format_loop-total text_at collect (suc (length fmt)) fmt args blank (omega arith) in
    (t, e, vformat-fed text_at put fmt args o ∙ ap (fed put o) e)
