-- ===== src/Stdio/Format.antt =====
-- vformat of libc/stdio.c: the loop ends, and what it emits does not depend on where it goes.
use whirliscope.Prelude.{
  ℕ, ◌%◌, ◌^◌, ◌≡◌, refl, sym, ap, ◌∙◌, List, [], ◌∷◌, ◌++◌, Bool, true, false, ◌==◌, if◌then◌else◌,
  take,
}
use whirliscope.Prelude.Text.{codes}
use mathlib.Core.List.{append-nil, append_assoc}
use whirliscope.Stdio.{str_len, number, alternate, signed_number, emit_string, convert}
use whirliscope.Stdio.Emit.{Out, Number, emit_char, emit_chars, emit_padded_string, emit_number}
use whirliscope.Stdio.Parse.{Spec, Args, next_arg, read_unsigned}
use whirliscope.Stdio.Text.{padded_text, number_text, emit_padded_string-text, emit_number-text}

-- A `put` that keeps the characters.
abbrev pub collect : ℕ → ℕ → List ℕ → List ℕ
collect ch count text = text ++ ch ∷ []

abbrev pub blank : Out (List ℕ)
blank = record { ctx = []; count = 0 }

pub emit_chars-collect : (o : Out (List ℕ)) (t : List ℕ) → (emit_chars collect o t).ctx ≡ o.ctx ++ t
unfolding emit_chars emit_char
emit_chars-collect o [] = sym (append-nil o.ctx)
emit_chars-collect o (ch ∷ t) =
    emit_chars-collect (emit_char collect o ch) t ∙ append_assoc o.ctx (ch ∷ []) t

-- The characters that `%s` shows, cut to the precision.
abbrev cut_text : (ℕ → List ℕ) → Spec → List ℕ
cut_text text_at s =
    let text = if s.args 0 == 0 then codes "(null)" else text_at (s.args 0) in
    take (str_len 0 s.precision text) text

-- The text of one conversion, and the arguments behind it.
pub convert_text : (ℕ → List ℕ) → Spec → ℕ → List ℕ × Args
convert_text text_at s spec =
    let of_number : Number → List ℕ × Args = λ n. (number_text n, next_arg s.args) in
    if spec == b'c'
    then (padded_text (s.args 0 % 256 ∷ []) s.width s.flags.left_adjust, next_arg s.args)
    else if spec == b's'
    then (padded_text (cut_text text_at s) s.width s.flags.left_adjust, next_arg s.args)
    else if spec == b'd'
    then of_number (signed_number s)
    else if spec == b'i'
    then of_number (signed_number s)
    else if spec == b'u'
    then of_number (number s (read_unsigned s.args s.len) false 10 false [])
    else if spec == b'b'
    then of_number (alternate s 2 false (codes "0b"))
    else if spec == b'B'
    then of_number (alternate s 2 true (codes "0B"))
    else if spec == b'x'
    then of_number (alternate s 16 false (codes "0x"))
    else if spec == b'X'
    then of_number (alternate s 16 true (codes "0X"))
    else if spec == b'o'
    then of_number (alternate s 8 false (codes "0"))
    else if spec == b'p'
    then of_number (number s (s.args 0 % 2 ^ 64) false 16 false (codes "0x"))
    else (b'%' ∷ spec ∷ [], s.args)

module _ {ℓ} {S : Type ℓ} (text_at : ℕ → List ℕ) (put : ℕ → ℕ → S → S) where
  -- A result with the text `t` emitted.
  unfoldable pub sent : Out S → List ℕ × Args → Out S × Args
  sent o t = (emit_chars put o t.0, t.1)

  both_branches :
      (test : Bool) (o : Out S) (t u : List ℕ × Args) {x y : Out S × Args}
      → x ≡ sent o t
      → y ≡ sent o u
      → (if test then x else y) ≡ sent o (if test then t else u)
  both_branches true o t u e f = e
  both_branches false o t u e f = f

  sent_unknown :
      (o : Out S) (spec : ℕ) (args : Args)
      → ◌≡◌ {A = Out S × Args}
          (emit_char put (emit_char put o b'%') spec, args)
          (sent o (b'%' ∷ spec ∷ [], args))
  unfolding sent emit_chars
  sent_unknown o spec args = refl

  sent_number :
      (o : Out S) (n : Number) (args : Args)
      → ◌≡◌ {A = Out S × Args} (emit_number put o n, args) (sent o (number_text n, args))
  unfolding sent
  sent_number o n args = ap (λ x. (x, args)) (emit_number-text put o n)

  sent_padded :
      (o : Out S) (t : List ℕ) (s : Spec)
      → ◌≡◌ {A = Out S × Args}
          (emit_padded_string put o t s.width s.flags.left_adjust, next_arg s.args)
          (sent o (padded_text t s.width s.flags.left_adjust, next_arg s.args))
  unfolding sent
  sent_padded o t s =
      ap (λ x. (x, next_arg s.args)) (emit_padded_string-text put o t s.width s.flags.left_adjust)

  -- The switch emits the conversion's text, wherever the characters go.
  pub convert-text :
      (o : Out S) (s : Spec) (spec : ℕ)
      → convert text_at put o s spec ≡ sent o (convert_text text_at s spec)
  unfolding convert convert_text emit_string
  convert-text o s spec =
      let numbered = λ (n : Number). sent_number o n (next_arg s.args) in
      both_branches (spec == b'c') o _ _ (sent_padded o (s.args 0 % 256 ∷ []) s) (
        both_branches (spec == b's') o _ _ (sent_padded o (cut_text text_at s) s) (
          both_branches (spec == b'd') o _ _ (numbered (signed_number s)) (
            both_branches (spec == b'i') o _ _ (numbered (signed_number s)) (
              both_branches (spec == b'u') o _ _
                (numbered (number s (read_unsigned s.args s.len) false 10 false []))
                (both_branches (spec == b'b') o _ _ (numbered (alternate s 2 false (codes "0b"))) (
                  both_branches (spec == b'B') o _ _ (numbered (alternate s 2 true (codes "0B"))) (
                    both_branches (spec == b'x') o _ _
                      (numbered (alternate s 16 false (codes "0x")))
                      (both_branches (spec == b'X') o _ _
                        (numbered (alternate s 16 true (codes "0X")))
                        (both_branches (spec == b'o') o _ _
                          (numbered (alternate s 8 false (codes "0")))
                          (both_branches (spec == b'p') o _ _
                            (numbered (number s (s.args 0 % 2 ^ 64) false 16 false (codes "0x")))
                            (sent_unknown o spec s.args)))))))))))
