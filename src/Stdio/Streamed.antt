-- ===== src/Stdio/Streamed.antt =====
-- vprintf of libc/stdio.c: the writes that it makes carry the text.
use whirliscope.Prelude.{
  ℕ, ◌^◌, ◌≤◌, ◌<◌, ◌≡◌, refl, sym, ap, ap₂, subst, ◌∙◌, List, [], ◌∷◌, ◌++◌, false, some, ltb,
  ◌==◌, length, length-append, arith, Bool-cases, inl, inr, ltb→lt,
}
use mathlib.Core.List.{append-nil, append_assoc}
use whirliscope.Stdio.{
  Stream, print_buffer_size, stream_flush, stream_put, written, vformat, vprintf,
}
use whirliscope.Stdio.Emit.{Out, emit_char, emit_chars}
use whirliscope.Stdio.Parse.{Args}
use whirliscope.Stdio.Format.{collect, blank}
use whirliscope.Stdio.Loop.{fed, vformat-fed}
use whirliscope.Stdio.Buffered.{emit_chars-count}

-- The texts that were written, one behind the other.
abbrev pub joined : List (List ℕ) → List ℕ
joined [] = []
joined (w ∷ ws) = w ++ joined ws

-- No write is empty or greater than the buffer.
abbrev pub Sized : List (List ℕ) → Type 0
Sized [] = Unit
Sized (w ∷ ws) = (0 < length w) × (length w ≤ print_buffer_size) × Sized ws

joined-append : (ws vs : List (List ℕ)) → joined (ws ++ vs) ≡ joined ws ++ joined vs
joined-append [] vs = refl
joined-append (w ∷ ws) vs =
    ap (λ x. w ++ x) (joined-append ws vs) ∙ sym (append_assoc w (joined ws) (joined vs))

Sized-append : (ws vs : List (List ℕ)) → Sized ws → Sized vs → Sized (ws ++ vs)
Sized-append [] vs h k = k
Sized-append (w ∷ ws) vs (a, b, h) k = (a, b, Sized-append ws vs h k)

-- The stream has been given `text` since its writes were `before`.
record IsKept (before : List (List ℕ)) (text : List ℕ) (s : Stream) : Type 0 where
  writes : List (List ℕ)
  output_lem : s.output ≡ before ++ writes
  sized : Sized writes
  fits : length s.buffer ≤ print_buffer_size
  carried : joined writes ++ s.buffer ≡ text

flush_filled :
    {before : List (List ℕ)} {text : List ℕ} {s : Stream}
    → 0 < length s.buffer
    → IsKept before text s
    → IsKept before text (record { buffer = []; output = s.output ++ s.buffer ∷ [] })
flush_filled {before} {text} {s} some_left k = record {
  writes = k.writes ++ s.buffer ∷ [];
  output_lem =
      ap (λ x. x ++ s.buffer ∷ []) k.output_lem ∙ append_assoc before k.writes (s.buffer ∷ []);
  sized = Sized-append k.writes (s.buffer ∷ []) k.sized (some_left, k.fits, tt);
  fits = omega arith;
  carried =
      append-nil (joined (k.writes ++ s.buffer ∷ []))
      ∙ joined-append k.writes (s.buffer ∷ [])
      ∙ ap (λ x. joined k.writes ++ x) (append-nil s.buffer)
      ∙ k.carried;
}

no_elements : (l : List ℕ) → ltb 0 (length l) ≡ false → l ≡ []
no_elements [] e = refl
no_elements (x ∷ l) e = absurd (ground arith)

stream_flush-IsKept :
    {before : List (List ℕ)} {text : List ℕ} (s : Stream)
    → IsKept before text s
    → IsKept before text (stream_flush s) × ((stream_flush s).buffer ≡ [])
unfolding stream_flush
stream_flush-IsKept s k = elim (Bool-cases (ltb 0 (length s.buffer))) [
  | inl e ↦ rw e (flush_filled (ltb→lt _ _ e) k, refl)
  | inr e ↦ rw e (k, no_elements s.buffer e)
]

not_full :
    (n : ℕ) → n ≤ print_buffer_size → (n == print_buffer_size) ≡ false → n < print_buffer_size
not_full n fits e = ground arith

put_room :
    {before : List (List ℕ)} {text : List ℕ} (ch : ℕ) (s : Stream)
    → IsKept before text s
    → length s.buffer < print_buffer_size
    → IsKept before (text ++ ch ∷ []) (record s { buffer = s.buffer ++ ch ∷ [] })
put_room ch s k room = record {
  writes = k.writes;
  output_lem = k.output_lem;
  sized = k.sized;
  fits = omega (arith, length-append s.buffer (ch ∷ []));
  carried =
      sym (append_assoc (joined k.writes) s.buffer (ch ∷ [])) ∙ ap (λ x. x ++ ch ∷ []) k.carried;
}

stream_put-IsKept :
    {before : List (List ℕ)} {text : List ℕ} (ch count : ℕ) (s : Stream)
    → IsKept before text s
    → IsKept before (text ++ ch ∷ []) (stream_put ch count s)
unfolding stream_put
stream_put-IsKept ch count s k = elim (Bool-cases (length s.buffer == print_buffer_size)) [
  | inl e ↦
      let (kept, e') = stream_flush-IsKept s k in
      rw e (put_room ch (stream_flush s) kept (omega (arith, ap length e')))
  | inr e ↦ rw e (put_room ch s k (not_full (length s.buffer) k.fits e))
]

emit_chars-IsKept :
    {before : List (List ℕ)} (text : List ℕ) (o : Out Stream) (t : List ℕ)
    → IsKept before text o.ctx
    → IsKept before (text ++ t) (emit_chars stream_put o t).ctx
unfolding emit_chars emit_char
emit_chars-IsKept {before} text o [] k =
    subst (λ x. IsKept before x o.ctx) (sym (append-nil text)) k
emit_chars-IsKept {before} text o (ch ∷ t) k =
    let first = stream_put-IsKept ch o.count o.ctx k in
    subst (λ x. IsKept before x (emit_chars stream_put (emit_char stream_put o ch) t).ctx)
      (append_assoc text (ch ∷ []) t)
      (emit_chars-IsKept (text ++ ch ∷ []) (emit_char stream_put o ch) t first)

-- A text below 2^64 characters that vformat emits is what the writes of vprintf carry, in order
-- and complete; each of them has from one to 512 characters, as many as the buffer holds; and the
-- result is the number of characters of the text, as an int.
pub vprintf-writes :
    (text_at : ℕ → List ℕ) (fmt : List ℕ) (args : Args) (output : List (List ℕ))
    {text : Out (List ℕ)}
    → vformat text_at collect fmt args blank ≡ some text
    → length text.ctx < 2 ^ 64
    → (writes : List (List ℕ)) × (vprintf text_at fmt args output
        ≡ some (written (length text.ctx), output ++ writes))
      × (joined writes ≡ text.ctx)
      × Sized writes
unfolding vprintf fed
vprintf-writes text_at fmt args output {text} e small =
    let o : Out Stream = record { ctx = record { buffer = []; output = output }; count = 0 } in
    let r = emit_chars stream_put o text.ctx in
    let run = vformat-fed text_at stream_put fmt args o ∙ ap (fed stream_put o) e in
    let c : r.count ≡ length text.ctx =
      omega (arith, emit_chars-count stream_put o text.ctx (omega arith)) in
    let start : IsKept output [] o.ctx = record {
      writes = [];
      output_lem = sym (append-nil output);
      sized = tt;
      fits = omega arith;
      carried = refl;
    } in
    let (k, emptied) = stream_flush-IsKept r.ctx (emit_chars-IsKept [] o text.ctx start) in
    (
      k.writes,
      rw (run, vprintf) (ap₂ (λ x y. some (written x, y)) c k.output_lem),
      sym (append-nil (joined k.writes)) ∙ ap (λ x. joined k.writes ++ x) (sym emptied) ∙ k.carried,
      k.sized,
    )
