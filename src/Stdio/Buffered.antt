-- ===== src/Stdio/Buffered.antt =====
-- vsnprintf of libc/stdio.c: what stands in the buffer, and what it leaves alone.
use whirliscope.Prelude.{
  ℕ, suc, ◌+◌, ◌-◌, ◌^◌, ◌<◌, ◌≡◌, refl, ap, ◌∙◌, List, [], ◌∷◌, Bool, true, false, ◌&&◌, some, ltb,
  ◌==◌, if◌then◌else◌, length, get_or, add64, arith,
}
use whirliscope.Libc.Memory.{Memory, store, within}
use whirliscope.Stdio.{vformat, buffer_put, written, terminated, vsnprintf}
use whirliscope.Stdio.Emit.{Out, emit_char, emit_chars}
use whirliscope.Stdio.Parse.{Args}
use whirliscope.Stdio.Format.{collect, blank}
use whirliscope.Stdio.Loop.{fed, vformat-fed}

-- `a` is one of `len` places from `s + count` on that lie before the last of the `n` from `s` on.
abbrev covers : (s n count len a : ℕ) → Bool
covers s n count len a = within (s + count) len a && ltb (a + 1) (s + n)

get_or_later :
    (ch : ℕ) (t : List ℕ) (a p : ℕ) → p < a → get_or (ch ∷ t) (a - p) 0 ≡ get_or t (a - (p + 1)) 0
get_or_later ch t a p later =
    let e : a - p ≡ suc (a - (p + 1)) = omega arith in ap (λ i. get_or (ch ∷ t) i 0) e

get_or_here : (ch : ℕ) (t : List ℕ) (a p : ℕ) → a ≡ p → get_or (ch ∷ t) (a - p) 0 ≡ ch
get_or_here ch t a p here = let e : a - p ≡ 0 = omega arith in ap (λ i. get_or (ch ∷ t) i 0) e

choose_more :
    (s n count len a ch old u v : ℕ)
    → (a ≡ s + count → v ≡ ch)
    → (s + count < a → v ≡ u)
    → (if covers s n (count + 1) len a
        then u
        else if ltb 0 n && ltb (count + 1) n
        then (if a == s + count then ch else old)
        else old)
      ≡ (if covers s n count (suc len) a then v else old)
choose_more s n count len a ch old u v here later = ground arith

store_under :
    (test here : Bool) (p a ch u : ℕ) (m : Memory)
    → (if here then u else (if test then store m p ch else m) a)
      ≡ (if here then u else if test then (if a == p then ch else m a) else m a)
store_under true here p a ch u m = refl
store_under false here p a ch u m = refl

-- One more character in front.
covers_more :
    (s n count len a ch : ℕ) (t : List ℕ) (m : Memory)
    → (if covers s n (count + 1) len a
        then get_or t (a - (s + (count + 1))) 0
        else (if ltb 0 n && ltb (count + 1) n then store m (s + count) ch else m) a)
      ≡ (if covers s n count (suc len) a then get_or (ch ∷ t) (a - (s + count)) 0 else m a)
covers_more s n count len a ch t m =
    let u = get_or t (a - (s + (count + 1))) 0 in
    let later : s + count < a → get_or (ch ∷ t) (a - (s + count)) 0 ≡ u =
      λ h. get_or_later ch t a (s + count) h ∙ ap (λ i. get_or t (a - i) 0) (omega arith) in
    store_under (ltb 0 n && ltb (count + 1) n) (covers s n (count + 1) len a) (s + count) a ch u m
    ∙ choose_more s n count len a ch (m a) u (get_or (ch ∷ t) (a - (s + count)) 0)
        (get_or_here ch t a (s + count)) later

covers_none : (s n count a u old : ℕ) → old ≡ (if covers s n count 0 a then u else old)
covers_none s n count a u old = ground arith

emit_chars-buffer_put :
    (s n : ℕ) (o : Out Memory) (t : List ℕ) (a : ℕ)
    → o.count + length t < 2 ^ 64
    → (emit_chars (buffer_put s n) o t).ctx a
      ≡ (if covers s n o.count (length t) a then get_or t (a - (s + o.count)) 0 else o.ctx a)
unfolding emit_chars emit_char buffer_put
emit_chars-buffer_put s n o [] a small = covers_none s n o.count a 0 (o.ctx a)
emit_chars-buffer_put s n o (ch ∷ t) a small =
    let e : add64 o.count 1 ≡ o.count + 1 = omega arith in
    emit_chars-buffer_put s n (emit_char (buffer_put s n) o ch) t a (omega (arith, e))
    ∙ rw e (covers_more s n o.count (length t) a ch t o.ctx)

pub emit_chars-count {ℓ} :
    {S : Type ℓ} (put : ℕ → ℕ → S → S) (o : Out S) (t : List ℕ)
    → o.count + length t < 2 ^ 64
    → (emit_chars put o t).count ≡ o.count + length t
unfolding emit_chars emit_char
emit_chars-count put o [] small = omega arith
emit_chars-count put o (ch ∷ t) small =
    let e : add64 o.count 1 ≡ o.count + 1 = omega arith in
    omega (arith, e, emit_chars-count put (emit_char put o ch) t (omega (arith, e)))

-- The memory behind vsnprintf with the text `text`: as much of it as leaves room for the zero byte,
-- and the zero byte; a buffer of no bytes is left alone.
abbrev pub printed : (s n : ℕ) → List ℕ → Memory → Memory
printed s n text m a =
    let shown = if ltb (length text) n then length text else n - 1 in
    if n == 0
    then m a
    else if a == s + shown
    then 0
    else if within s shown a
    then get_or text (a - s) 0
    else m a

final_store :
    (test : Bool) (p a : ℕ) (m : Memory)
    → (if test then store m p 0 else m) a ≡ (if test then (if a == p then 0 else m a) else m a)
final_store true p a m = refl
final_store false p a m = refl

choose_printed :
    (s n len a u old : ℕ)
    → (if ltb 0 n
        then (if a == s + (if ltb len n then len else n - 1)
            then 0
            else if covers s n 0 len a
            then u
            else old)
        else if covers s n 0 len a
        then u
        else old)
      ≡ (if n == 0
          then old
          else if a == s + (if ltb len n then len else n - 1)
          then 0
          else if within s (if ltb len n then len else n - 1) a
          then u
          else old)
choose_printed s n len a u old = ground arith

from_start :
    (s n len a : ℕ) (text : List ℕ) (old : ℕ)
    → (if covers s n 0 len a then get_or text (a - (s + 0)) 0 else old)
      ≡ (if covers s n 0 len a then get_or text (a - s) 0 else old)
from_start s n len a text old =
    let e : s + 0 ≡ s = omega arith in
    ap (λ p. if covers s n 0 len a then get_or text (a - p) 0 else old) e

terminated-printed :
    (s n : ℕ) (text : List ℕ) (r : Out Memory) (m : Memory)
    → r.count ≡ length text
    → ((a : ℕ) → r.ctx a ≡ (if covers s n 0 (length text) a then get_or text (a - s) 0 else m a))
    → (a : ℕ) → (terminated s n r).1 a ≡ printed s n text m a
terminated-printed s n text r m c h a =
    final_store (ltb 0 n) (s + (if ltb r.count n then r.count else n - 1)) a r.ctx
    ∙ rw (c, h a) (choose_printed s n (length text) a (get_or text (a - s) 0) (m a))

-- A text below 2^64 characters that vformat emits stands in the buffer of vsnprintf up to the
-- room there is, with a zero byte behind it; the rest of the memory keeps its bytes; and the result
-- is the number of characters of the whole text, as an int.
pub vsnprintf-printed :
    (text_at : ℕ → List ℕ) (s n : ℕ) (fmt : List ℕ) (args : Args) (m : Memory) {text : Out (List ℕ)}
    → vformat text_at collect fmt args blank ≡ some text
    → length text.ctx < 2 ^ 64
    → (r : Memory) × (vsnprintf text_at s n fmt args m ≡ some (written (length text.ctx), r))
      × ((a : ℕ) → r a ≡ printed s n text.ctx m a)
unfolding vsnprintf fed
vsnprintf-printed text_at s n fmt args m {text} e small =
    let o : Out Memory = record { ctx = m; count = 0 } in
    let r = emit_chars (buffer_put s n) o text.ctx in
    let run = vformat-fed text_at (buffer_put s n) fmt args o ∙ ap (fed (buffer_put s n) o) e in
    let c : r.count ≡ length text.ctx =
      omega (arith, emit_chars-count (buffer_put s n) o text.ctx (omega arith)) in
    (
      (terminated s n r).1,
      rw (run, vsnprintf) (ap (λ x. some (written x, (terminated s n r).1)) c),
      terminated-printed s n text.ctx r m c (λ a.
          emit_chars-buffer_put s n o text.ctx a (omega arith)
          ∙ from_start s n (length text.ctx) a text.ctx (m a)),
    )
