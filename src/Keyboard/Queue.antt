-- ===== src/Keyboard/Queue.antt =====
-- The ring of drivers/keyboard.c as a queue of events.
use whirliscope.Prelude.{
  ℕ, zero, suc, ◌+◌, ◌%◌, ◌<◌, ◌≡◌, sym, ap, ◌∙◌, subst, true, false, Option, none, some, List, [],
  ◌∷◌, ◌++◌, length, length-append, ltb, ◌==◌, if◌then◌else◌, arith, Bool-cases, inl, inr,
}
use whirliscope.Keyboard.Keys.{Key}
use whirliscope.Keyboard.{
  KeyboardEvent, keyboard_buffer_size, Keyboard, current_modifiers, push_event, keyboard_read_event,
  read_char_loop, keyboard_read_char,
}

-- The buffer holds the events from place `s` on, round the ring.
abbrev pub Slots : (ℕ → KeyboardEvent) → ℕ → List KeyboardEvent → Type 0
Slots b s [] = Unit {0}
Slots b s (e ∷ es) = (b (s % keyboard_buffer_size) ≡ e) × Slots b (s + 1) es

-- One slot stays unused, so that a full ring differs from an empty one.
pub record IsQueue (k : Keyboard) (es : List KeyboardEvent) : Type 0 where
  pub low : k.read_index < keyboard_buffer_size
  pub write : k.write_index ≡ (k.read_index + length es) % keyboard_buffer_size
  pub room : length es < keyboard_buffer_size
  pub slots : Slots k.buffer k.read_index es

Slots-mod :
    (b : ℕ → KeyboardEvent) (s t : ℕ) (es : List KeyboardEvent)
    → s % keyboard_buffer_size ≡ t % keyboard_buffer_size
    → Slots b s es
    → Slots b t es
Slots-mod b s t [] e h = tt
Slots-mod b s t (x ∷ es) e h =
    (ap b (sym e) ∙ h.0, Slots-mod b (s + 1) (t + 1) es (omega arith) h.1)

abbrev put : (ℕ → KeyboardEvent) → ℕ → KeyboardEvent → ℕ → KeyboardEvent
put b w e i = if i == w then e else b i

put_self : (b : ℕ → KeyboardEvent) (w i : ℕ) (e : KeyboardEvent) → i ≡ w → put b w e i ≡ e
put_self b w i e h = ground arith

put_other : (b : ℕ → KeyboardEvent) (w i : ℕ) (e : KeyboardEvent) → (i ≡ w → ⊥) → put b w e i ≡ b i
put_other b w i e h = ground arith

Slots-put :
    (b : ℕ → KeyboardEvent) (s w : ℕ) (e : KeyboardEvent) (es : List KeyboardEvent)
    → w ≡ (s + length es) % keyboard_buffer_size
    → length es < keyboard_buffer_size
    → Slots b s es
    → Slots (put b w e) s (es ++ e ∷ [])
Slots-put b s w e [] at small h = (put_self b w (s % 128) e (omega arith), tt)
Slots-put b s w e (x ∷ es) at small h = (
  put_other b w (s % 128) e (λ i. absurd (omega arith)) ∙ h.0,
  Slots-put b (s + 1) w e es (omega arith) (omega arith) h.1,
)

abbrev pub event_of : Key → ℕ → Keyboard → KeyboardEvent
event_of key ch k = record { key = key; ch = ch; modifiers = current_modifiers k }

-- A full queue drops the newest event.
abbrev pub pushed : List KeyboardEvent → KeyboardEvent → List KeyboardEvent
pushed es e = if ltb (length es) 127 then es ++ e ∷ [] else es

-- push_event appends the event with the current modifiers if fewer than 127 are waiting, and
-- leaves the queue as it is otherwise.
pub push_event-IsQueue :
    (key : Key) (ch : ℕ) (k : Keyboard) (es : List KeyboardEvent)
    → IsQueue k es
    → IsQueue (push_event key ch k) (pushed es (event_of key ch k))
unfolding push_event
push_event-IsQueue key ch k es v = elim (Bool-cases (ltb (length es) 127)) [
  | inl fits ↦
      let free : ((k.write_index + 1) % 128 == k.read_index) ≡ false =
        ground (arith, v.write, v.low) in
      rw (fits, free)
        (record {
          low = v.low;
          write = omega (arith, v.write, length-append es (event_of key ch k ∷ []));
          room = ground (arith, length-append es (event_of key ch k ∷ []));
          slots = Slots-put k.buffer k.read_index k.write_index _ es v.write v.room v.slots;
        })
  | inr full ↦
      let last : ((k.write_index + 1) % 128 == k.read_index) ≡ true =
        ground (arith, v.write, v.low, v.room) in
      rw (full, last) v
]

-- On an empty queue keyboard_read_event fails and changes nothing.
pub read_event_empty : (k : Keyboard) → IsQueue k [] → keyboard_read_event k ≡ (none, k)
unfolding keyboard_read_event
read_event_empty k v = ground (arith, v.write, v.low)

-- Where events wait, keyboard_read_event takes the oldest and leaves the others in their order.
pub read_event-IsQueue :
    (k : Keyboard) (e : KeyboardEvent) (es : List KeyboardEvent)
    → IsQueue k (e ∷ es)
    → ((keyboard_read_event k).0 ≡ some e) × IsQueue (keyboard_read_event k).1 es
unfolding keyboard_read_event
read_event-IsQueue k e es v =
    let some_left : (k.read_index == k.write_index) ≡ false =
      ground (arith, v.write, v.low, v.room) in
    let at : k.read_index % 128 ≡ k.read_index = omega (arith, v.low) in
    rw some_left (
      ap some (ap k.buffer (sym at) ∙ v.slots.0),
      record {
        low = omega arith;
        write = omega (arith, v.write);
        room = omega (arith, v.room);
        slots = Slots-mod k.buffer (k.read_index + 1) _ es (omega arith) v.slots.1;
      },
    )

-- The first event with a character, and what is left behind it.
abbrev pub first_char : List KeyboardEvent → Option ℕ
first_char [] = none
first_char (e ∷ es) = if e.ch == 0 then first_char es else some e.ch

abbrev pub after_char : List KeyboardEvent → List KeyboardEvent
after_char [] = []
after_char (e ∷ es) = if e.ch == 0 then after_char es else es

read_char_none :
    (fuel : ℕ) (k : Keyboard)
    → keyboard_read_event k ≡ (none, k)
    → read_char_loop (suc fuel) k ≡ some (none, k)
unfolding read_char_loop
read_char_none fuel k e = ground arith

read_char_skip :
    (fuel : ℕ) (k : Keyboard) (e : KeyboardEvent)
    → (keyboard_read_event k).0 ≡ some e
    → (e.ch == 0) ≡ true
    → read_char_loop (suc fuel) k ≡ read_char_loop fuel (keyboard_read_event k).1
unfolding read_char_loop
read_char_skip fuel k e got skip = ground (arith)

read_char_take :
    (fuel : ℕ) (k : Keyboard) (e : KeyboardEvent)
    → (keyboard_read_event k).0 ≡ some e
    → (e.ch == 0) ≡ false
    → read_char_loop (suc fuel) k ≡ some (some e.ch, (keyboard_read_event k).1)
unfolding read_char_loop
read_char_take fuel k e got take = ground (arith)

read_char_loop-first_char :
    (fuel : ℕ) (k : Keyboard) (es : List KeyboardEvent)
    → length es < fuel
    → IsQueue k es
    → (k' : Keyboard) × (read_char_loop fuel k ≡ some (first_char es, k'))
      × IsQueue k' (after_char es)
read_char_loop-first_char zero k es h v = absurd (omega arith)
read_char_loop-first_char (suc fuel) k [] h v = (k, read_char_none fuel k (read_event_empty k v), v)
read_char_loop-first_char (suc fuel) k (e ∷ es) h v =
    let (got, v') = read_event-IsQueue k e es v in
    let k' = (keyboard_read_event k).1 in
    elim (Bool-cases (e.ch == 0)) [
      | inl skip ↦
          let (k'', run, w) = read_char_loop-first_char fuel k' es (omega arith) v' in
          (
            k'',
            read_char_skip fuel k e got skip
                ∙ run
                ∙ ap (λ b. some ((if b then first_char es else some e.ch), k'')) (sym skip),
            subst (λ b. IsQueue k'' (if b then after_char es else es)) (sym skip) w,
          )
      | inr take ↦ (
        k',
        read_char_take fuel k e got take
            ∙ ap (λ b. some ((if b then first_char es else some e.ch), k')) (sym take),
        subst (λ b. IsQueue k' (if b then after_char es else es)) (sym take) v',
      )
    ]

-- keyboard_read_char returns, with the first character among the waiting events, and takes the
-- events up to that one; without a character it takes them all.
pub keyboard_read_char-first_char :
    (k : Keyboard) (es : List KeyboardEvent)
    → IsQueue k es
    → (k' : Keyboard) × (keyboard_read_char k ≡ some (first_char es, k'))
      × IsQueue k' (after_char es)
unfolding keyboard_read_char
keyboard_read_char-first_char k es v = read_char_loop-first_char keyboard_buffer_size k es v.room v
