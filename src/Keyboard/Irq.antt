-- ===== src/Keyboard/Irq.antt =====
-- keyboard_irq of drivers/keyboard.c: what a scancode does to the queue and to the modifiers.
use whirliscope.Prelude.{
  ℕ, ◌%◌, ◌≤◌, sym, subst, false, ◌||◌, Option, none, some, List, [], ◌∷◌, ◌++◌, length, ltb, leb,
  ◌==◌, if◌then◌else◌, arith, Bool-cases, inl, inr,
}
use mathlib.Core.List.{append-nil}
use whirliscope.Keyboard.Keys.{Key, extended_key_from_scancode}
use whirliscope.Keyboard.{
  KeyboardEvent, Keyboard, push_event, irq_extended, irq_pressed, irq_plain, keyboard_irq, char_of,
}
use whirliscope.Keyboard.Queue.{IsQueue, event_of, push_event-IsQueue}

-- The queue `es` with at most one event more.
abbrev pub Extends : List KeyboardEvent → Keyboard → Type 0
Extends es k = (new : List KeyboardEvent) × (length new ≤ 1) × IsQueue k (es ++ new)

same-Extends : (k : Keyboard) (es : List KeyboardEvent) → IsQueue k es → Extends es k
same-Extends k es v = ([], omega arith, subst (IsQueue k) (sym (append-nil es)) v)

push-Extends :
    (key : Key) (ch : ℕ) (k : Keyboard) (es : List KeyboardEvent)
    → IsQueue k es
    → Extends es (push_event key ch k)
push-Extends key ch k es v =
    let w = push_event-IsQueue key ch k es v in
    elim (Bool-cases (ltb (length es) 127)) [
      | inl fits ↦ (
        event_of key ch k ∷ [],
        omega arith,
        subst (λ b. IsQueue (push_event key ch k) (if b then es ++ event_of key ch k ∷ [] else es))
            fits w,
      )
      | inr full ↦ same-Extends _ es (
          subst
            (λ b. IsQueue (push_event key ch k) (if b then es ++ event_of key ch k ∷ [] else es))
            full w)
    ]

extended-Extends :
    (o : Option Key) (k : Keyboard) (es : List KeyboardEvent)
    → IsQueue k es
    → Extends es (elim o [ none ↦ k | some key ↦ push_event key 0 k ])
extended-Extends none k es v = same-Extends k es v
extended-Extends (some key) k es v = push-Extends key 0 k es v

irq_extended-Extends :
    (byte : ℕ) (k : Keyboard) (es : List KeyboardEvent)
    → IsQueue k es
    → Extends es (irq_extended byte k)
unfolding irq_extended
irq_extended-Extends byte k es v =
    let w : IsQueue (record k { extended_scancode = false }) es = record {
      low = v.low;
      write = v.write;
      room = v.room;
      slots = v.slots;
    } in
    elim (Bool-cases (byte % 0x80 == 0x1d)) [
      | inl e ↦ rw e (
          same-Extends _ es
            (record { low = v.low; write = v.write; room = v.room; slots = v.slots }))
      | inr e ↦ rw e (elim (Bool-cases (byte % 0x80 == 0x38)) [
        | inl e ↦ rw e (
            same-Extends _ es
              (record { low = v.low; write = v.write; room = v.room; slots = v.slots }))
        | inr e ↦ rw e (elim (Bool-cases (leb 0x80 byte)) [
          | inl e ↦ rw e (
              same-Extends _ es
                (record { low = v.low; write = v.write; room = v.room; slots = v.slots }))
          | inr e ↦ rw e (extended-Extends (extended_key_from_scancode (byte % 0x80)) _ es w)
        ])
      ])
    ]

irq_pressed-Extends :
    (scancode : ℕ) (k : Keyboard) (es : List KeyboardEvent)
    → IsQueue k es
    → Extends es (irq_pressed scancode k)
unfolding irq_pressed
irq_pressed-Extends scancode k es v = elim (Bool-cases (scancode == 0x01)) [
  | inl e ↦ rw e (push-Extends _ _ k es v)
  | inr e ↦ rw e (elim (Bool-cases (scancode == 0x0e)) [
    | inl e ↦ rw e (push-Extends _ _ k es v)
    | inr e ↦ rw e (elim (Bool-cases (scancode == 0x0f)) [
      | inl e ↦ rw e (push-Extends _ _ k es v)
      | inr e ↦ rw e (elim (Bool-cases (scancode == 0x1c)) [
        | inl e ↦ rw e (push-Extends _ _ k es v)
        | inr e ↦ rw e (elim (Bool-cases (scancode == 0x3a)) [
          | inl e ↦ rw e (
              same-Extends _ es
                (record { low = v.low; write = v.write; room = v.room; slots = v.slots }))
          | inr e ↦ rw e (elim (Bool-cases (char_of scancode k == 0)) [
            | inl e ↦ rw e (same-Extends _ es v)
            | inr e ↦ rw e (push-Extends _ _ k es v)
          ])
        ])
      ])
    ])
  ])
]

irq_plain-Extends :
    (byte : ℕ) (k : Keyboard) (es : List KeyboardEvent)
    → IsQueue k es
    → Extends es (irq_plain byte k)
unfolding irq_plain
irq_plain-Extends byte k es v = elim (Bool-cases (byte % 0x80 == 0x2a || byte % 0x80 == 0x36)) [
  | inl e ↦
      rw e (
        same-Extends _ es (record { low = v.low; write = v.write; room = v.room; slots = v.slots }))
  | inr e ↦ rw e (elim (Bool-cases (byte % 0x80 == 0x1d)) [
    | inl e ↦ rw e (
        same-Extends _ es (record { low = v.low; write = v.write; room = v.room; slots = v.slots }))
    | inr e ↦ rw e (elim (Bool-cases (byte % 0x80 == 0x38)) [
      | inl e ↦ rw e (
          same-Extends _ es
            (record { low = v.low; write = v.write; room = v.room; slots = v.slots }))
      | inr e ↦ rw e (elim (Bool-cases (leb 0x80 byte)) [
        | inl e ↦ rw e (same-Extends _ es v)
        | inr e ↦ rw e (irq_pressed-Extends (byte % 0x80) k es v)
      ])
    ])
  ])
]

-- Whatever byte the interrupt handler reads, it keeps the waiting events in order, and adds at most
-- one behind them.
pub keyboard_irq-Extends :
    (byte : ℕ) (k : Keyboard) (es : List KeyboardEvent)
    → IsQueue k es
    → Extends es (keyboard_irq byte k)
unfolding keyboard_irq
keyboard_irq-Extends byte k es v = elim (Bool-cases (byte == 0xe0)) [
  | inl e ↦
      rw e (
        same-Extends _ es (record { low = v.low; write = v.write; room = v.room; slots = v.slots }))
  | inr e ↦ rw e (elim (Bool-cases (k.extended_scancode)) [
    | inl e ↦ simp e (irq_extended-Extends byte k es v)
    | inr e ↦ simp e (irq_plain-Extends byte k es v)
  ])
]
