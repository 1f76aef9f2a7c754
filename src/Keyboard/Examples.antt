-- ===== src/Keyboard/Examples.antt =====
-- Runs of the keyboard driver, and its theorems at them.
use whirliscope.Prelude.{zero, ◌≡◌, refl, true, false, some, [], ◌∷◌, arith}
use whirliscope.Keyboard.Keys.{key_char, key_escape}
use whirliscope.Keyboard.{
  KeyboardEvent, Keyboard, push_event, keyboard_irq, keyboard_read_char, current_modifiers,
}
use whirliscope.Keyboard.Queue.{IsQueue, push_event-IsQueue, keyboard_read_char-first_char}
use whirliscope.Keyboard.Irq.{Extends, keyboard_irq-Extends}

abbrev escape : KeyboardEvent
escape = record { key = key_escape; ch = 0; modifiers = 0 }

abbrev letter : KeyboardEvent
letter = record { key = key_char; ch = b'q'; modifiers = 0 }

-- Two events wait across the end of the ring.
abbrev waiting : Keyboard
waiting = record {
  read_index = 127;
  write_index = 1;
  buffer = λ i. elim i [ zero ↦ letter | _ ↦ escape ];
  shift_down = true;
  ctrl_down = false;
  alt_down = false;
  caps_lock = false;
  extended_scancode = false;
}

waiting-IsQueue : IsQueue waiting (escape ∷ letter ∷ [])
waiting-IsQueue = record {
  low = omega arith;
  write = refl;
  room = omega arith;
  slots = (refl, (refl, tt));
}

push_event-IsQueue_example :
    IsQueue
      (push_event key_char 65 waiting)
      (escape ∷ letter ∷ record { key = key_char; ch = 65; modifiers = 1 } ∷ [])
unfolding current_modifiers
push_event-IsQueue_example =
    push_event-IsQueue key_char 65 waiting (escape ∷ letter ∷ []) waiting-IsQueue

keyboard_read_char-first_char_example :
    (k' : Keyboard) × (keyboard_read_char waiting ≡ some (some b'q', k')) × IsQueue k' []
keyboard_read_char-first_char_example =
    keyboard_read_char-first_char waiting (escape ∷ letter ∷ []) waiting-IsQueue

keyboard_irq-Extends_example : Extends (escape ∷ letter ∷ []) (keyboard_irq 0x1e waiting)
keyboard_irq-Extends_example =
    keyboard_irq-Extends 0x1e waiting (escape ∷ letter ∷ []) waiting-IsQueue
