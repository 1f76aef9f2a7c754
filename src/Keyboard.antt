-- ===== src/Keyboard.antt =====
-- drivers/keyboard.c: scancodes become events in a ring of 128. The byte that inb returns is an
-- argument of the interrupt handler; the registration of the handler and the unmasking of its line
-- are no part of the state.
pub mod Keys
pub mod Queue
pub mod Irq
pub mod Chars
mod Examples
use whirliscope.Prelude.{
  ℕ, zero, suc, ◌+◌, ◌-◌, ◌%◌, ◌≤◌, Bool, true, false, not, ◌&&◌, ◌||◌, xor, Option, none, some,
  List, ltb, leb, ◌==◌, if◌then◌else◌,
}
use whirliscope.Keyboard.Keys.{
  Key, key_char, key_escape, key_backspace, key_tab, key_enter, base_map, shifted_map, is_letter,
  extended_key_from_scancode,
}

pub record KeyboardEvent : Type 0 where
  pub key : Key
  pub ch : ℕ
  pub modifiers : ℕ

abbrev pub keyboard_buffer_size : ℕ
keyboard_buffer_size = 128

-- The static variables of the file.
pub record Keyboard : Type 0 where
  pub read_index : ℕ
  pub write_index : ℕ
  pub buffer : ℕ → KeyboardEvent
  pub shift_down : Bool
  pub ctrl_down : Bool
  pub alt_down : Bool
  pub caps_lock : Bool
  pub extended_scancode : Bool

-- The flags are distinct bits, so that `|=` is a sum.
unfoldable pub current_modifiers : Keyboard → ℕ
current_modifiers k =
    (if k.shift_down then 1 else 0)
    + (if k.ctrl_down then 2 else 0)
    + (if k.alt_down then 4 else 0)
    + (if k.caps_lock then 8 else 0)

pub push_event : Key → ℕ → Keyboard → Keyboard
push_event key ch k =
    let next = (k.write_index + 1) % keyboard_buffer_size in
    let event : KeyboardEvent = record { key = key; ch = ch; modifiers = current_modifiers k } in
    if next == k.read_index then k else record k {
      buffer = λ i. if i == k.write_index then event else k.buffer i;
      write_index = next;
    }

-- The scancode behind an 0xe0 byte.
irq_extended : ℕ → Keyboard → Keyboard
irq_extended byte k0 =
    let k = record k0 { extended_scancode = false } in
    let released = leb 0x80 byte in
    let scancode = byte % 0x80 in
    if scancode == 0x1d
    then record k { ctrl_down = not released }
    else if scancode == 0x38
    then record k { alt_down = not released }
    else if released
    then k
    else elim (extended_key_from_scancode scancode) [ none ↦ k | some key ↦ push_event key 0 k ]

-- The character of a key, from the two maps, shift, caps lock and ctrl.
pub char_of : ℕ → Keyboard → ℕ
char_of scancode k =
    let base = base_map scancode in
    let shifted = shifted_map scancode in
    let ch = if k.shift_down then shifted else base in
    let ch' =
      if is_letter base then (if xor k.shift_down k.caps_lock then shifted else base) else ch in
    if k.ctrl_down && is_letter base then base - b'a' + 1 else ch'

irq_pressed : ℕ → Keyboard → Keyboard
irq_pressed scancode k =
    if scancode == 0x01
    then push_event key_escape 27 k
    else if scancode == 0x0e
    then push_event key_backspace 8 k
    else if scancode == 0x0f
    then push_event key_tab 9 k
    else if scancode == 0x1c
    then push_event key_enter 10 k
    else if scancode == 0x3a
    then record k { caps_lock = not k.caps_lock }
    else if char_of scancode k == 0
    then k
    else push_event key_char (char_of scancode k) k

irq_plain : ℕ → Keyboard → Keyboard
irq_plain byte k =
    let released = leb 0x80 byte in
    let scancode = byte % 0x80 in
    if scancode == 0x2a || scancode == 0x36
    then record k { shift_down = not released }
    else if scancode == 0x1d
    then record k { ctrl_down = not released }
    else if scancode == 0x38
    then record k { alt_down = not released }
    else if released
    then k
    else irq_pressed scancode k

pub keyboard_irq : ℕ → Keyboard → Keyboard
keyboard_irq byte k =
    if byte == 0xe0
    then record k { extended_scancode = true }
    else if k.extended_scancode
    then irq_extended byte k
    else irq_plain byte k

pub keyboard_init : Keyboard → Keyboard
keyboard_init k = record {
  read_index = 0;
  write_index = 0;
  buffer = k.buffer;
  shift_down = false;
  ctrl_down = false;
  alt_down = false;
  caps_lock = false;
  extended_scancode = false;
}

pub keyboard_read_event : Keyboard → Option KeyboardEvent × Keyboard
keyboard_read_event k = if k.read_index == k.write_index then (none, k) else (
  some (k.buffer k.read_index),
  record k { read_index = (k.read_index + 1) % keyboard_buffer_size },
)

-- The loop of keyboard_read_char; the outer `none` means that the fuel ran out.
read_char_loop : ℕ → Keyboard → Option (Option ℕ × Keyboard)
read_char_loop zero k = none
read_char_loop (suc fuel) k =
    let (event, k') = keyboard_read_event k in
    elim event [
      | none ↦ some (none, k')
      | some e ↦ elim (e.ch == 0) [ true ↦ read_char_loop fuel k' | false ↦ some (some e.ch, k') ]
    ]

pub keyboard_read_char : Keyboard → Option (Option ℕ × Keyboard)
keyboard_read_char k = read_char_loop keyboard_buffer_size k
