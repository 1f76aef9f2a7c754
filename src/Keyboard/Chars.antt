-- ===== src/Keyboard/Chars.antt =====
-- Which character a letter key gives in drivers/keyboard.c.
use whirliscope.Prelude.{
  ℕ, ◌+◌, ◌-◌, ◌≤◌, ◌<◌, ◌≡◌, refl, Bool, true, not, xor, ◌||◌, ◌==◌, if◌then◌else◌, arith,
}
use whirliscope.Prelude.Table.{holds_from, holds_from-at}
use whirliscope.Keyboard.Keys.{base_map, shifted_map, is_letter}
use whirliscope.Keyboard.{Keyboard, char_of}

-- Behind each lower-case letter of the one map stands its upper case in the other.
abbrev cased : ℕ → Bool
cased s = not (is_letter (base_map s)) || (shifted_map s + 32 == base_map s)

cased_table : holds_from 0 128 cased ≡ true
unfolding holds_from base_map shifted_map is_letter
cased_table = refl

shifted-base : (s : ℕ) → s < 128 → is_letter (base_map s) ≡ true → shifted_map s + 32 ≡ base_map s
shifted-base s h e = ground (arith, holds_from-at 0 128 s cased cased_table (omega arith) h)

-- The character that a letter key should give: a control code from 1 to 26 with ctrl held, and
-- otherwise upper case if exactly one of shift and caps lock is on.
abbrev pub letter_char : ℕ → (ctrl shift caps : Bool) → ℕ
letter_char letter ctrl shift caps =
    if ctrl then letter - 96 else if xor shift caps then letter - 32 else letter

-- For a key that base_map gives a letter, char_of returns the number of the letter in the alphabet
-- if ctrl is down, the capital if just one of shift and caps lock is on, and else the small letter.
pub char_of-letter_char :
    (s : ℕ) (k : Keyboard)
    → s < 128
    → is_letter (base_map s) ≡ true
    → (char_of s k ≡ letter_char (base_map s) k.ctrl_down k.shift_down k.caps_lock)
      × (1 ≤ base_map s - 96)
      × (base_map s - 96 ≤ 26)
unfolding char_of is_letter
char_of-letter_char s k h e =
    let shift = shifted-base s h e in (ground (arith, shift), ground arith, ground arith)
