-- ===== src/Keyboard/Keys.antt =====
-- The tables of drivers/keyboard.c and the keys of drivers/keyboard.h. Entries that the tables
-- leave out are 0.
use whirliscope.Prelude.{ℕ, Bool, ◌&&◌, Option, none, some, List, [], ◌∷◌, leb, ◌==◌, if◌then◌else◌}

-- enum keyboard_key, without KEYBOARD_KEY_NONE, which stands for "no key".
pub data Key : Type 0 where
  key_char key_escape key_backspace key_tab key_enter key_up key_down : Key
  key_left key_right key_home key_end key_delete : Key

-- A table of designated initializers.
abbrev entry : List (ℕ × ℕ) → ℕ → ℕ
entry [] i = 0
entry ((j, v) ∷ t) i = if j == i then v else entry t i

abbrev base_entries : List (ℕ × ℕ)
base_entries =
    (0x02, 49)
    ∷ (0x03, 50)
    ∷ (0x04, 51)
    ∷ (0x05, 52)
    ∷ (0x06, 53)
    ∷ (0x07, 54)
    ∷ (0x08, 55)
    ∷ (0x09, 56)
    ∷ (0x0a, 57)
    ∷ (0x0b, 48)
    ∷ (0x0c, 45)
    ∷ (0x0d, 61)
    ∷ (0x10, 113)
    ∷ (0x11, 119)
    ∷ (0x12, 101)
    ∷ (0x13, 114)
    ∷ (0x14, 116)
    ∷ (0x15, 121)
    ∷ (0x16, 117)
    ∷ (0x17, 105)
    ∷ (0x18, 111)
    ∷ (0x19, 112)
    ∷ (0x1a, 91)
    ∷ (0x1b, 93)
    ∷ (0x1e, 97)
    ∷ (0x1f, 115)
    ∷ (0x20, 100)
    ∷ (0x21, 102)
    ∷ (0x22, 103)
    ∷ (0x23, 104)
    ∷ (0x24, 106)
    ∷ (0x25, 107)
    ∷ (0x26, 108)
    ∷ (0x27, 59)
    ∷ (0x28, 39)
    ∷ (0x29, 96)
    ∷ (0x2b, 92)
    ∷ (0x2c, 122)
    ∷ (0x2d, 120)
    ∷ (0x2e, 99)
    ∷ (0x2f, 118)
    ∷ (0x30, 98)
    ∷ (0x31, 110)
    ∷ (0x32, 109)
    ∷ (0x33, 44)
    ∷ (0x34, 46)
    ∷ (0x35, 47)
    ∷ (0x39, 32)
    ∷ []

abbrev shifted_entries : List (ℕ × ℕ)
shifted_entries =
    (0x02, 33)
    ∷ (0x03, 64)
    ∷ (0x04, 35)
    ∷ (0x05, 36)
    ∷ (0x06, 37)
    ∷ (0x07, 94)
    ∷ (0x08, 38)
    ∷ (0x09, 42)
    ∷ (0x0a, 40)
    ∷ (0x0b, 41)
    ∷ (0x0c, 95)
    ∷ (0x0d, 43)
    ∷ (0x10, 81)
    ∷ (0x11, 87)
    ∷ (0x12, 69)
    ∷ (0x13, 82)
    ∷ (0x14, 84)
    ∷ (0x15, 89)
    ∷ (0x16, 85)
    ∷ (0x17, 73)
    ∷ (0x18, 79)
    ∷ (0x19, 80)
    ∷ (0x1a, 123)
    ∷ (0x1b, 125)
    ∷ (0x1e, 65)
    ∷ (0x1f, 83)
    ∷ (0x20, 68)
    ∷ (0x21, 70)
    ∷ (0x22, 71)
    ∷ (0x23, 72)
    ∷ (0x24, 74)
    ∷ (0x25, 75)
    ∷ (0x26, 76)
    ∷ (0x27, 58)
    ∷ (0x28, 34)
    ∷ (0x29, 126)
    ∷ (0x2b, 124)
    ∷ (0x2c, 90)
    ∷ (0x2d, 88)
    ∷ (0x2e, 67)
    ∷ (0x2f, 86)
    ∷ (0x30, 66)
    ∷ (0x31, 78)
    ∷ (0x32, 77)
    ∷ (0x33, 60)
    ∷ (0x34, 62)
    ∷ (0x35, 63)
    ∷ (0x39, 32)
    ∷ []

unfoldable pub base_map : ℕ → ℕ
base_map = entry base_entries

unfoldable pub shifted_map : ℕ → ℕ
shifted_map = entry shifted_entries

unfoldable pub is_letter : ℕ → Bool
is_letter ch = leb b'a' ch && leb ch b'z'

unfoldable pub extended_key_from_scancode : ℕ → Option Key
extended_key_from_scancode scancode =
    if scancode == 0x47
    then some key_home
    else if scancode == 0x48
    then some key_up
    else if scancode == 0x4b
    then some key_left
    else if scancode == 0x4d
    then some key_right
    else if scancode == 0x4f
    then some key_end
    else if scancode == 0x50
    then some key_down
    else if scancode == 0x53
    then some key_delete
    else none
