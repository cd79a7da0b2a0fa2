-- ===== src/Keyboard/Scancodes.antt =====
-- `keyboard_process_scancode` of c/kbd.c with its tables of 0x54 characters, and the three state bits
-- for shift, control and caps lock.
use xeros_kernel.Base.{
  ℕ, Bool, true, false, not, ◌||◌, List, [], ◌∷◌, ltb, ◌==◌, if◌then◌else◌, get_or,
}
use xeros_kernel.Base.Bits.{check_bit, set_bit, clear_bit, toggle_bit}

abbrev pub lower : List ℕ
lower =
    0 ∷ 27 ∷ 49 ∷ 50 ∷ 51 ∷ 52 ∷ 53 ∷ 54 ∷ 55 ∷ 56 ∷ 57 ∷ 48 ∷ 45 ∷ 61 ∷ 8 ∷ 9 ∷ 113 ∷ 119 ∷ 101
    ∷ 114 ∷ 116 ∷ 121 ∷ 117 ∷ 105 ∷ 111 ∷ 112 ∷ 91 ∷ 93 ∷ 10 ∷ 0 ∷ 97 ∷ 115 ∷ 100 ∷ 102 ∷ 103 ∷ 104
    ∷ 106 ∷ 107 ∷ 108 ∷ 59 ∷ 39 ∷ 96 ∷ 0 ∷ 92 ∷ 122 ∷ 120 ∷ 99 ∷ 118 ∷ 98 ∷ 110 ∷ 109 ∷ 44 ∷ 46 ∷ 47
    ∷ 0 ∷ 42 ∷ 0 ∷ 32 ∷ 0 ∷ 0 ∷ 0 ∷ 0 ∷ 0 ∷ 0 ∷ 0 ∷ 0 ∷ 0 ∷ 0 ∷ 0 ∷ 0 ∷ 0 ∷ 0 ∷ 0 ∷ 0 ∷ 45 ∷ 0 ∷ 0
    ∷ 0 ∷ 43 ∷ 0 ∷ 0 ∷ 0 ∷ 0 ∷ 0 ∷ []

abbrev pub upper : List ℕ
upper =
    0 ∷ 27 ∷ 33 ∷ 64 ∷ 35 ∷ 36 ∷ 37 ∷ 94 ∷ 38 ∷ 42 ∷ 40 ∷ 41 ∷ 95 ∷ 43 ∷ 8 ∷ 9 ∷ 81 ∷ 87 ∷ 69 ∷ 82
    ∷ 84 ∷ 89 ∷ 85 ∷ 73 ∷ 79 ∷ 80 ∷ 123 ∷ 125 ∷ 10 ∷ 0 ∷ 65 ∷ 83 ∷ 68 ∷ 70 ∷ 71 ∷ 72 ∷ 74 ∷ 75 ∷ 76
    ∷ 58 ∷ 34 ∷ 126 ∷ 0 ∷ 124 ∷ 90 ∷ 88 ∷ 67 ∷ 86 ∷ 66 ∷ 78 ∷ 77 ∷ 60 ∷ 62 ∷ 63 ∷ 0 ∷ 0 ∷ 0 ∷ 32 ∷ 0
    ∷ 0 ∷ 0 ∷ 0 ∷ 0 ∷ 0 ∷ 0 ∷ 0 ∷ 0 ∷ 0 ∷ 0 ∷ 0 ∷ 0 ∷ 55 ∷ 56 ∷ 57 ∷ 45 ∷ 52 ∷ 53 ∷ 54 ∷ 43 ∷ 49
    ∷ 50 ∷ 51 ∷ 48 ∷ 46 ∷ []

abbrev pub ctrl : List ℕ
ctrl =
    0 ∷ 27 ∷ 0 ∷ 0 ∷ 0 ∷ 0 ∷ 0 ∷ 30 ∷ 0 ∷ 0 ∷ 0 ∷ 0 ∷ 31 ∷ 0 ∷ 127 ∷ 0 ∷ 17 ∷ 23 ∷ 5 ∷ 18 ∷ 20 ∷ 25
    ∷ 21 ∷ 9 ∷ 15 ∷ 16 ∷ 27 ∷ 29 ∷ 10 ∷ 0 ∷ 1 ∷ 19 ∷ 4 ∷ 6 ∷ 7 ∷ 8 ∷ 10 ∷ 11 ∷ 12 ∷ 0 ∷ 0 ∷ 0 ∷ 0
    ∷ 28 ∷ 26 ∷ 24 ∷ 3 ∷ 22 ∷ 2 ∷ 14 ∷ 13 ∷ 0 ∷ 0 ∷ 0 ∷ 0 ∷ 16 ∷ 0 ∷ 32 ∷ 0 ∷ 0 ∷ 0 ∷ 0 ∷ 0 ∷ 0 ∷ 0
    ∷ 0 ∷ 0 ∷ 0 ∷ 0 ∷ 0 ∷ 0 ∷ 0 ∷ 0 ∷ 0 ∷ 0 ∷ 0 ∷ 0 ∷ 0 ∷ 0 ∷ 0 ∷ 0 ∷ 0 ∷ 0 ∷ 0 ∷ []

abbrev pub shift_bit : ℕ
shift_bit = 0

abbrev pub ctrl_bit : ℕ
ctrl_bit = 1

abbrev pub caplock_bit : ℕ
caplock_bit = 2

abbrev pub xor_bool : Bool → Bool → Bool
xor_bool true b = not b
xor_bool false b = b

-- The character of a scancode, 0 for none.
unfoldable pub character : (flag code : ℕ) → ℕ
character flag code =
    if not (ltb code 0x54)
    then 0
    else if check_bit flag ctrl_bit
    then get_or ctrl code 0
    else if xor_bool (check_bit flag shift_bit) (check_bit flag caplock_bit)
    then get_or upper code 0
    else get_or lower code 0

-- `flag &= ~KEYBOARD_STATE_CTRL_BIT` masks with the bit's number, 1: it clears bit 0.
abbrev pub mask_number : ℕ → ℕ
mask_number flag = clear_bit flag 0

-- The state bits after a scancode that gives no character.
unfoldable pub key_state : (flag code : ℕ) → ℕ
key_state flag code =
    if (code == 0x2A) || (code == 0x36)
    then set_bit flag shift_bit
    else if (code == 0xAA) || (code == 0xB6)
    then clear_bit flag shift_bit
    else if code == 0x1D
    then set_bit flag ctrl_bit
    else if code == 0x9D
    then mask_number (clear_bit flag ctrl_bit)
    else if code == 0x3A
    then toggle_bit flag caplock_bit
    else flag

-- The character and the new state bits.
unfoldable pub keyboard_process_scancode : (flag code : ℕ) → ℕ × ℕ
unfolding character key_state
keyboard_process_scancode flag code =
    let c = character flag code in (c, if c == 0 then key_state flag code else flag)
