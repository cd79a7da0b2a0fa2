-- ===== src/Console.antt =====
-- c/kprintf.c: the characters on the screen, `kbmputc` and what it is made of.
pub mod Cells
pub mod Text
pub mod Probe
use xeros_kernel.Base.{
  ℕ, zero, suc, ◌+◌, ◌-◌, ◌*◌, ◌/◌, ◌%◌, ◌^◌, Bool, true, false, List, [], ◌∷◌, leb, ltb, ◌==◌,
  if◌then◌else◌, ◌||◌, Option, none, some,
}
use mathlib.Core.Option
use xeros_kernel.Base.Int.{pos}
use xeros_kernel.Kernel.Config.{Ptr, null}
use xeros_kernel.Kernel.Bytes.{Mem, Blkcopy, store_byte}
use xeros_kernel.Signal.{sub32}

abbrev pub col : ℕ
col = 80

abbrev pub row : ℕ
row = 25

-- The bytes of a cell: the character and its attribute.
abbrev pub chr : ℕ
chr = 2

abbrev pub mono_base : ℕ
mono_base = 948

abbrev pub mono_buf : ℕ
mono_buf = 720896

abbrev pub cga_base : ℕ
cga_base = 980

abbrev pub cga_buf : ℕ
cga_buf = 753664

abbrev pub att : ℕ
att = 7

-- The static variables of c/kprintf.c, the memory, and the bytes written to ports, the latest first.
pub record Screen : Type 0 where
  pub mem : Mem
  pub start : Ptr
  pub addr_6845 : ℕ
  pub crtat : Ptr
  pub outs : List (ℕ × ℕ)

-- What the hardware shows at the first character: whether the memory at `CGA_BUF` keeps a written
-- word, and the two bytes of the cursor's position.
pub record Display : Type 0 where
  pub colour : Bool
  pub cursor_high : ℕ
  pub cursor_low : ℕ

-- A byte to a port.
abbrev pub outb : ℕ → ℕ → Screen → Screen
outb port v s = record s { outs = (port, v % 256) ∷ s.outs }

-- `pos >> 8` and `pos & 0xff` of an `int`, whose pattern is `at`.
unfoldable pub cursor : (at : ℕ) → Screen → Screen
cursor at s =
    outb (s.addr_6845 + 1) at
      (outb s.addr_6845 15 (outb (s.addr_6845 + 1) (at / 256) (outb s.addr_6845 14 s)))

-- The pattern of the `int` `(crtat - Crtat) / CHR`, which rounds to 0.
abbrev pub cursor_pos : Screen → ℕ
cursor_pos s =
    if leb s.start s.crtat then (s.crtat - s.start) / chr else 2 ^ 32 - (s.start - s.crtat) / chr

-- `crtat - (crtat - Crtat) % (COL*CHR)`, where the remainder has the sign of the difference.
abbrev pub line_start : Screen → Ptr
line_start s =
    if leb s.start s.crtat
    then s.crtat - (s.crtat - s.start) % (col * chr)
    else s.crtat + (s.start - s.crtat) % (col * chr)

-- The loop that clears the display from a cell on, and the one over the last line.
unfoldable pub clean_loop : ℕ → Ptr → Mem → Mem
clean_loop zero cp m = m
clean_loop (suc n) cp m = clean_loop n (cp + 2) (store_byte (store_byte m cp 32) (cp + 1) att)

unfoldable pub blank_loop : ℕ → Ptr → Mem → Mem
blank_loop zero cp m = m
blank_loop (suc n) cp m = blank_loop n (cp + 2) (store_byte m cp 32)

-- The rounds that `for (cp = from; cp < to; cp += 2)` makes.
abbrev pub rounds : (from to : Ptr) → ℕ
rounds from to = (to - from + 1) / 2

-- The screen's end.
abbrev pub screen_end : Screen → Ptr
screen_end s = s.start + row * col * chr

-- The branch for the first character. The probe writes the word that it read back to the start of
-- the display that it found.
unfoldable pub find_display : Display → Screen → Screen
find_display d s =
    let start = if d.colour then s.start else mono_buf in
    let addr = if d.colour then s.addr_6845 else mono_base in
    let probed =
      if d.colour
      then s.mem
      else store_byte (store_byte s.mem mono_buf (s.mem s.start)) (mono_buf + 1)
          (s.mem (s.start + 1)) in
    let cursorat = d.cursor_high * 256 + d.cursor_low in
    let at = if leb cursorat (col * row) then start + cursorat * chr else start in
    record {
      mem = clean_loop (rounds at (start + row * col * chr)) at probed;
      start = start;
      addr_6845 = addr;
      crtat = at;
      outs = (addr, 15) ∷ (addr, 14) ∷ s.outs;
    }

-- The cases of the switch but the tab.
unfoldable pub put_cell : ℕ → Screen → Screen
put_cell c s =
    if c == 8
    then record s { crtat = sub32 s.crtat chr }
    else if c == 10
    then record s { crtat = line_start (record s { crtat = s.crtat + col * chr }) }
    else if c == 13
    then record s { crtat = line_start s }
    else record s {
      mem = store_byte (store_byte s.mem s.crtat c) (s.crtat + 1) att;
      crtat = s.crtat + chr;
    }

module _ (lib : Blkcopy) where
  unfoldable pub scroll : Screen → Screen
  scroll s =
      if leb (screen_end s) s.crtat
      then record s {
        mem =
            blank_loop (rounds (s.start + col * (row - 1) * chr) (screen_end s))
              (s.start + col * (row - 1) * chr)
              (lib.copy s.mem s.start (s.start + col * chr) (pos (col * (row - 1) * chr)));
        crtat = s.crtat - col * chr;
      }
      else s

  -- What follows the switch.
  unfoldable pub settle_cursor : Screen → Screen
  unfolding scroll
  settle_cursor s = let t = scroll s in cursor (cursor_pos t) t

  abbrev pub put_plain : ℕ → Screen → Screen
  put_plain c s = settle_cursor (put_cell c s)

  -- The spaces of a tab. It ends within eight, since the lines' width is a multiple of eight.
  unfoldable pub tab_loop : ℕ → Screen → Option Screen
  tab_loop zero s = none
  tab_loop (suc fuel) s =
      let t = put_plain 32 s in if t.crtat % (8 * chr) == 0 then some t else tab_loop fuel t

  unfoldable pub kbmputc : Display → ℕ → Screen → Option Screen
  unfolding tab_loop
  kbmputc d c s =
      let t = if s.crtat == 0 then find_display d s else s in
      if c == 0
      then some s
      else if c == 9
      then Option.map settle_cursor (tab_loop 8 t)
      else some (put_plain c t)

  unfoldable pub kputc : Display → ℕ → Screen → Option (Screen × ℕ)
  unfolding kbmputc
  kputc d c s = Option.map (λ t. (t, c)) (kbmputc d c s)

  -- `_doprnt` of the C library formats the arguments and calls `kputc` for the characters, one after
  -- the other.
  unfoldable pub print_loop : Display → List ℕ → Screen → Option Screen
  unfolding kputc
  print_loop d [] s = some s
  print_loop d (c ∷ cs) s = Option.bind (kputc d c s) (λ r. print_loop d cs r.0)

  unfoldable pub kprintf :
      (doprnt : Mem → Ptr → Ptr → List ℕ) → Display → (fmt ap : Ptr) → Screen → Option (Screen × ℕ)
  unfolding print_loop
  kprintf doprnt d fmt ap s = Option.map (λ t. (t, 1)) (print_loop d (doprnt s.mem fmt ap) s)
