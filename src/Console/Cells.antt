-- ===== src/Console/Cells.antt =====
-- The screen as a text of 80 by 25 characters with a cursor, and `kbmputc` on it.
use xeros_kernel.Base.{
  ℕ, zero, suc, ◌+◌, ◌-◌, ◌*◌, ◌/◌, ◌%◌, ◌^◌, ◌≤◌, ◌<◌, ◌≡◌, ◌∙◌, ap, false, ◌&&◌, arith, leb, ltb,
  ◌==◌, if◌then◌else◌, Bool-cases, inl, inr,
}
use xeros_kernel.Base.Int.{pos}
use xeros_kernel.Kernel.Config.{Ptr}
use xeros_kernel.Kernel.Bytes.{Mem, Blkcopy, store_byte}
use xeros_kernel.Signal.{sub32}
use xeros_kernel.Console.{
  Screen, chr, att, screen_end, line_start, blank_loop, rounds, scroll, put_cell,
}

-- The characters by their number, row by row, and the number of the cursor's.
pub record View : Type 0 where
  pub text : ℕ → ℕ
  pub at : ℕ

-- The character `c` at the cursor.
abbrev pub put_at : ℕ → View → View
put_at c v =
    if c == 8
    then record v { at = v.at - 1 }
    else if c == 10
    then record v { at = (v.at / 80 + 1) * 80 }
    else if c == 13
    then record v { at = v.at / 80 * 80 }
    else record { text = λ i. if i == v.at then c else v.text i; at = v.at + 1 }

-- A cursor behind the last line moves the text up by one.
abbrev pub scrolled : View → View
scrolled v =
    if leb 2000 v.at
    then record { text = λ i. if ltb i 1920 then v.text (i + 80) else 32; at = v.at - 80 }
    else v

-- The screen shows the text; the memory outside is `m`.
pub record Shows (m : Mem) (v : View) (s : Screen) : Type 0 where
  pub aligned : s.start % 16 ≡ 0
  pub placed : 1 ≤ s.start
  pub room : s.start + 4160 < 2 ^ 32
  pub cursor : s.crtat ≡ s.start + 2 * v.at
  pub cells : (i : ℕ) → i < 2000 → s.mem (s.start + 2 * i) ≡ v.text i
  pub outside : (a : ℕ) → (leb s.start a && ltb a (s.start + 4000)) ≡ false → s.mem a ≡ m a

line_of : (start n : ℕ) → start + 2 * n - 2 * n % 160 ≡ start + 2 * (n / 80 * 80)
line_of start n = omega arith

module _ (m : Mem) (v : View) (s : Screen) (h : Shows m v s) where
  moved :
      (n : ℕ) (p : Ptr)
      → p ≡ s.start + 2 * n
      → Shows m (record v { at = n }) (record s { crtat = p })
  moved n p e = record {
    aligned = h.aligned;
    placed = h.placed;
    room = h.room;
    cursor = e;
    cells = h.cells;
    outside = h.outside;
  }

  line_start_lem :
      (n : ℕ) → line_start (record s { crtat = s.start + 2 * n }) ≡ s.start + 2 * (n / 80 * 80)
  line_start_lem n = ground arith

  next_line_lem :
      (n : ℕ)
      → line_start (record s { crtat = s.start + 2 * n + 160 }) ≡ s.start + 2 * ((n / 80 + 1) * 80)
  next_line_lem n = ground arith

  module _ (inside : v.at < 2000) where
    written :
        (c : ℕ)
        → Shows m
            (record { text = λ i. if i == v.at then c else v.text i; at = v.at + 1 })
            (record s {
              mem = store_byte (store_byte s.mem s.crtat c) (s.crtat + 1) att;
              crtat = s.crtat + chr;
            })
    unfolding store_byte
    written c = record {
      aligned = h.aligned;
      placed = h.placed;
      room = h.room;
      cursor = omega (arith, h.cursor);
      cells = λ i l. ground (arith, h.cursor, h.cells i l);
      outside = λ a o. ground (arith, h.cursor, h.outside a o);
    }

    pub put_cell_lem : (c : ℕ) → (c ≡ 8 → 1 ≤ v.at) → Shows m (put_at c v) (put_cell c s)
    unfolding put_cell
    put_cell_lem c back = elim (Bool-cases (c == 8)) [
      | inl b ↦ rw b (moved (v.at - 1) (sub32 s.crtat chr) (before (back (ground arith))))
      | inr n8 ↦ elim (Bool-cases (c == 10)) [
        | inl b ↦ rw (n8, b, h.cursor) (moved ((v.at / 80 + 1) * 80) _ (next_line_lem v.at))
        | inr n10 ↦ elim (Bool-cases (c == 13)) [
          | inl b ↦ rw (n8, n10, b, h.cursor) (moved (v.at / 80 * 80) _ (line_start_lem v.at))
          | inr n13 ↦ rw (n8, n10, n13) (written c)
        ]
      ]
    ]
      where
        before : 1 ≤ v.at → sub32 s.crtat chr ≡ s.start + 2 * (v.at - 1)
        before some_at = omega (arith, h.cursor, h.room)

pub blank_loop_lem :
    (n cp a : ℕ) (m : Mem)
    → blank_loop n cp m a
      ≡ (if leb cp a && ltb a (cp + 2 * n) && ((a - cp) % 2 == 0) then 32 else m a)
unfolding blank_loop store_byte
blank_loop_lem zero cp a m = ground arith
blank_loop_lem (suc n) cp a m = blank_loop_lem n (cp + 2) a (store_byte m cp 32) ∙ ground arith

-- The bottom line is blank, and the others are those that were below them.
module _ (lib : Blkcopy) (m : Mem) (v : View) (s : Screen) (h : Shows m v s) where
  reach : leb (screen_end s) s.crtat ≡ leb 2000 v.at
  reach = ground (arith, h.cursor)

  abbrev up : Mem
  up = lib.copy s.mem s.start (s.start + 160) (pos 3840)

  up_cell : (i : ℕ) → i < 1920 → up (s.start + 2 * i) ≡ v.text (i + 80)
  up_cell i l =
      lib.copied s.mem s.start (s.start + 160) 3840 (2 * i) (omega arith)
      ∙ ap s.mem (omega arith)
      ∙ h.cells (i + 80) (omega arith)

  blanked :
      (a : ℕ)
      → blank_loop (rounds (s.start + 3840) (screen_end s)) (s.start + 3840) up a ≡ (
          if leb (s.start + 3840) a && ltb a (s.start + 4000) && ((a - (s.start + 3840)) % 2 == 0)
          then 32
          else up a)
  blanked a =
      let n : rounds (s.start + 3840) (screen_end s) ≡ 80 = omega arith in
      rw n (blank_loop_lem 80 (s.start + 3840) a up ∙ ground arith)

  pub scroll_lem : v.at < 2080 → Shows m (scrolled v) (scroll lib s)
  unfolding scroll
  scroll_lem top = elim (Bool-cases (leb 2000 v.at)) [
    | inr few ↦ rw (reach, few) h
    | inl full ↦
        rw (reach, full)
          (record {
            aligned = h.aligned;
            placed = h.placed;
            room = h.room;
            cursor = ground (arith, h.cursor, full);
            cells = λ i l. blanked (s.start + 2 * i) ∙ ground (arith, up_cell i);
            outside = λ a o.
                blanked a
                ∙ ground (arith, h.outside a o, lib.outside s.mem s.start (s.start + 160) 3840 a);
          })
  ]
