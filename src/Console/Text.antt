-- ===== src/Console/Text.antt =====
-- Whole characters on the screen: `kbmputc` with the scroll, the cursor and the tab.
use xeros_kernel.Base.{
  ℕ, zero, suc, ◌+◌, ◌-◌, ◌/◌, ◌%◌, ◌≤◌, ◌<◌, ◌≡◌, refl, ap, true, false, List, [], ◌∷◌, some,
  arith, leb, ◌==◌, if◌then◌else◌, Bool-cases, inl, inr, has,
}
use xeros_kernel.Kernel.Config.{Ptr}
use xeros_kernel.Kernel.Bytes.{Mem, Blkcopy}
use xeros_kernel.Console.{
  Screen, Display, cursor, cursor_pos, scroll, settle_cursor, put_cell, put_plain, tab_loop,
  kbmputc, kputc, print_loop, kprintf,
}
use xeros_kernel.Console.Cells.{View, put_at, scrolled, Shows, put_cell_lem, scroll_lem}

-- The bytes that the display's controller got last are the number of the cursor's cell.
abbrev pub CursorAt : Screen → ℕ → Type 0
CursorAt s n =
    (earlier : List (ℕ × ℕ)) × (s.outs
      ≡ (s.addr_6845 + 1, n % 256)
        ∷ (s.addr_6845, 15)
        ∷ (s.addr_6845 + 1, n / 256 % 256)
        ∷ (s.addr_6845, 14)
        ∷ earlier)

-- The screen shows the text, with the cursor on it, also as the controller knows it.
abbrev pub Displays : Mem → View → Screen → Type 0
Displays m v s = Shows m v s × (v.at < 2000) × CursorAt s v.at

abbrev pub put_view : ℕ → View → View
put_view c v = scrolled (put_at c v)

abbrev pub spaces : ℕ → View → View
spaces zero v = v
spaces (suc n) v = spaces n (put_view 32 v)

-- A character: nothing for 0, spaces up to the next multiple of 8 for a tab.
abbrev pub type_view : ℕ → View → View
type_view c v = if c == 0 then v else if c == 9 then spaces (8 - v.at % 8) v else put_view c v

column_next : (v : View) → (put_view 32 v).at % 8 ≡ (v.at + 1) % 8
column_next v = ground arith

spaces_last : (v : View) → v.at % 8 ≡ 7 → spaces (8 - v.at % 8) v ≡ put_view 32 v
spaces_last v e = rw e refl

spaces_more :
    (v : View)
    → (v.at % 8 == 7) ≡ false
    → spaces (8 - v.at % 8) v ≡ spaces (8 - (put_view 32 v).at % 8) (put_view 32 v)
spaces_more v e =
    let n : 8 - v.at % 8 ≡ suc (8 - (v.at + 1) % 8) = ground arith in rw (n, column_next v) refl

abbrev pub type_all : List ℕ → View → View
type_all [] v = v
type_all (c ∷ cs) v = type_all cs (type_view c v)

module _ (lib : Blkcopy) (m : Mem) where
  settle_cursor_lem :
      (v : View) (s : Screen)
      → Shows m v s
      → v.at < 2080
      → Displays m (scrolled v) (settle_cursor lib s)
  unfolding settle_cursor cursor
  settle_cursor_lem v s h top =
      let t = scroll_lem lib m v s h top in
      let pos : cursor_pos (scroll lib s) ≡ (scrolled v).at = ground (arith, t.cursor) in
      (
        record {
          aligned = t.aligned;
          placed = t.placed;
          room = t.room;
          cursor = t.cursor;
          cells = t.cells;
          outside = t.outside;
        },
        ground arith,
        rw pos ((scroll lib s).outs, refl),
      )

  put_plain_lem :
      (c : ℕ) (v : View) (s : Screen)
      → Shows m v s
      → v.at < 2000
      → (c ≡ 8 → 1 ≤ v.at)
      → Displays m (put_view c v) (put_plain lib c s)
  put_plain_lem c v s h inside back =
      settle_cursor_lem (put_at c v) (put_cell c s) (put_cell_lem m v s h inside c back)
        (ground arith)

  tab_loop_lem :
      (fuel : ℕ) (v : View) (s : Screen)
      → Shows m v s
      → v.at < 2000
      → 8 ≤ v.at % 8 + fuel
      → (t : Screen) × (tab_loop lib fuel s ≡ some t) × Displays m (spaces (8 - v.at % 8) v) t
  unfolding tab_loop
  tab_loop_lem zero v s h inside enough = absurd (omega arith)
  tab_loop_lem (suc fuel) v s h inside enough =
      let d = put_plain_lem 32 v s h inside (λ e. absurd (omega arith)) in
      let stop : ((put_plain lib 32 s).crtat % 16 == 0) ≡ (v.at % 8 == 7) =
        ends (put_view 32 v) (put_plain lib 32 s) d.0 (column_next v) in
      elim (Bool-cases (v.at % 8 == 7)) [
        | inl e ↦ rw (stop, e) (put_plain lib 32 s, refl, rw (spaces_last v (ground arith)) d)
        | inr e ↦
            let (t, eq, r) =
              tab_loop_lem fuel (put_view 32 v) (put_plain lib 32 s) d.0 d.1 (more e) in
            rw (stop, e) (t, eq, rw (spaces_more v e) r)
      ]
    where
      ends :
          (w : View) (t : Screen)
          → Shows m w t
          → w.at % 8 ≡ (v.at + 1) % 8
          → (t.crtat % 16 == 0) ≡ (v.at % 8 == 7)
      ends w t g e = ground (arith, g.cursor, g.aligned)

      more : (v.at % 8 == 7) ≡ false → 8 ≤ (put_view 32 v).at % 8 + fuel
      more e = let c = column_next v in ground arith

  -- If the screen displays a text, starts at a multiple of 16 and was found before, then `kbmputc`
  -- of any character returns, but for a backspace in the first cell, and displays the text with the
  -- character: 0 changes nothing, a backspace, a line feed (which also returns) and a return move
  -- the cursor, a tab writes spaces up to the next multiple of 8, any other is written at the
  -- cursor; behind the last line the text moves up and the last line is blank. The memory outside
  -- of the screen is not changed, and the controller gets the cursor's cell.
  pub kbmputc_lem :
      (d : Display) (c : ℕ) (v : View) (s : Screen)
      → Displays m v s
      → (c ≡ 8 → 1 ≤ v.at)
      → (t : Screen) × (kbmputc lib d c s ≡ some t) × Displays m (type_view c v) t
  unfolding kbmputc
  kbmputc_lem d c v s shown back =
      let (h, inside, at) = shown in
      let found : (s.crtat == 0) ≡ false = ground (arith, h.cursor, h.placed) in
      elim (Bool-cases (c == 0)) [
        | inl e ↦ rw e (s, refl, shown)
        | inr n0 ↦ elim (Bool-cases (c == 9)) [
          | inr n9 ↦ rw (n0, n9, found) (put_plain lib c s, refl, put_plain_lem c v s h inside back)
          | inl e ↦
              let (t, eq, r) = tab_loop_lem 8 v s h inside (omega arith) in
              let again = settle_cursor_lem (spaces (8 - v.at % 8) v) t r.0 (omega (arith, r.1)) in
              rw (n0, e, found, eq)
                (settle_cursor lib t, refl, rw (stays (spaces (8 - v.at % 8) v) r.1) at again)
        ]
      ]
    where
      stays : (w : View) → w.at < 2000 → scrolled w ≡ w
      stays w l = let f : leb 2000 w.at ≡ false = ground arith in rw f refl

  print_loop_lem :
      (d : Display) (cs : List ℕ) (v : View) (s : Screen)
      → Displays m v s
      → has 8 cs ≡ false
      → (t : Screen) × (print_loop lib d cs s ≡ some t) × Displays m (type_all cs v) t
  unfolding print_loop kputc mathlib.Core.Option.bind
  print_loop_lem d [] v s shown plain = (s, refl, shown)
  print_loop_lem d (c ∷ cs) v s shown plain =
      let (t, e, r) = kbmputc_lem d c v s shown (λ b. absurd (differ (ground arith))) in
      let (u, f, q) = print_loop_lem d cs (type_view c v) t r (ground arith) in
      rw (e, f) (u, refl, q)
    where
      differ : true ≡ false → ⊥
      differ e = cc

  -- If the screen displays a text, and what `_doprnt` makes of the format has no backspace, then
  -- `kprintf` returns 1, and the screen displays the text with these characters typed one after the
  -- other; the memory outside of the screen is not changed.
  pub kprintf_lem :
      (doprnt : Mem → Ptr → Ptr → List ℕ) (d : Display) (fmt ap : Ptr) (v : View) (s : Screen)
      → Displays m v s
      → has 8 (doprnt s.mem fmt ap) ≡ false
      → (t : Screen) × (kprintf lib doprnt d fmt ap s ≡ some (t, 1))
        × Displays m (type_all (doprnt s.mem fmt ap) v) t
  unfolding kprintf
  kprintf_lem doprnt d fmt ap v s shown plain =
      let (t, e, r) = print_loop_lem d (doprnt s.mem fmt ap) v s shown plain in rw e (t, refl, r)
