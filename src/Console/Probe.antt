-- ===== src/Console/Probe.antt =====
-- The first character of `kbmputc`: where it finds the display and the cursor.
use xeros_kernel.Base.{
  ℕ, ◌≢◌, ==_of_ne, zero, suc, ◌+◌, ◌-◌, ◌*◌, ◌/◌, ◌%◌, ◌<◌, ◌≡◌, refl, ◌∙◌, sym, ap, true, ◌&&◌,
  some, arith, leb, ltb, ◌==◌, if◌then◌else◌,
}
use xeros_kernel.Base.Int.{pos}
use xeros_kernel.Kernel.Config.{Ptr}
use xeros_kernel.Kernel.Bytes.{Mem, Blkcopy, store_byte}
use xeros_kernel.Console.{
  Screen, Display, cga_buf, clean_loop, rounds, find_display, scroll, settle_cursor, put_cell,
  put_plain, cursor, kbmputc,
}
use xeros_kernel.Console.Cells.{View, Shows, blank_loop_lem}

clean_loop_lem :
    (n cp a : ℕ) (m : Mem)
    → clean_loop n cp m a
      ≡ (if leb cp a && ltb a (cp + 2 * n) then (if (a - cp) % 2 == 0 then 32 else 7) else m a)
unfolding clean_loop store_byte
clean_loop_lem zero cp a m = ground arith
clean_loop_lem (suc n) cp a m =
    clean_loop_lem n (cp + 2) a (store_byte (store_byte m cp 32) (cp + 1) 7) ∙ ground arith

-- The text behind the cursor is cleaned.
abbrev pub found_view : Mem → ℕ → View
found_view m n = record { text = λ i. if ltb i n then m (cga_buf + 2 * i) else 32; at = n }

-- If a colour display's cursor is inside, it is found.
pub find_display_lem :
    (d : Display) (s : Screen)
    → s.start ≡ cga_buf
    → d.colour ≡ true
    → d.cursor_high * 256 + d.cursor_low < 2000
    → Shows s.mem (found_view s.mem (d.cursor_high * 256 + d.cursor_low)) (find_display d s)
unfolding find_display
find_display_lem d s st colour inside =
    let close : leb (d.cursor_high * 256 + d.cursor_low) 2000 ≡ true = ground arith in
    rw (st, colour, close)
      (record {
        aligned = refl;
        placed = omega arith;
        room = omega arith;
        cursor = omega arith;
        cells = λ i l. cleaned (cga_buf + 2 * i) ∙ ground arith;
        outside = λ a o. cleaned a ∙ ground arith;
      })
  where
    n : ℕ
    n = d.cursor_high * 256 + d.cursor_low

    cleaned :
        (a : Ptr)
        → clean_loop (rounds (cga_buf + n * 2) (cga_buf + 4000)) (cga_buf + n * 2) s.mem a ≡ (
            if leb (cga_buf + n * 2) a && ltb a (cga_buf + 4000)
            then (if (a - (cga_buf + n * 2)) % 2 == 0 then 32 else 7)
            else s.mem a)
    cleaned a =
        clean_loop_lem (rounds (cga_buf + n * 2) (cga_buf + 4000)) (cga_buf + n * 2) a s.mem
        ∙ ground arith

found_at :
    (d : Display) (s : Screen)
    → s.start ≡ cga_buf
    → d.colour ≡ true
    → d.cursor_high * 256 + d.cursor_low ≡ 2000
    → ((find_display d s).start ≡ cga_buf) × ((find_display d s).crtat ≡ cga_buf + 4000)
unfolding find_display
found_at d s st colour last = rw (st, colour, last) (refl, refl)

module _ (lib : Blkcopy) where
  -- A character behind the last cell is written there, and a scroll leaves it.
  beyond :
      (c : ℕ) (s : Screen)
      → s.crtat ≡ s.start + 4000
      → (c ≢ 8) × (c ≢ 10) × (c ≢ 13)
      → (put_plain lib c s).mem (s.start + 4000) ≡ c
  unfolding settle_cursor cursor scroll put_cell store_byte
  beyond c s e (n8, n10, n13) =
      let full : leb (s.start + 4000) (s.start + 4000 + 2) ≡ true = ground arith in
      rw (==_of_ne c 8 n8, ==_of_ne c 10 n10, ==_of_ne c 13 n13, e, full)
        (blank_loop_lem ((s.start + 4000 - (s.start + 3840) + 1) / 2) (s.start + 3840)
            (s.start + 4000) (lib.copy written s.start (s.start + 160) (pos 3840))
          ∙ ground (arith, lib.outside written s.start (s.start + 160) 3840 (s.start + 4000)))
    where
      written : Mem
      written = store_byte (store_byte s.mem (s.start + 4000) c) (s.start + 4000 + 1) 7

  -- If a colour display has its cursor behind the last cell when the kernel starts, then the first
  -- character, if it is a printed one, is written behind the screen, and `kbmputc` returns.
  pub find_display-beyond :
      (d : Display) (c : ℕ) (s : Screen)
      → s.start ≡ cga_buf
      → s.crtat ≡ 0
      → d.colour ≡ true
      → d.cursor_high * 256 + d.cursor_low ≡ 2000
      → (c ≢ 0) × (c ≢ 8) × (c ≢ 9) × (c ≢ 10) × (c ≢ 13)
      → (t : Screen) × (kbmputc lib d c s ≡ some t) × (t.mem (cga_buf + 4000) ≡ c)
  unfolding kbmputc
  find_display-beyond d c s st at colour last (n0, n8, n9, n10, n13) =
      let zero_at : (s.crtat == 0) ≡ true = ground arith in
      simp (==_of_ne c 0 n0, zero_at, ==_of_ne c 9 n9)
        (put_plain lib c (find_display d s), refl, ends)
    where
      found : ((find_display d s).start ≡ cga_buf) × ((find_display d s).crtat ≡ cga_buf + 4000)
      found = found_at d s st colour last

      ends : (put_plain lib c (find_display d s)).mem (cga_buf + 4000) ≡ c
      ends =
          ap (λ a. (put_plain lib c (find_display d s)).mem (a + 4000)) (sym found.0)
          ∙ beyond c (find_display d s) (found.1 ∙ ap (λ a. a + 4000) (sym found.0)) (n8, n10, n13)
