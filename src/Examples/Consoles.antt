-- ===== src/Examples/Consoles.antt =====
-- A screen with the cursor in its second row, on which characters are typed.
use xeros_kernel.Base.{ℕ, ◌+◌, ◌≡◌, refl, true, List, [], ◌∷◌, some, arith}
use xeros_kernel.Kernel.Config.{Ptr}
use xeros_kernel.Kernel.Bytes.{Mem, block_copy}
use xeros_kernel.Console.{Screen, Display, cga_base, cga_buf, kbmputc}
use xeros_kernel.Console.Cells.{View}
use xeros_kernel.Console.Text.{Displays, type_view, kbmputc_lem}
use xeros_kernel.Console.Probe.{find_display-beyond}

abbrev stars : Mem
stars a = 42

abbrev screen : Screen
screen = record {
  mem = stars;
  start = cga_buf;
  addr_6845 = cga_base;
  crtat = cga_buf + 170;
  outs = (cga_base + 1, 85) ∷ (cga_base, 15) ∷ (cga_base + 1, 0) ∷ (cga_base, 14) ∷ [];
}

abbrev view : View
view = record { text = stars; at = 85 }

abbrev display : Display
display = record { colour = true; cursor_high = 0; cursor_low = 85 }

screen-Displays : Displays stars view screen
screen-Displays = (
  record {
    aligned = refl;
    placed = omega arith;
    room = omega arith;
    cursor = refl;
    cells = λ i l. refl;
    outside = λ a o. refl;
  },
  omega arith,
  ([], refl),
)

kbmputc_lem_example :
    (t : Screen) × (kbmputc block_copy display 9 screen ≡ some t)
    × Displays stars (type_view 9 view) t
kbmputc_lem_example =
    kbmputc_lem block_copy stars display 9 view screen screen-Displays
      (λ e. absurd (omega (arith, e)))

abbrev formatted : Mem → Ptr → Ptr → List ℕ
formatted m fmt ap = 72 ∷ 105 ∷ 10 ∷ []

find_display-beyond_example :
    (t : Screen) × (kbmputc block_copy
        (record display { cursor_high = 7; cursor_low = 208 })
        72
        (record screen { crtat = 0 })
      ≡ some t)
    × (t.mem (cga_buf + 4000) ≡ 72)
find_display-beyond_example =
    find_display-beyond block_copy (record display { cursor_high = 7; cursor_low = 208 }) 72
      (record screen { crtat = 0 }) refl refl refl refl
      (omega arith, omega arith, omega arith, omega arith, omega arith)
