-- ===== src/Keyboard/Ring.antt =====
-- The ring of typed characters of c/kbd.c, as the list of the characters in it.
use xeros_kernel.Base.{
  ℕ, zero, suc, ◌+◌, ◌-◌, ◌%◌, ◌<◌, ◌≡◌, refl, ◌≢◌, ◌∙◌, ap, Bool, true, false, not, ◌&&◌, List, [],
  ◌∷◌, ◌++◌, arith, ◌==◌, if◌then◌else◌, get_or, set, length, length-set, get_or-set_self,
  get_or-set_ne, Bool-cases, inl, inr, ==_of_ne, ne_of_==,
}
use xeros_kernel.Base.Int.{pos, ltb_ℤ}
use xeros_kernel.Kernel.Types.{Kernel, Keyboard}
use xeros_kernel.Kernel.Cmd.{Returns, returns}
use xeros_kernel.Keyboard.{keyboard_buffer_size, keyboard_isr}
use xeros_kernel.Keyboard.Scancodes.{keyboard_process_scancode}

-- `n` characters from index `t` on, round the end of the buffer.
abbrev pub ring_from : List ℕ → (n t : ℕ) → List ℕ
ring_from b zero t = []
ring_from b (suc n) t = get_or b t 0 ∷ ring_from b n ((t + 1) % 5)

abbrev pub ring_size : (head tail : ℕ) → ℕ
ring_size head tail = (head + 5 - tail) % 5

abbrev pub typed : Keyboard → List ℕ
typed d = ring_from d.buffer (ring_size d.buffer_head d.buffer_tail) d.buffer_tail

pub record IsRing (d : Keyboard) : Type 0 where
  pub five : length d.buffer ≡ keyboard_buffer_size
  pub head : d.buffer_head < keyboard_buffer_size
  pub tail : d.buffer_tail < keyboard_buffer_size

ring_from-suc :
    (b : List ℕ) (n t : ℕ)
    → t < 5
    → ring_from b (suc n) t ≡ ring_from b n t ++ (get_or b ((t + n) % 5) 0 ∷ [])
ring_from-suc b zero t h = let e : (t + 0) % 5 ≡ t = omega arith in rw e refl
ring_from-suc b (suc n) t h =
    let e : ((t + 1) % 5 + n) % 5 ≡ (t + suc n) % 5 = omega arith in
    ap (λ r. get_or b t 0 ∷ r) (rw e at (ring_from-suc b n ((t + 1) % 5) (omega arith)))

ring_from-set :
    (b : List ℕ) (h c n t : ℕ)
    → t < 5
    → n < 5
    → (t + n) % 5 ≡ h
    → ring_from (set b h c) n t ≡ ring_from b n t
ring_from-set b h c zero t lt le e = refl
ring_from-set b h c (suc n) t lt le e =
    let ne : h ≢ t = omega arith in
    rw
      (
        get_or-set_ne b h t c 0 ne,
        ring_from-set b h c n ((t + 1) % 5) (omega arith) (omega arith) (omega arith),
      )
      refl

-- One more character at the end.
pub ring-put :
    (b : List ℕ) (head tail c : ℕ)
    → length b ≡ 5
    → head < 5
    → tail < 5
    → (head + 1) % 5 ≢ tail
    → ring_from (set b head c) (ring_size ((head + 1) % 5) tail) tail
      ≡ ring_from b (ring_size head tail) tail ++ (c ∷ [])
ring-put b head tail c five lh lt room =
    let more : ring_size ((head + 1) % 5) tail ≡ suc (ring_size head tail) = omega arith in
    let end : (tail + ring_size head tail) % 5 ≡ head = omega arith in
    let few : ring_size head tail < 5 = omega arith in
    rw
      (
        more,
        ring_from-suc (set b head c) (ring_size head tail) tail lt,
        end,
        ring_from-set b head c (ring_size head tail) tail lt few end,
        get_or-set_self b head c 0 (omega arith),
      )
      refl

-- The character of a scancode, in the current state of the shift and control keys.
abbrev pub char_of : Keyboard → ℕ → ℕ
char_of d scancode = (keyboard_process_scancode d.keystate_flag scancode).0

abbrev pub full : Keyboard → Bool
full d = (d.buffer_head + 1) % keyboard_buffer_size == d.buffer_tail

-- If the ring has five places and both its indices are in range, no read is waiting, and the
-- scancode stands for a character, the keyboard's interrupt appends the character to the ring's
-- contents, or drops it if the ring holds four already; the ring stays well formed.
pub keyboard_isr_lem :
    (k : Kernel) (scancode : ℕ)
    → IsRing k.kbd
    → ltb_ℤ (pos 0) k.kbd.task_refcount ≡ false
    → char_of k.kbd scancode ≢ 0
    → Returns
        (λ _ k'.
          (typed k'.kbd
            ≡ (if full k.kbd then typed k.kbd else typed k.kbd ++ (char_of k.kbd scancode ∷ [])))
          × IsRing k'.kbd)
        (keyboard_isr true scancode k)
unfolding keyboard_isr
keyboard_isr_lem k scancode ring idle some_char =
    let c = char_of k.kbd scancode in
    rw (==_of_ne c 0 some_char, idle)
      (elim (Bool-cases (full k.kbd)) [
        | inl f ↦
            rw f (returns (refl, record { five = ring.five; head = ring.head; tail = ring.tail }))
        | inr f ↦ rw f (elim (Bool-cases (k.kbd.echo_flag && not (c == k.kbd.eof))) [
          | inl echo ↦ rw echo (returns (put (ne_of_== _ _ f), still))
          | inr silent ↦ rw silent (returns (put (ne_of_== _ _ f), still))
        ])
      ])
  where
    after : Keyboard
    after = record (k.kbd) {
      keystate_flag = (keyboard_process_scancode k.kbd.keystate_flag scancode).1;
      buffer = set k.kbd.buffer k.kbd.buffer_head (char_of k.kbd scancode);
      buffer_head = (k.kbd.buffer_head + 1) % keyboard_buffer_size;
    }

    put :
        (k.kbd.buffer_head + 1) % keyboard_buffer_size ≢ k.kbd.buffer_tail
        → typed after ≡ typed k.kbd ++ (char_of k.kbd scancode ∷ [])
    put =
        ring-put k.kbd.buffer k.kbd.buffer_head k.kbd.buffer_tail (char_of k.kbd scancode) ring.five
          ring.head ring.tail

    still : IsRing after
    still = record {
      five = length-set k.kbd.buffer k.kbd.buffer_head (char_of k.kbd scancode) ∙ ring.five;
      head = omega arith;
      tail = ring.tail;
    }
