-- ===== src/Hardware/Gates.antt =====
-- The interrupt descriptor table.
use xeros_kernel.Base.{
  ℕ, ◌∙◌, Bool-cases, inl, inr, ==_of_ne, zero, suc, ◌+◌, ◌*◌, ◌^◌, ◌≤◌, ◌<◌, ◌≡◌, refl, ◌≢◌, ◌&&◌,
  false, true, arith, ltb, leb, ◌==◌, if◌then◌else◌,
}
use xeros_kernel.Kernel.Config.{Ptr}
use xeros_kernel.Kernel.Types.{Kernel, Idt}
use xeros_kernel.Kernel.Cmd.{◌>>◌, Returns, returns}
use xeros_kernel.Kernel.Access.{bind, mono}
use xeros_kernel.Hardware.{
  Entries, gate, no_gate, set_evec, evec_loop, initevec, init8259, contextinit, nid,
}

-- Where a gate leads to.
abbrev pub target_of : Idt → Ptr
target_of g = g.igd_loffset + 2 ^ 16 * g.igd_hoffset

-- A trap gate of the kernel, which leads to the address.
abbrev pub LeadsTo : Ptr → Idt → Type 0
LeadsTo handler g =
    (target_of g ≡ handler)
    × (g.igd_segsel ≡ 8)
    × (g.igd_type ≡ 15)
    × (g.igd_dpl ≡ 0)
    × (g.igd_present ≡ 1)

gate-LeadsTo : (handler : Ptr) (g : Idt) → handler < 2 ^ 32 → LeadsTo handler (gate handler g)
gate-LeadsTo handler g h = (omega arith, refl, refl, refl, refl)

evec_loop_lem :
    (e : Entries) (n i : ℕ) (k : Kernel)
    → Returns
        (λ _ k'.
          (j : ℕ)
          → k'.idt j ≡ (if leb i j && ltb j (i + n) then gate (e.defevec j) (k.idt j) else k.idt j))
        (evec_loop e n i k)
unfolding evec_loop set_evec
evec_loop_lem e zero i k = returns (λ j. ground arith)
evec_loop_lem e (suc n) i k = mono (evec_loop_lem e n (i + 1) _) λ _ k' h j. h j ∙ first j
  where
    first :
        (j : ℕ)
        → (if leb (i + 1) j && ltb j (i + 1 + n)
            then gate (e.defevec j) (if j == i then gate (e.defevec i) (k.idt i) else k.idt j)
            else if j == i
            then gate (e.defevec i) (k.idt i)
            else k.idt j)
          ≡ (if leb i j && ltb j (i + suc n) then gate (e.defevec j) (k.idt j) else k.idt j)
    first j = elim (Bool-cases (j == i)) [
      | inl t ↦ let q : j ≡ i = ground arith in rw q (ground arith)
      | inr f ↦ rw f (ground arith)
    ]

-- The table after `initevec`.
abbrev table : Entries → (ℕ → Idt) → ℕ → Idt
table e before i =
    if ltb i 48 then gate (e.defevec i) no_gate else if ltb i 256 then no_gate else before i

initevec_lem :
    (e : Entries) (k : Kernel)
    → Returns (λ _ k'. (i : ℕ) → k'.idt i ≡ table e k.idt i) (initevec e k)
unfolding initevec init8259
initevec_lem e k =
    bind (evec_loop_lem e nid 0 (record k { idt = λ i. if ltb i 256 then no_gate else k.idt i }))
      λ _ k1 h. returns (λ i. h i ∙ ground arith)

-- If the entry points are addresses of 32 bits, `initevec` followed by `contextinit` returns, and
-- leaves an interrupt table in which the gates 255, 32 and 33 lead to the entry points of system
-- calls, the timer and the keyboard, every other of the first 48 leads to its default vector, all
-- of these are present trap gates of the kernel's code segment, and the gates from 48 to 254 are
-- absent.
pub contextinit-initevec :
    (e : Entries) (k : Kernel)
    → ((i : ℕ) → i < 48 → e.defevec i < 2 ^ 32)
    → e.syscall_entry_point < 2 ^ 32
    → e.timer_entry_point < 2 ^ 32
    → e.keyboard_entry_point < 2 ^ 32
    → Returns
        (λ _ k'.
          LeadsTo e.syscall_entry_point (k'.idt 255)
          × LeadsTo e.timer_entry_point (k'.idt 32)
          × LeadsTo e.keyboard_entry_point (k'.idt 33)
          × ((i : ℕ) → i < 48 → i ≢ 32 → i ≢ 33 → LeadsTo (e.defevec i) (k'.idt i))
          × ((i : ℕ) → 48 ≤ i → i < 255 → (k'.idt i).igd_present ≡ 0))
        ((initevec e >> contextinit e) k)
unfolding contextinit set_evec
contextinit-initevec e k d s t b = bind (initevec_lem e k) λ _ k1 h. returns (
  gate-LeadsTo e.syscall_entry_point (k1.idt 255) s,
  gate-LeadsTo e.timer_entry_point (k1.idt 32) t,
  gate-LeadsTo e.keyboard_entry_point (k1.idt 33) b,
  (λ i l n32 n33.
      let low : ltb i 48 ≡ true = ground arith in
      rw (==_of_ne i 33 n33, ==_of_ne i 32 n32, ==_of_ne i 255 (omega arith), h i, low)
        (gate-LeadsTo (e.defevec i) no_gate (d i l))),
  (λ i lo hi.
      let high : ltb i 48 ≡ false = ground arith in
      let inside : ltb i 256 ≡ true = ground arith in
      rw
        (
          ==_of_ne i 33 (omega arith),
          ==_of_ne i 32 (omega arith),
          ==_of_ne i 255 (omega arith),
          h i,
          high,
          inside,
        )
        refl),
)
