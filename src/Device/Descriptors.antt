-- ===== src/Device/Descriptors.antt =====
-- File descriptors in c/di_calls.c: what `di_open` gives out, and what the other calls refuse.
use xeros_kernel.Base.{
  ℕ, zero, suc, ◌+◌, ◌≤◌, ◌<◌, ◌≡◌, refl, ◌≢◌, ap, Bool, true, false, not, ◌&&◌, ◌||◌, List, [],
  ◌∷◌, Option, none, some, arith, leb, ◌==◌, get_or, set, length, inl, inr, Bool-cases, ==_of_ne,
  ==_refl, get_or-set_self,
}
use xeros_kernel.Base.Int.{ℤ, pos, ltb_ℤ, leb_ℤ, ◌==ℤ◌, ◌+ℤ◌, ◌-ℤ◌}
use xeros_kernel.Kernel.Config.{Ptr, null, num_devices, pcb_max_fds, syserr}
use xeros_kernel.Kernel.Types.{Kernel}
use xeros_kernel.Kernel.Cmd.{done, ◌>>=◌, put_pcb, Returns, returns}
use xeros_kernel.Kernel.Access.{load-done, update-done}
use xeros_kernel.Keyboard.{kbd_open, kbd_close, task_index}
use xeros_kernel.Device.{is_none, find_fd, valid_fd, di_open, di_close, di_write, di_read, di_ioctl}

find_fd-suc : (fds : List (Option ℕ)) (i : ℕ) → find_fd fds (i + 1) ≡ suc (find_fd fds i)
unfolding find_fd
find_fd-suc [] i = omega arith
find_fd-suc (none ∷ fds) i = omega arith
find_fd-suc (some d ∷ fds) i = find_fd-suc fds (i + 1)

-- The entry found is the first free one, or the end of the table.
pub find_fd_lem :
    (fds : List (Option ℕ))
    → (find_fd fds 0 ≤ length fds)
      × (find_fd fds 0 < length fds → is_none (get_or fds (find_fd fds 0) (some 0)) ≡ true)
      × ((j : ℕ) → j < find_fd fds 0 → is_none (get_or fds j none) ≡ false)
unfolding find_fd
find_fd_lem [] = (omega arith, λ h. absurd (omega arith), λ j h. absurd (omega arith))
find_fd_lem (none ∷ fds) = (omega arith, λ h. refl, λ j h. absurd (omega arith))
find_fd_lem (some d ∷ fds) =
    let r = find_fd_lem fds in
    rw (find_fd-suc fds 0) (omega (arith, r.0), λ h. r.1 (omega arith), earlier r.2)
  where
    earlier :
        ((j : ℕ) → j < find_fd fds 0 → is_none (get_or fds j none) ≡ false)
        → (j : ℕ) → j < suc (find_fd fds 0)
        → is_none (get_or (some d ∷ fds) j none) ≡ false
    earlier below zero h = refl
    earlier below (suc j) h = below j (omega arith)

-- For a non-NULL process, `di_close`, `di_read`, `di_write` and `di_ioctl` on a descriptor that is
-- out of range or free return SYSERR and change nothing.
pub invalid_fd_lem :
    (k : Kernel) (pcb : Ptr) (fd : ℤ) (buff : Ptr) (len : ℤ) (command : ℕ) (args : Ptr)
    → pcb ≢ null
    → valid_fd (k.pcb pcb) fd ≡ false
    → (di_close pcb fd k ≡ done syserr k)
      × (di_read pcb fd buff len k ≡ done syserr k)
      × (di_write pcb fd buff len k ≡ done syserr k)
      × (di_ioctl pcb fd command args k ≡ done syserr k)
unfolding di_close di_read di_write di_ioctl
invalid_fd_lem k pcb fd buff len command args ne bad = (
  rw (==_of_ne pcb null ne, load-done pcb k ne, bad) refl,
  rw (==_of_ne pcb null ne, load-done pcb k ne, bad) refl,
  rw (==_of_ne pcb null ne, load-done pcb k ne, bad) refl,
  rw (==_of_ne pcb null ne, load-done pcb k ne, bad) refl,
)

module _ (k : Kernel) (pcb : Ptr) (d : ℕ) (ne : pcb ≢ null) where
  -- No device with this number, no free descriptor, or the keyboard open with the other device.
  abbrev pub refused : Bool
  refused =
      leb num_devices d
      || leb pcb_max_fds (find_fd (k.pcb pcb).fd_table 0)
      || (ltb_ℤ (pos 0) k.kbd.refcount && not (k.kbd.current_type == d))

  -- For a non-NULL process, `di_open` of a device number of 2 or more, or without a free
  -- descriptor, or while the keyboard is open as the other device, returns SYSERR and changes
  -- nothing.
  pub di_open-refused : refused ≡ true → di_open pcb (pos d) k ≡ done syserr k
  unfolding di_open kbd_open
  di_open-refused bad =
      let low : ltb_ℤ (pos d) (pos 0) ≡ false = ground arith in
      let high : leb_ℤ (pos num_devices) (pos d) ≡ leb num_devices d = ground arith in
      rw (==_of_ne pcb null ne, low, high)
        (elim (Bool-cases (leb num_devices d)) [
          | inl no_device ↦ rw no_device refl
          | inr device ↦
              rw (device, load-done pcb k ne)
                (elim (Bool-cases (leb pcb_max_fds (find_fd (k.pcb pcb).fd_table 0))) [
                  | inl full ↦ rw full refl
                  | inr room ↦
                      let busy : (ltb_ℤ (pos 0) k.kbd.refcount && not (k.kbd.current_type == d))
                          ≡ true =
                        ground arith in
                      let used : ltb_ℤ (pos 0) k.kbd.refcount ≡ true = ground arith in
                      let other : (k.kbd.current_type == d) ≡ false = ground arith in
                      rw (room, used, other) refl
                ])
        ])

set-none_again :
    (fds : List (Option ℕ)) (i : ℕ) (d : Option ℕ)
    → (i < length fds → is_none (get_or fds i (some 0)) ≡ true)
    → set (set fds i d) i none ≡ fds
set-none_again [] i d free = refl
set-none_again (none ∷ fds) zero d free = refl
set-none_again (some x ∷ fds) zero d free = absurd (differ (free (omega arith)))
  where
    differ : false ≡ true → ⊥
    differ e = cc
set-none_again (x ∷ fds) (suc i) d free =
    ap (λ r. x ∷ r) (set-none_again fds i d (λ h. free (omega arith)))

module _ (k : Kernel) (pcb : Ptr) (d n : ℕ) (ne : pcb ≢ null) where
  -- The state after `di_open` of the device that is open already.
  abbrev pub opened : Kernel
  opened =
      put_pcb pcb
        (λ p. record p { fd_table = set p.fd_table (find_fd (k.pcb pcb).fd_table 0) (some d) })
        (record k { kbd = record (k.kbd) { refcount = k.kbd.refcount +ℤ pos 1 } })

  module _ (device : d < num_devices) (users : k.kbd.refcount ≡ pos (suc n))
      (type : k.kbd.current_type ≡ d) (room : find_fd (k.pcb pcb).fd_table 0 < pcb_max_fds) where
    pub di_open_lem : di_open pcb (pos d) k ≡ done (pos (find_fd (k.pcb pcb).fd_table 0)) opened
    unfolding di_open kbd_open
    di_open_lem =
        let low : ltb_ℤ (pos d) (pos 0) ≡ false = ground arith in
        let high : leb_ℤ (pos num_devices) (pos d) ≡ false = ground arith in
        let free : leb pcb_max_fds (find_fd (k.pcb pcb).fd_table 0) ≡ false = ground arith in
        let used : ltb_ℤ (pos 0) k.kbd.refcount ≡ true = ground arith in
        let same : (k.kbd.current_type == d) ≡ true = ground arith in
        rw
          (
            ==_of_ne pcb null ne,
            low,
            high,
            load-done pcb k ne,
            free,
            used,
            same,
            update-done pcb _ ne _,
          )
          refl

    -- If the keyboard is open already with the same device, one of two, and a non-NULL process with
    -- a table of four has a descriptor free, then `di_open` followed by `di_close` of its result
    -- returns 0, the process' table and the keyboard's reference count are as before, and the
    -- process is not waiting for a read.
    pub open-close :
        length (k.pcb pcb).fd_table ≡ pcb_max_fds
        → Returns
            (λ r k'.
              (r ≡ pos 0)
              × ((k'.pcb pcb).fd_table ≡ (k.pcb pcb).fd_table)
              × (k'.kbd.refcount ≡ k.kbd.refcount)
              × ((k'.kbd.task_list (task_index (k.pcb pcb).pid)).waiting_on_read ≡ false))
            ((di_open pcb (pos d) >>= di_close pcb) k)
    unfolding di_close kbd_close put_pcb valid_fd
    open-close four =
        let fd = find_fd (k.pcb pcb).fd_table 0 in
        let valid : valid_fd (opened.pcb pcb) (pos fd) ≡ true =
          rw (==_refl pcb, get_or-set_self (k.pcb pcb).fd_table fd (some d) none (omega arith))
            (ground arith) in
        let open1 : leb_ℤ (k.kbd.refcount +ℤ pos 1) (pos 0) ≡ false = rw users (ground arith) in
        let open2 : ((k.kbd.refcount +ℤ pos 1) -ℤ pos 1) ==ℤ pos 0 ≡ false =
          rw users (ground arith) in
        let back : (k.kbd.refcount +ℤ pos 1) -ℤ pos 1 ≡ k.kbd.refcount = rw users (ground arith) in
        rw
          (
            di_open_lem,
            ==_of_ne pcb null ne,
            load-done pcb opened ne,
            valid,
            open1,
            open2,
            load-done pcb _ ne,
            update-done pcb _ ne _,
          )
          (returns (
            refl,
            rw (==_refl pcb) (
                set-none_again (k.pcb pcb).fd_table fd (some d)
                  (find_fd_lem (k.pcb pcb).fd_table).1),
            back,
            rw (==_refl pcb, ==_refl (task_index (k.pcb pcb).pid)) refl,
          ))
