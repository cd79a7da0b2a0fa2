-- ===== src/Hardware/Segments.antt =====
-- `setsegs` of c/i386.c: the segments' limits, and where free memory starts.
use xeros_kernel.Base.{
  ℕ, ◌+◌, ◌-◌, ◌*◌, ◌/◌, ◌%◌, ◌^◌, ◌≤◌, ◌<◌, ◌≡◌, refl, ◌&&◌, ◌||◌, ltb, ◌==◌, if◌then◌else◌, arith,
}
use xeros_kernel.Kernel.Config.{Ptr, kernel_stack, maxaddr}

-- `struct sd`: a segment descriptor.
pub record Sd : Type 0 where
  pub sd_lolimit : ℕ
  pub sd_lobase : ℕ
  pub sd_midbase : ℕ
  pub sd_perm : ℕ
  pub sd_iscode : ℕ
  pub sd_isapp : ℕ
  pub sd_dpl : ℕ
  pub sd_present : ℕ
  pub sd_hilimit : ℕ
  pub sd_avl : ℕ
  pub sd_mbz : ℕ
  pub sd_32b : ℕ
  pub sd_gran : ℕ
  pub sd_hibase : ℕ

-- The table's values at first: code is readable, data and stack are writable.
abbrev segment : (perm iscode : ℕ) → Sd
segment perm iscode = record {
  sd_lolimit = 0xffff;
  sd_lobase = 0;
  sd_midbase = 0;
  sd_perm = perm;
  sd_iscode = iscode;
  sd_isapp = 1;
  sd_dpl = 0;
  sd_present = 1;
  sd_hilimit = 15;
  sd_avl = 0;
  sd_mbz = 0;
  sd_32b = 1;
  sd_gran = 1;
  sd_hibase = 0;
}

-- `gdt_copy`: five entries, and three more of 0 bytes.
abbrev gdt_copy : ℕ → Sd
gdt_copy i =
    if (i == 1) || (i == 4)
    then segment 6 1
    else if (i == 2) || (i == 3)
    then segment 2 0
    else record {
      sd_lolimit = 0;
      sd_lobase = 0;
      sd_midbase = 0;
      sd_perm = 0;
      sd_iscode = 0;
      sd_isapp = 0;
      sd_dpl = 0;
      sd_present = 0;
      sd_hilimit = 0;
      sd_avl = 0;
      sd_mbz = 0;
      sd_32b = 0;
      sd_gran = 0;
      sd_hibase = 0;
    }

abbrev pub nbpg : ℕ
nbpg = 4096

unfoldable pub sizmem : ℕ
sizmem = 1024

-- What `setsegs` sets: the table in use and three globals.
pub record Segments : Type 0 where
  pub gdt : ℕ → Sd
  pub initsp : ℕ
  pub freemem : ℕ
  pub maxaddr : Ptr

-- The limit has 16 and 4 bits.
abbrev limited : ℕ → Sd → Sd
limited pages s = record s { sd_lolimit = pages % 2 ^ 16; sd_hilimit = pages / 2 ^ 16 % 2 ^ 4 }

-- `etext` and `end` are the linker's. The copy has all eight entries.
unfoldable pub setsegs : (etext end : Ptr) → Segments → Segments
unfolding sizmem
setsegs etext end s =
    let np = (etext + nbpg - 1) / nbpg in
    record {
      gdt = λ i.
          if i == 1
          then limited np (gdt_copy i)
          else if ltb 1 i && ltb i 5
          then limited sizmem (gdt_copy i)
          else if ltb i 8
          then gdt_copy i
          else s.gdt i;
      initsp = end + kernel_stack - 4;
      freemem = end + kernel_stack;
      maxaddr = sizmem * nbpg - 1;
    }

-- The pages that a descriptor's segment has.
abbrev pub pages_of : Sd → ℕ
pages_of d = d.sd_lolimit + 2 ^ 16 * d.sd_hilimit

-- `setsegs` leaves a code segment that covers the code's pages and data, stack and boot code segments
-- of all pages, 4 MB; the end of memory is the one that `verify_sysptr` checks against, the kernel's
-- stack takes the 16 KB behind the kernel's image, and free memory starts behind them.
pub setsegs_lem :
    (etext end : Ptr) (s : Segments)
    → etext < 2 ^ 31
    → let t = setsegs etext end s in
      (etext ≤ pages_of (t.gdt 1) * nbpg)
      × (pages_of (t.gdt 1) * nbpg < etext + nbpg)
      × (pages_of (t.gdt 2) ≡ 1024)
      × (pages_of (t.gdt 3) ≡ 1024)
      × (pages_of (t.gdt 4) ≡ 1024)
      × (t.maxaddr ≡ maxaddr)
      × (t.freemem - kernel_stack ≡ end)
      × (t.initsp + 4 ≡ t.freemem)
unfolding setsegs
setsegs_lem etext end s small =
    (omega arith, omega arith, refl, refl, refl, refl, omega arith, omega arith)
