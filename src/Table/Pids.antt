-- ===== src/Table/Pids.antt =====
-- Pids of c/pcb.c: the numbers that a slot gives out, and the way from a pid to its slot.
use xeros_kernel.Base.{
  ℕ, zero, suc, ◌+◌, ◌-◌, ◌%◌, ◌≤◌, ◌<◌, ◌≡◌, ◌≢◌, true, arith, leb, if◌then◌else◌,
}
use xeros_kernel.Kernel.Config.{null, slot, pcb_table_size, pid_max}
use xeros_kernel.Kernel.Types.{Kernel}
use xeros_kernel.Kernel.Cmd.{done}
use xeros_kernel.Kernel.Access.{load-done}
use xeros_kernel.Table.{is_stopped, next_pid, pid_to_pcb}

-- The pid that slot `i` gives out in round `n` of its use.
unfoldable pub pid_of : (i n : ℕ) → ℕ
pid_of i zero = i + 1
pid_of i (suc n) = next_pid (pid_of i n)

-- Every pid of slot `i` is positive, at most `PID_MAX`, and leads back to slot `i`.
pub pid_of_range :
    (i n : ℕ)
    → i < pcb_table_size
    → (1 ≤ pid_of i n) × (pid_of i n ≤ pid_max) × ((pid_of i n - 1) % pcb_table_size ≡ i)
unfolding pid_of next_pid
pid_of_range i zero h = omega arith
pid_of_range i (suc n) h = omega (arith, pid_of_range i n h)

-- Processes of different slots of the table never have the same pid, however often the slots are
-- used again: if a pid of slot `i` and one of slot `j`, both below 32, are equal, the slots are.
pub pid_of-injective :
    (i j n m : ℕ) → i < pcb_table_size → j < pcb_table_size → pid_of i n ≡ pid_of j m → i ≡ j
pid_of-injective i j n m hi hj e = omega (arith, pid_of_range i n hi, pid_of_range j m hj)

-- The pid that a slot gives out next differs from the last one, for every pid from 1 to 32768.
pub next_pid-ne : (pid : ℕ) → 1 ≤ pid → pid ≤ pid_max → next_pid pid ≢ pid
unfolding next_pid
next_pid-ne pid lo hi e = omega arith

-- `pid_to_pcb` finds the slot (one of 32) of every pid that the slot gives out, as long as the
-- slot's process is not stopped, and then answers NULL. It changes nothing.
pub pid_to_pcb_lem :
    (k : Kernel) (i n : ℕ)
    → i < pcb_table_size
    → pid_to_pcb (pid_of i n) k
      ≡ done (if is_stopped (k.pcb (slot i)).state then null else slot i) k
unfolding pid_to_pcb
pid_to_pcb_lem k i n h =
    let r = pid_of_range i n h in
    let t : leb 1 (pid_of i n) ≡ true = ground (arith, r.0) in
    rw (t, r.2, load-done (slot i) k (omega arith))

-- All pids that one slot (of 32) ever gives out get the same answer from `pid_to_pcb`: the pid of a
-- process that has ended leads to whatever process uses its slot now.
pub pid_to_pcb_stale :
    (k : Kernel) (i n m : ℕ)
    → i < pcb_table_size
    → pid_to_pcb (pid_of i n) k ≡ pid_to_pcb (pid_of i m) k
pid_to_pcb_stale k i n m h = rw (pid_to_pcb_lem k i n h, pid_to_pcb_lem k i m h)
