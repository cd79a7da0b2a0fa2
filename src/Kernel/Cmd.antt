-- ===== src/Kernel/Cmd.antt =====
-- Commands on the kernel's state, and the accesses through pointers that they are made of.
use xeros_kernel.Base.{ℕ, ◌%◌, Bool, true, false, ◌==◌, if◌then◌else◌, ◌∷◌}
use xeros_kernel.Kernel.Config.{Ptr, null}
use xeros_kernel.Kernel.Types.{Kernel, Pcb, PcbQueue, QueueId, same_queue, Header, Keyboard, Output}

-- The ends of a run: a result and a state; an access through NULL, undefined in C; a failed ASSERT
-- or another deliberate endless loop; a loop of the model that was given too little fuel.
pub data Outcome (A : Type 0) : Type 0 where
  done : A → Kernel → Outcome A
  fault : Outcome A
  halted : Outcome A
  spent : Outcome A

abbrev pub Cmd : Type 0 → Type 0
Cmd A = Kernel → Outcome A

abbrev pub pure : {A : Type 0} → A → Cmd A
pure = done

module _ {A B : Type 0} where
  abbrev pub and_then : Outcome A → (A → Cmd B) → Outcome B
  and_then (done a k) f = f a k
  and_then fault f = fault
  and_then halted f = halted
  and_then spent f = spent

  infixl 5 ◌>>=◌ ◌>>◌
  abbrev pub ◌>>=◌ : Cmd A → (A → Cmd B) → Cmd B
  m >>= f = λ k. and_then (m k) f

  abbrev pub ◌>>◌ : Cmd A → Cmd B → Cmd B
  m >> n = m >>= λ _. n

abbrev pub gets : {A : Type 0} → (Kernel → A) → Cmd A
gets f k = done (f k) k

abbrev pub modify : (Kernel → Kernel) → Cmd (Unit {0})
modify f k = done tt (f k)

-- `ASSERT(b)`
abbrev pub assert : Bool → Cmd (Unit {0})
assert true k = done tt k
assert false k = halted

-- The state with one process control block changed.
unfoldable pub put_pcb : Ptr → (Pcb → Pcb) → Kernel → Kernel
put_pcb p f k = record k { pcb = λ a. if a == p then f (k.pcb p) else k.pcb a }

unfoldable pub put_queue : QueueId → PcbQueue → Kernel → Kernel
put_queue q v k = record k { queue = λ r. if same_queue r q then v else k.queue r }

-- Reads `*p`.
unfoldable pub load_pcb : Ptr → Cmd Pcb
load_pcb p k = if p == null then fault else done (k.pcb p) k

-- Writes fields of `*p`.
unfoldable pub update_pcb : Ptr → (Pcb → Pcb) → Cmd (Unit {0})
update_pcb p f k = if p == null then fault else done tt (put_pcb p f k)

abbrev pub get_queue : QueueId → Cmd PcbQueue
get_queue q = gets (λ k. k.queue q)

abbrev pub set_queue : QueueId → PcbQueue → Cmd (Unit {0})
set_queue q v = modify (put_queue q v)

abbrev pub get_kbd : Cmd Keyboard
get_kbd = gets (λ k. k.kbd)

abbrev pub set_kbd : Keyboard → Cmd (Unit {0})
set_kbd v = modify (λ k. record k { kbd = v })

unfoldable pub put_header : Ptr → (Header → Header) → Kernel → Kernel
put_header p f k = record k { header = λ a. if a == p then f (k.header p) else k.header a }

unfoldable pub load_header : Ptr → Cmd Header
load_header p k = if p == null then fault else done (k.header p) k

unfoldable pub update_header : Ptr → (Header → Header) → Cmd (Unit {0})
update_header p f k = if p == null then fault else done tt (put_header p f k)

abbrev pub print : Output → Cmd (Unit {0})
print o = modify (λ k. record k { console = o ∷ k.console })

-- Writes a byte to a port.
abbrev pub outb : (port value : ℕ) → Cmd (Unit {0})
outb port value = modify (λ k. record k { ports = (port, value % 256) ∷ k.ports })

pub data Returns {A : Type 0} (P : A → Kernel → Type 0) : Outcome A → Type 0 where
  returns : {a : A} {k : Kernel} → P a k → Returns P (done a k)
