-- ===== src/Start.antt =====
-- c/init.c: the order in which the kernel starts, with `dispinit` of c/disp.c. The printed strings are
-- left out.
pub mod Idle
pub mod Boot
use xeros_kernel.Base.{List}
use xeros_kernel.Base.Int.{ℤ, pos}
use xeros_kernel.Kernel.Config.{Ptr, default_stack_size}
use xeros_kernel.Kernel.Bytes.{Blkcopy}
use xeros_kernel.Kernel.Cmd.{Cmd, pure, ◌>>=◌, ◌>>◌}
use xeros_kernel.Memory.{kmeminit}
use xeros_kernel.Table.{initpcb}
use xeros_kernel.Process.{create, idleinit}
use xeros_kernel.Device.{di_init_devtable}
use xeros_kernel.Hardware.{Entries, contextinit, init_pit}
use xeros_kernel.Signal.{Machine}
use xeros_kernel.Context.{Event}
use xeros_kernel.Dispatch.Round.{Order, dispatch}

unfoldable pub dispinit : Cmd (Unit {0})
dispinit = initpcb

-- `root` is the address of the root program.
unfoldable pub rootinit : Machine → (root : Ptr) → Cmd (Unit {0})
rootinit m root = do create m root (pos default_stack_size); pure tt

-- What comes before the dispatcher. `idleproc` is the address of the idle loop.
unfoldable pub boot : Machine → Entries → (idleproc root : Ptr) → Cmd (Unit {0})
boot m e idleproc root = do
  kmeminit
  di_init_devtable
  contextinit e
  dispinit
  idleinit m idleproc
  rootinit m root
  init_pit 100

-- The dispatcher does not return in the source: here it runs the events it is given.
unfoldable pub initproc :
    Blkcopy → Machine → Order → Entries → (idleproc root : Ptr) → List Event → Cmd Ptr
initproc lib m order e idleproc root events = do boot m e idleproc root; dispatch lib m order events
