-- ===== src/Lib.antt =====
-- The kernel of this repository (c/*.c with h/*.h): a small preemptive kernel for the i386, with
-- processes, messages, sleeping, signals, a keyboard device and a heap.
--
-- The parts and their files:
--   Base       numbers, C's `int` as an integer over the native numbers, lists, the bit macros
--   Kernel     one record `Kernel` for all static variables and the memory (Kernel/Types), the
--              constants (Kernel/Config), commands on that state (Kernel/Cmd), words in memory and
--              the block copy of the C library (Kernel/Bytes)
--   Queue      c/pcbqueue.c. Queue/Chain, Queue/Rep and Queue/Becomes say what list a linked queue
--              stands for and what a change of it is; Queue/Ends and Queue/Remove are about the calls
--   Table      c/pcb.c: the table of process control blocks and its queues
--   Memory     c/mem.c: the free list, `kmalloc`, `kfree`, `verify_sysptr`. Memory/Carve and Memory/Free
--              are about a heap with a large first block, Memory/Chunks about several
--              allocations from it, Memory/Fit about `kmalloc` at any place of the list
--   Sleep      c/sleep.c: the delta queue. Sleep/Delta is about its insertion, Sleep/Wake and
--              Sleep/Tick about the clock's tick, Sleep/Ticks, Sleep/Timed and Sleep/Asleep
--              about several of them, behind a sleep
--   Message    c/msg.c: `send` and `recv`; Message/Meet joins the two
--   Signal     c/signal.c, and `init_context_frame` of c/create.c
--   Process    c/create.c, and `cleanup_pcb` of c/pcb.c
--   Keyboard   c/kbd.c, with `enable_irq` and `setKbdInt` of c/i386.c
--   Device     c/di_calls.c
--   Context    c/ctsw.c: the C code of `contextswitch`. The assembly in its middle, which runs the
--              process, is an event: how the process stopped
--   Dispatch   c/disp.c: the handlers; Dispatch/Round has the loop, one event a round. Dispatch/Timer
--              is about the timer's interrupt, Dispatch/Progress about a run of the loop
--   Hardware   c/i386.c, c/evec.c and `contextinit` of c/ctsw.c: the interrupt table, the controllers,
--              the timer, and the segments (Hardware/Segments)
--   Start      c/init.c, with `dispinit` of c/disp.c: the kernel from its first call to the dispatcher
--   Console    c/kprintf.c: the characters on the screen. Console/Cells and Console/Text relate the
--              memory to a text with a cursor
--   Syscall    c/syscall.c: the wrappers that a process calls; Syscall/Words joins them to the
--              handlers, Syscall/Kill follows `syskill` to its effect
--   User       c/user.c: the login, the shell and its commands, as trees of system calls that go on
--              with what the kernel replies
--   Examples   a small state, on which the statements are run
--
-- The functions have the names of the source. A command takes the state and returns a result with a
-- state, or `fault` (an access through NULL), `halted` (a failed ASSERT or an endless loop that is
-- meant), or `spent` (too little fuel). Process control blocks are found by pointer: slot `i` of the
-- table is the pointer `i + 1`, the idle process is 33. The kernel's queues are four structs with
-- linked lists through the `next` fields of the control blocks; the predicate `Rep` relates them to
-- four lists of pointers, and `Becomes` says which lists and which control blocks a call leaves, all
-- else being as it was.
--
-- Fuel: the walk of `pcb_remove` and of `add_pcb_to_sleep_queue` gets one round more than the queue's
-- size, the loops over a queue or a table have its size, the flush of the keyboard's ring one round
-- more than its five places, and the walks over the free list 2 ^ 18 rounds, which is the number of
-- 16 byte blocks in 4 MB. A tab on the screen gets eight spaces, since a line's width is a multiple of
-- eight. The `while(1)` loops of `root`, `shell` and `command_t` get a number of rounds and end as `spent`
-- behind them; the dispatcher's loop gets its events. A program that writes behind a buffer on its stack
-- ends as `overrun`.
--
-- Environment: `blkcopy` of the C library is the record `Blkcopy`, a function with two laws for
-- counts that are not negative, which `block_copy` satisfies; the code segment's selector and the addresses of `sigtramp` and `sysstop`
-- are the record `Machine`; the entry points of the assembly are the record `Entries`, what the
-- display shows at first is `Display`, `_doprnt` is a function to the characters that it puts out, and
-- the addresses and the library functions that the programs use are the record `Image`, the kernel's
-- replies to them lists of `Reply`; scancodes come with the events. Block headers of the heap, control
-- blocks, queue structs and the signal table's pointer live in fields of their own, apart from the
-- bytes of `mem`, so a process that writes over the kernel's data is not modelled. The queue structs
-- take their bytes off the heap by `kmalloc`, but are found by the queue's name, without an address. An
-- `int` that C leaves to overflow does not wrap here; addresses and unsigned words do, where the
-- source can reach it. The order in which C evaluates the two sides
-- of `process->ret = handler()`, where the handler changes `process`, is a parameter.
--
-- Not modelled: the assembly (c/intr.S, c/startup.S, and the parts of c/ctsw.c and c/syscall.c that
-- stand between the C code), `trap` of c/evec.c and the dumps, which print, the test programs in
-- c/test/, and the vendored lib/libxc and boot/. The messages of `LOG` and of `sysputs` are recorded in
-- the kernel's `console` as they are and do not go through the screen of Console; what a failed ASSERT
-- logs is not, since `halted` keeps no state.
pub mod Base
pub mod Kernel
pub mod Queue
pub mod Memory
pub mod Table
pub mod Sleep
pub mod Message
pub mod Signal
pub mod Process
pub mod Keyboard
pub mod Device
pub mod Dispatch
pub mod Context
pub mod Console
pub mod Hardware
pub mod Start
pub mod Syscall
pub mod User
pub mod Examples
