-- ===== src/User.antt =====
-- c/user.c: the root program, the shell and its commands, as programs of system calls.
pub mod Line
pub mod Login
use Prim.Native.Char.{code}
use Prim.Native.String.{String}
use xeros_kernel.Base.{
  ℕ, zero, suc, ◌+◌, ◌-◌, ◌*◌, Bool, true, false, not, ◌&&◌, ◌||◌, List, [], ◌∷◌, Option, none,
  some, leb, ltb, length, ◌==◌, if◌then◌else◌,
}
use xeros_kernel.Base.Int.{ℤ, pos, pos_part, leb_ℤ, ◌==ℤ◌}
use xeros_kernel.Kernel.Bytes.{pattern32}
use xeros_kernel.Kernel.Config.{Ptr, null, default_stack_size, kill_signal_num, ms_per_clock_tick}
use xeros_kernel.Table.{StatusRow}
use xeros_kernel.Syscall.{
  Call, syscreate, sysgetpid, syskill, syssleep, sysgetcputimes, syswait, syssighandler, sysopen,
  sysclose, sysread, sysioctl,
}

-- The characters of a literal.
abbrev pub codes : String → List ℕ
codes String.[] = []
codes (String.◌∷◌ c s) = code c ∷ codes s

-- What comes back from a call: `eax`, the bytes in the buffer that was passed, and the rows of the
-- table of processes.
pub record Reply : Type 0 where
  pub result : ℤ
  pub bytes : List ℕ
  pub rows : List StatusRow

-- `assign` sets one of the two static variables, which the started program reads.
pub data Static : Type 0 where
  pid_to_kill : ℤ → Static
  command_arg : List ℕ → Static

-- A program: what it asks the kernel for, and how it goes on with the reply. `puts` is `sysputs` of
-- a string with these characters. `spent` ends an endless loop of the source after some rounds, and
-- `overrun` is a write behind a buffer on the stack, after which C promises nothing.
pub data Program (A : Type 0) : Type 0 where
  finish : A → Program A
  spent : Program A
  overrun : Program A
  puts : List ℕ → Program A → Program A
  call : Call → (Reply → Program A) → Program A
  assign : Static → Program A → Program A

module _ {A B : Type 0} where
  infixl 5 ◌>>=◌ ◌>>◌
  unfoldable pub ◌>>=◌ : Program A → (A → Program B) → Program B
  finish a >>= f = f a
  spent >>= f = spent
  overrun >>= f = overrun
  puts s p >>= f = puts s (p >>= f)
  call c g >>= f = call c (λ r. g r >>= f)
  assign v p >>= f = assign v (p >>= f)

  unfoldable pub ◌>>◌ : Program A → Program B → Program B
  unfolding ◌>>=◌
  p >> q = p >>= λ _. q

abbrev pub ask : Call → Program Reply
ask c = call c finish

abbrev pub say : List ℕ → Program (Unit {0})
say s = puts s (finish tt)

-- `strcmp(a, b) == 0`
unfoldable pub same_text : List ℕ → List ℕ → Bool
same_text [] [] = true
same_text [] (b ∷ bs) = false
same_text (a ∷ xs) [] = false
same_text (a ∷ xs) (b ∷ bs) = (a == b) && same_text xs bs

-- The characters in front of the first NUL: the string in a buffer that was cleared before.
unfoldable pub c_string : List ℕ → List ℕ
c_string [] = []
c_string (c ∷ cs) = if c == 0 then [] else c ∷ c_string cs

unfoldable pub filter_newline : List ℕ → List ℕ
filter_newline [] = []
filter_newline (c ∷ cs) = if c == 10 then [] else c ∷ filter_newline cs

abbrev pub is_separator : ℕ → Bool
is_separator c = (c == 32) || (c == 38)

-- The first and third loop of `get_command`: what they copy, and the second: what it leaves.
unfoldable pub copy_word : List ℕ → List ℕ
copy_word [] = []
copy_word (c ∷ cs) = if is_separator c then [] else c ∷ copy_word cs

unfoldable pub after_word : List ℕ → List ℕ
after_word [] = []
after_word (c ∷ cs) = if is_separator c then c ∷ cs else after_word cs

unfoldable pub after_separators : List ℕ → List ℕ
after_separators [] = []
after_separators (c ∷ cs) = if is_separator c then after_separators cs else c ∷ cs

-- The last loop, on the characters from the end. It does not look at the first one of the line.
unfoldable pub scan_back : List ℕ → Bool
scan_back [] = false
scan_back (c ∷ []) = false
scan_back (c ∷ d ∷ cs) = if c == 32 then scan_back (d ∷ cs) else c == 38

abbrev pub turn : List ℕ → List ℕ → List ℕ
turn [] ys = ys
turn (x ∷ xs) ys = turn xs (x ∷ ys)

-- What is in the two buffers in front of the NUL that is written, and the result.
pub record Parsed : Type 0 where
  pub command : List ℕ
  pub arg : List ℕ
  pub ampersand : Bool

-- `room` is the size of both buffers, which the source does not look at. The string ends at its NUL.
unfoldable pub get_command : (room : ℕ) → List ℕ → Option Parsed
unfolding c_string copy_word after_word after_separators scan_back
get_command room str =
    let s = c_string str in
    let command = copy_word s in
    let arg = copy_word (after_separators (after_word s)) in
    if leb room (length command) || leb room (length arg)
    then none
    else some (record { command = command; arg = arg; ampersand = scan_back (turn s []) })

-- The addresses of the programs, of the buffers on their stacks, `atoi` of the C library, and the
-- lines that `sprintf` makes of a row.
pub record Image : Type 0 where
  pub shell : Ptr
  pub command_t : Ptr
  pub command_ps : Ptr
  pub command_a : Ptr
  pub command_k : Ptr
  pub command_a_handler : Ptr
  pub user_buf : Ptr
  pub pass_buf : Ptr
  pub buf : Ptr
  pub ps : Ptr
  pub old_handler : Ptr
  pub ioctl_args : Ptr
  pub atoi : List ℕ → ℤ
  pub sprintf : StatusRow → List ℕ

abbrev pub dev_id_keyboard : ℤ
dev_id_keyboard = pos 1

abbrev pub keyboard_ioctl_disable_echo : ℕ
keyboard_ioctl_disable_echo = 55

module _ (img : Image) where
  -- One round of the loop of `root`.
  unfoldable pub root_round : Program (Unit {0})
  root_round = do
    say (codes "Welcome to Xeros - an experimental OS\n")
    fd ← ask (sysopen dev_id_keyboard)
    say (codes "Username: ")
    u ← ask (sysread fd.result img.user_buf (pos 20))
    ask (sysioctl fd.result keyboard_ioctl_disable_echo img.ioctl_args)
    say (codes "Password: ")
    p ← ask (sysread fd.result img.pass_buf (pos 20))
    ask (sysclose fd.result)
    let user = filter_newline (c_string u.bytes)
    let pass = filter_newline (c_string p.bytes)
    if same_text user (codes "cs415") && same_text pass (codes "EveryonegetsanA")
        then (do
          shell_pid ← ask (syscreate img.shell (pos default_stack_size))
          ask (syswait (pattern32 shell_pid.result))
          finish tt)
        else say (codes "\nInvalid username and/or password!\n\n")

  unfoldable pub root : ℕ → Program (Unit {0})
  root zero = spent
  root (suc rounds) = root_round >> root rounds

  -- What the shell starts for a command: the pid and whether it waits, or nothing for `ex`.
  unfoldable pub start_command : Parsed → Program (Option (ℤ × Bool))
  start_command c =
      if same_text (codes "t") c.command
      then (do
        r ← ask (syscreate img.command_t (pos default_stack_size))
        finish (some (r.result, not c.ampersand)))
      else if same_text (codes "ps") c.command
      then (do
        r ← ask (syscreate img.command_ps (pos default_stack_size))
        finish (some (r.result, true)))
      else if same_text (codes "a") c.command
      then assign (command_arg c.arg) (do
        r ← ask (syscreate img.command_a (pos default_stack_size))
        finish (some (r.result, true)))
      else if same_text (codes "k") c.command
      then assign (pid_to_kill (img.atoi c.arg)) (do
        r ← ask (syscreate img.command_k (pos default_stack_size))
        finish (some (r.result, true)))
      else if same_text (codes "ex") c.command
      then finish none
      else do say (codes "Invalid command!\n"); finish (some (pos 0, true))

  -- The shell's two buffers have 50 bytes each.
  abbrev pub buffer_room : ℕ
  buffer_room = 50

  abbrev start_parsed : Option Parsed → Program (Option (ℤ × Bool))
  start_parsed none = overrun
  start_parsed (some c) = start_command c

  unfoldable pub wait_for : Option (ℤ × Bool) → Program Bool
  wait_for none = finish false
  wait_for (some (pid, wait)) =
      if wait then (do ask (syswait (pattern32 pid)); finish true) else finish true

  -- One round of the loop of `shell`: whether it goes on.
  unfoldable pub shell_round : (fd : ℤ) → Program Bool
  unfolding get_command start_command wait_for
  shell_round fd = do
    say (codes "> ")
    r ← ask (sysread fd img.buf (pos 80))
    if r.result ==ℤ pos 0 then finish false else do
      started ← start_parsed (get_command buffer_room (filter_newline (c_string r.bytes)))
      wait_for started

  unfoldable pub shell_loop : ℕ → (fd : ℤ) → Program (Unit {0})
  shell_loop zero fd = spent
  shell_loop (suc rounds) fd =
      let rest = shell_loop rounds fd in shell_round fd >>= λ more. if more then rest else finish tt

  unfoldable pub shell : ℕ → Program (Unit {0})
  unfolding shell_loop
  shell rounds = do
    say (codes "\n")
    fd ← ask (sysopen dev_id_keyboard)
    shell_loop rounds fd.result
    say (codes "Logging out...\n")
    ask (sysclose fd.result)
    finish tt

  -- The rows that are printed: `n` of them.
  unfoldable pub ps_loop : ℕ → List StatusRow → Program (Unit {0})
  ps_loop zero rows = finish tt
  ps_loop (suc n) [] = finish tt
  ps_loop (suc n) (r ∷ rows) = puts (img.sprintf r) (ps_loop n rows)

  unfoldable pub command_ps : Program (Unit {0})
  unfolding ps_loop
  command_ps = do
    r ← ask (sysgetcputimes img.ps)
    say (codes "PID | State           | Time\n")
    if leb_ℤ (pos 0) r.result then ps_loop (suc (pos_part r.result)) r.rows else finish tt

  unfoldable pub command_k : (target : ℤ) → Program (Unit {0})
  command_k target = if target ==ℤ pos 0 then say (codes "Cannot terminate idle proc.\n") else do
    r ← ask (syskill (pattern32 target) (pos kill_signal_num))
    if r.result ==ℤ pos 0 then finish tt else say (codes "No such process.\n")

  unfoldable pub command_a_handler : Program (Unit {0})
  command_a_handler = do
    say (codes "ALARM ALARM ALARM\n")
    ask (syssighandler (pos 15) null img.old_handler)
    finish tt

  unfoldable pub command_a : (arg : List ℕ) → Program (Unit {0})
  command_a arg =
      if leb_ℤ (img.atoi arg) (pos 0) then say (codes "Usage: Enter SLEEP_MILLIS\n") else do
        ask (syssighandler (pos 15) img.command_a_handler img.old_handler)
        ask (syssleep (ms_per_clock_tick * pos_part (img.atoi arg)))
        own ← ask sysgetpid
        ask (syskill (pattern32 own.result) (pos 15))
        finish tt

  unfoldable pub command_t : ℕ → Program (Unit {0})
  command_t zero = spent
  command_t (suc rounds) = do say (codes "T\n"); ask (syssleep 10000); command_t rounds

-- What a program does for given replies, one step after the other: its calls, where `sysputs` is
-- shown with its string. And its result.
pub data Step : Type 0 where
  called : Call → Step
  put : List ℕ → Step

unfoldable pub trace_of : {A : Type 0} → Program A → List Reply → List Step
trace_of (finish a) rs = []
trace_of spent rs = []
trace_of overrun rs = []
trace_of (puts s p) rs = put s ∷ trace_of p rs
trace_of (assign v p) rs = trace_of p rs
trace_of (call c g) [] = called c ∷ []
trace_of (call c g) (r ∷ rs) = called c ∷ trace_of (g r) rs

unfoldable pub result_of : {A : Type 0} → Program A → List Reply → Option A
result_of (finish a) rs = some a
result_of spent rs = none
result_of overrun rs = none
result_of (puts s p) rs = result_of p rs
result_of (assign v p) rs = result_of p rs
result_of (call c g) [] = none
result_of (call c g) (r ∷ rs) = result_of (g r) rs
