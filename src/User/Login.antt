-- ===== src/User/Login.antt =====
-- The root program, the shell and `ps` of c/user.c: what they print and which calls they make.
use mathlib.Core.List.{map}
use xeros_kernel.Base.{
  ℕ, zero, suc, ◌<◌, ◌≡◌, refl, ap, Bool, true, ◌&&◌, List, [], ◌∷◌, some, arith, if◌then◌else◌,
  length,
}
use xeros_kernel.Base.Int.{ℤ, pos, pos_part, leb_ℤ}
use xeros_kernel.Kernel.Config.{default_stack_size}
use xeros_kernel.Kernel.Bytes.{pattern32}
use xeros_kernel.Table.{StatusRow, row_of}
use xeros_kernel.Kernel.Types.{Pcb}
use xeros_kernel.Syscall.{sysgetcputimes, syscreate, syswait, sysopen, sysread, sysioctl, sysclose}
use xeros_kernel.User.{
  Image, Reply, codes, same_text, c_string, filter_newline, shell_round, shell, ps_loop, command_ps,
  finish, trace_of, Step, called, put, result_of, dev_id_keyboard, keyboard_ioctl_disable_echo,
  ◌>>◌,
}

-- The two texts that were typed are the user and the password.
abbrev pub IsUser : Reply → Reply → Type 0
IsUser u p =
    (filter_newline (c_string u.bytes) ≡ codes "cs415")
    × (filter_newline (c_string p.bytes) ≡ codes "EveryonegetsanA")

abbrev pub matches : Reply → Reply → Bool
matches u p =
    same_text (filter_newline (c_string u.bytes)) (codes "cs415")
    && same_text (filter_newline (c_string p.bytes)) (codes "EveryonegetsanA")

-- A login up to the check, and what follows.
abbrev pub login_steps : Image → (fd : Reply) → List Step
login_steps img fd =
    put (codes "Welcome to Xeros - an experimental OS\n")
    ∷ called (sysopen dev_id_keyboard)
    ∷ put (codes "Username: ")
    ∷ called (sysread fd.result img.user_buf (pos 20))
    ∷ called (sysioctl fd.result keyboard_ioctl_disable_echo img.ioctl_args)
    ∷ put (codes "Password: ")
    ∷ called (sysread fd.result img.pass_buf (pos 20))
    ∷ called (sysclose fd.result)
    ∷ []

abbrev pub shell_steps : Image → (s : Reply) → List Step
shell_steps img s =
    called (syscreate img.shell (pos default_stack_size))
    ∷ called (syswait (pattern32 s.result))
    ∷ []

ps_loop_lem :
    (img : Image) (n : ℕ) (rows : List StatusRow) (rs : List Reply)
    → length rows ≡ n
    → (trace_of (ps_loop img n rows) rs ≡ map (λ r. put (img.sprintf r)) rows)
      × (result_of (ps_loop img n rows) rs ≡ some tt)
unfolding ps_loop trace_of result_of
ps_loop_lem img zero [] rs h = (refl, refl)
ps_loop_lem img zero (r ∷ rows) rs h = absurd (omega (arith, h))
ps_loop_lem img (suc n) [] rs h = absurd (omega (arith, h))
ps_loop_lem img (suc n) (r ∷ rows) rs h =
    let (a, b) = ps_loop_lem img n rows rs (omega (arith, h)) in
    (ap (λ ys. put (img.sprintf r) ∷ ys) a, b)

-- `ps` prints a line for each row up to the index that the call returns.
pub command_ps_lem :
    (img : Image) (r : Reply) (n : ℕ)
    → r.result ≡ pos n
    → length r.rows ≡ suc n
    → (trace_of (command_ps img) (r ∷ [])
        ≡ called (sysgetcputimes img.ps)
          ∷ put (codes "PID | State           | Time\n")
          ∷ map (λ q. put (img.sprintf q)) r.rows)
      × (result_of (command_ps img) (r ∷ []) ≡ some tt)
unfolding command_ps trace_of result_of ◌>>◌ sysgetcputimes
command_ps_lem img r n res rows =
    let a = (ps_loop_lem img (suc n) r.rows [] rows).0 in
    let all : leb_ℤ (pos 0) (pos n) ≡ true = ground arith in
    (
      rw (res, all)
          (ap
            (λ ys.
              called (sysgetcputimes img.ps) ∷ put (codes "PID | State           | Time\n") ∷ ys)
            a),
      ends r.result res,
    )
  where
    ends :
        (z : ℤ)
        → z ≡ pos n
        → result_of
            (if leb_ℤ (pos 0) z then ps_loop img (suc (pos_part z)) r.rows else finish tt)
            []
          ≡ some tt
    ends z e =
        let all : leb_ℤ (pos 0) (pos n) ≡ true = ground arith in
        rw (e, all) (ps_loop_lem img (suc n) r.rows [] rows).1

-- At the end of the input the shell closes the keyboard and ends.
pub shell-ends :
    (img : Image) (fd r c : Reply) (rounds : ℕ)
    → r.result ≡ pos 0
    → (result_of (shell img (suc rounds)) (fd ∷ r ∷ c ∷ []) ≡ some tt)
      × (trace_of (shell img (suc rounds)) (fd ∷ r ∷ c ∷ [])
          ≡ put (codes "\n")
            ∷ called (sysopen dev_id_keyboard)
            ∷ put (codes "> ")
            ∷ called (sysread fd.result img.buf (pos 80))
            ∷ put (codes "Logging out...\n")
            ∷ called (sysclose fd.result)
            ∷ [])
unfolding shell result_of trace_of ◌>>◌ shell_round sysopen sysread sysclose
shell-ends img fd r c rounds eof = rw eof (refl, refl)

-- The index of a row's state is in the table of the states' names.
pub row_of-in_states : (current : ℕ) (q : Pcb) → (row_of current q).status < 9
row_of-in_states current q = ground arith
