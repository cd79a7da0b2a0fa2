-- ===== src/Kernel/Access.antt =====
-- Accesses through pointers that are not NULL.
use xeros_kernel.Base.{◌≡◌, ◌≢◌, ==_of_ne}
use xeros_kernel.Kernel.Config.{Ptr, null}
use xeros_kernel.Kernel.Types.{Kernel, Pcb, Header}
use xeros_kernel.Kernel.Cmd.{
  Cmd, Outcome, done, fault, and_then, load_pcb, update_pcb, put_pcb, load_header, update_header,
  put_header, Returns, returns,
}

module _ (p : Ptr) (k : Kernel) (ne : p ≢ null) where
  pub load-done : load_pcb p k ≡ done (k.pcb p) k
  unfolding load_pcb
  load-done = rw (==_of_ne p null ne)

  pub update-done : (f : Pcb → Pcb) → update_pcb p f k ≡ done tt (put_pcb p f k)
  unfolding update_pcb
  update-done f = rw (==_of_ne p null ne)

  pub load_header-done : load_header p k ≡ done (k.header p) k
  unfolding load_header
  load_header-done = rw (==_of_ne p null ne)

  pub update_header-done : (f : Header → Header) → update_header p f k ≡ done tt (put_header p f k)
  unfolding update_header
  update_header-done f = rw (==_of_ne p null ne)

module _ {A B : Type 0} {P : A → Kernel → Type 0} {Q : B → Kernel → Type 0} where
  -- The rule for one command after another.
  pub bind :
      {r : Outcome A} {f : A → Cmd B}
      → Returns P r
      → ((a : A) (k : Kernel) → P a k → Returns Q (f a k))
      → Returns Q (and_then r f)
  bind (returns p) next = next _ _ p

module _ {A : Type 0} {P Q : A → Kernel → Type 0} where
  pub mono : {r : Outcome A} → Returns P r → ((a : A) (k : Kernel) → P a k → Q a k) → Returns Q r
  mono (returns p) weaken = returns (weaken _ _ p)

-- A command that faults whatever the first part leaves.
pub fails_after :
    {A B : Type 0} {P : A → Kernel → Type 0} {r : Outcome A} {f : A → Cmd B}
    → Returns P r
    → ((a : A) (k : Kernel) → P a k → f a k ≡ fault)
    → and_then r f ≡ fault
fails_after (returns p) bad = bad _ _ p
