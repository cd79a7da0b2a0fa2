-- ===== src/Sleep/Place.antt =====
-- Where `add_pcb_to_sleep_queue` of c/sleep.c puts a process, and when the processes wake then.
use xeros_kernel.Base.{
  ℕ, zero, suc, ◌+◌, ◌-◌, ◌≤◌, ◌<◌, ◌≡◌, refl, ◌≢◌, ◌∙◌, sym, ap, true, false, List, [], ◌∷◌, ◌++◌,
  arith, ltb, if◌then◌else◌, Bool-cases, inl, inr, length, has, last_or, ==_of_ne, ==_refl,
}
use xeros_kernel.Base.Int.{ℤ, pos, ltb_ℤ, ◌-ℤ◌, -ℤ_pos}
use xeros_kernel.Kernel.Config.{Ptr, null}
use xeros_kernel.Kernel.Types.{Pcb, Kernel}
use xeros_kernel.Kernel.Cmd.{put_pcb, Returns, returns}
use xeros_kernel.Kernel.Access.{load-done, update-done, mono}
use xeros_kernel.Queue.Chain.{Chain, frame}
use xeros_kernel.Queue.Ends.{first}
use xeros_kernel.Sleep.{place_loop, take_ret}

-- For a process that sleeps `n` ticks and a queue whose entries wait `d` ticks after the entry before:
-- the entries that wake earlier, the others, and the ticks that are left after the earlier ones.
module _ (d : Ptr → ℕ) where
  unfoldable pub before : ℕ → List Ptr → List Ptr
  before n [] = []
  before n (x ∷ xs) = if ltb (d x) n then x ∷ before (n - d x) xs else []

  unfoldable pub behind : ℕ → List Ptr → List Ptr
  behind n [] = []
  behind n (x ∷ xs) = if ltb (d x) n then behind (n - d x) xs else x ∷ xs

  unfoldable pub left_over : ℕ → List Ptr → ℕ
  left_over n [] = n
  left_over n (x ∷ xs) = if ltb (d x) n then left_over (n - d x) xs else n

  pub before-behind : (n : ℕ) (xs : List Ptr) → before n xs ++ behind n xs ≡ xs
  unfolding before behind
  before-behind n [] = refl
  before-behind n (x ∷ xs) = elim (Bool-cases (ltb (d x) n)) [
    | inl e ↦ rw e (ap (λ ys. x ∷ ys) (before-behind (n - d x) xs))
    | inr e ↦ rw e refl
  ]

  -- The ticks until all of the list are awake.
  unfoldable pub total : List Ptr → ℕ
  total [] = 0
  total (x ∷ xs) = d x + total xs

  pub left_over_lem : (n : ℕ) (xs : List Ptr) → total (before n xs) + left_over n xs ≡ n
  unfolding before left_over total
  left_over_lem n [] = omega arith
  left_over_lem n (x ∷ xs) = elim (Bool-cases (ltb (d x) n)) [
    | inl e ↦ rw e (ground (arith, left_over_lem (n - d x) xs))
    | inr e ↦ rw e (omega arith)
  ]

  -- The first entry behind waits at least the ticks that are left.
  pub behind_lem :
      (n : ℕ) (xs : List Ptr) (c : Ptr) (cs : List Ptr)
      → behind n xs ≡ c ∷ cs
      → left_over n xs ≤ d c
  unfolding behind left_over
  behind_lem n [] c cs e = cc
  behind_lem n (x ∷ xs) c cs e = elim (Bool-cases (ltb (d x) n)) [
    | inl s ↦ rw s (behind_lem (n - d x) xs c cs (rw s at e))
    | inr s ↦ rw s (ground (arith, e))
  ]

-- Only the ticks of `entry` change.
pub record Placed (entry : Ptr) (m : ℕ) (k k1 : Kernel) : Type 0 where
  pub block : k1.pcb entry ≡ record (k.pcb entry) { ret = pos m }
  pub elsewhere : (a : Ptr) → a ≢ entry → k1.pcb a ≡ k.pcb a
  pub others : k1 ≡ record k { pcb = k1.pcb }

stays : (entry : Ptr) (n : ℕ) (k : Kernel) → (k.pcb entry).ret ≡ pos n → Placed entry n k k
stays entry n k e = record {
  block = ap (λ r. record (k.pcb entry) { ret = r }) e;
  elsewhere = λ a ne. refl;
  others = refl;
}

pub put_pcb_self : (x : Ptr) (f : Pcb → Pcb) (k : Kernel) → (put_pcb x f k).pcb x ≡ f (k.pcb x)
unfolding put_pcb
put_pcb_self x f k = rw (==_refl x) refl

pub put_pcb_ne : (x a : Ptr) (f : Pcb → Pcb) (k : Kernel) → a ≢ x → (put_pcb x f k).pcb a ≡ k.pcb a
unfolding put_pcb
put_pcb_ne x a f k ne = rw (==_of_ne a x ne) refl

-- A round of the walk in front of the others.
after_round :
    (entry : Ptr) (m : ℕ) (t : ℤ) (k k1 : Kernel)
    → Placed entry m (put_pcb entry (take_ret t) k) k1
    → Placed entry m k k1
unfolding put_pcb
after_round entry m t k k1 pl = record {
  block = pl.block ∙ ap (λ (q : Pcb). record q { ret = pos m }) (put_pcb_self entry (take_ret t) k);
  elsewhere = λ a ne. pl.elsewhere a ne ∙ put_pcb_ne entry a (take_ret t) k ne;
  others = pl.others;
}

pub place_loop_lem :
    (d : Ptr → ℕ) (xs : List Ptr) (fuel : ℕ) (k : Kernel) (entry z p : Ptr) (n : ℕ)
    → Chain k.pcb p xs
    → length xs < fuel
    → entry ≢ null
    → has entry xs ≡ false
    → (k.pcb entry).ret ≡ pos n
    → ((a : Ptr) → has a xs ≡ true → (k.pcb a).ret ≡ pos (d a))
    → Returns
        (λ r k1.
          (r ≡ (last_or z (before d n xs), first (behind d n xs)))
          × Placed entry (left_over d n xs) k k1)
        (place_loop fuel entry z p k)
unfolding place_loop before behind left_over
place_loop_lem d xs zero k entry z p n c f ne out e ds = absurd (omega arith)
place_loop_lem d [] (suc fuel) k entry z p n c f ne out e ds =
    rw c (returns (refl, stays entry n k e))
place_loop_lem d (x ∷ xs) (suc fuel) k entry z p n c f ne out e ds =
    let dx : (k.pcb x).ret ≡ pos (d x) = ds x (ground arith) in
    let t : ltb_ℤ (pos (d x)) (pos n) ≡ ltb (d x) n = ground arith in
    rw (c.0, ==_of_ne x null c.1, load-done x k c.1, load-done entry k ne, dx, e, t)
      (elim (Bool-cases (ltb (d x) n)) [
        | inl less ↦
            rw (less, update-done entry k ne (take_ret (pos (d x))))
              (mono
                (place_loop_lem d xs fuel (put_pcb entry (take_ret (pos (d x))) k) entry x
                  (k.pcb x).next (n - d x)
                  (frame k.pcb (put_pcb entry (take_ret (pos (d x))) k).pcb (k.pcb x).next xs
                    (λ a m.
                      ap (λ (q : Pcb). q.next)
                        (put_pcb_ne entry a (take_ret (pos (d x))) k (apart a m)))
                    c.2)
                  (omega arith) ne (ground arith)
                  (ap (λ (q : Pcb). q.ret) (put_pcb_self entry (take_ret (pos (d x))) k)
                    ∙ ap (λ r. r -ℤ pos (d x)) e
                    ∙ -ℤ_pos n (d x) (ground arith))
                  (λ a m.
                    ap (λ (q : Pcb). q.ret)
                      (put_pcb_ne entry a (take_ret (pos (d x))) k (apart a m))
                    ∙ ds a (ground arith)))
                λ r k1 (er, pl).
                  (er, after_round entry (left_over d (n - d x) xs) (pos (d x)) k k1 pl))
        | inr more ↦ rw more (returns (refl, stays entry n k e))
      ])
  where
    apart : (a : Ptr) → has a xs ≡ true → a ≢ entry
    apart a m same = absurd (differ (sym m ∙ ap (λ b. has b xs) same ∙ rest_out))
      where
        rest_out : has entry xs ≡ false
        rest_out = ground arith

        differ : true ≡ false → ⊥
        differ q = cc
