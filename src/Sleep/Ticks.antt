-- ===== src/Sleep/Ticks.antt =====
-- Several ticks of c/sleep.c: who is awake after `n` of them.
use mathlib.Core.List.{append-nil, append_assoc}
use mathlib.Core.Path.{fun_ext}
use xeros_kernel.Base.{
  ℕ, zero, suc, ◌-◌, ◌≤◌, ◌≡◌, refl, ◌∙◌, sym, ap, subst, true, false, List, [], ◌∷◌, ◌++◌, arith,
  leb, ◌==◌, if◌then◌else◌, ◌||◌, Bool-cases, inl, inr, has, has-append, ==_refl,
}
use xeros_kernel.Base.Int.{pos, ◌-ℤ◌}
use xeros_kernel.Kernel.Config.{Ptr}
use xeros_kernel.Kernel.Types.{Pcb, Kernel, QueueId, sleep_queue, ready_queue}
use xeros_kernel.Kernel.Cmd.{Cmd, pure, ◌>>◌, Returns, returns}
use xeros_kernel.Kernel.Access.{bind, mono}
use xeros_kernel.Queue.Rep.{IsQueue, Queues, put_list, Rep}
use xeros_kernel.Queue.Becomes.{Becomes, edit}
use xeros_kernel.Sleep.{take_ret, tick}
use xeros_kernel.Sleep.Wake.{due, asleep_still, ready_all, ready_all_keeps}
use xeros_kernel.Sleep.Tick.{within, tick_wakes, tick_lem}

-- The first one waits for a tick at least.
abbrev pub Starts : (Ptr → ℕ) → List Ptr → Type 0
Starts d [] = Unit {0}
Starts d (x ∷ xs) = 1 ≤ d x

-- One tick later.
abbrev later : (Ptr → ℕ) → Ptr → Ptr → ℕ
later d x a = if a == x then d x - 1 else d a

within_same :
    (d e : Ptr → ℕ) (n : ℕ) (xs : List Ptr)
    → ((a : Ptr) → has a xs ≡ true → d a ≡ e a)
    → within d n xs ≡ within e n xs
unfolding within
within_same d e n [] same = refl
within_same d e n (x ∷ xs) same =
    rw (same x (rw (==_refl x) refl), within_same d e (n - e x) xs (λ a m. same a (ground arith)))
      refl

-- The lists without the first element.
rest_of : List Ptr → List Ptr
rest_of [] = []
rest_of (x ∷ xs) = xs

behind : {x : Ptr} {xs ys : List Ptr} → x ∷ xs ≡ x ∷ ys → xs ≡ ys
unfolding rest_of
behind e = ap rest_of e

-- Those that wake with the one before them come first.
within_first :
    (d : Ptr → ℕ) (n : ℕ) (xs zs : List Ptr)
    → within d 0 xs ++ zs ≡ xs
    → (within d n xs ≡ within d 0 xs ++ within d n zs) × Starts d zs
unfolding within
within_first d n [] zs e = rw e (refl, tt)
within_first d n (x ∷ xs) zs e = step (λ h. within_first d n xs zs h) (d x) refl e
  where
    step :
        (within d 0 xs ++ zs ≡ xs → (within d n xs ≡ within d 0 xs ++ within d n zs) × Starts d zs)
        → (m : ℕ) → d x ≡ m
        → (if leb m 0 then x ∷ within d (0 - m) xs else []) ++ zs ≡ x ∷ xs
        → ((if leb m n then x ∷ within d (n - m) xs else [])
            ≡ (if leb m 0 then x ∷ within d (0 - m) xs else []) ++ within d n zs)
          × Starts d zs
    step ih zero q e =
        let (a, b) = ih (behind e) in
        let all : leb 0 n ≡ true = ground arith in
        let same : n - 0 ≡ n = omega arith in rw (all, same) (ap (λ ys. x ∷ ys) a, b)
    step ih (suc m) q e =
        let none : leb (suc m) 0 ≡ false = ground arith in
        let all : zs ≡ x ∷ xs = rw none at e in rw (none, all, q) (refl, omega arith)

has_behind : (a : Ptr) (xs ys zs : List Ptr) → ys ++ zs ≡ xs → has a xs ≡ false → has a zs ≡ false
has_behind a xs ys zs e out =
    let h : (has a ys || has a zs) ≡ false = sym (has-append a ys zs) ∙ ap (has a) e ∙ out in
    ground arith

-- What does not wake at the first tick wakes a tick sooner then.
within-later :
    (d : Ptr → ℕ) (n : ℕ) (x : Ptr) (xs zs : List Ptr)
    → has x xs ≡ false
    → 1 ≤ d x
    → within d 1 (x ∷ xs) ++ zs ≡ x ∷ xs
    → (within d (suc n) (x ∷ xs) ≡ within d 1 (x ∷ xs) ++ within (later d x) n zs)
      × Starts (later d x) zs
unfolding within
within-later d n x xs zs out first e = step (d x) refl first e
  where
    -- The others keep their ticks.
    kept : (n : ℕ) (ys : List Ptr) → has x ys ≡ false → within d n ys ≡ within (later d x) n ys
    kept n ys absent = within_same d (later d x) n ys λ a m. ground arith

    starts : (ys : List Ptr) → has x ys ≡ false → Starts d ys → Starts (later d x) ys
    starts [] absent s = tt
    starts (y ∷ ys) absent s = ground (arith, s)

    step :
        (m : ℕ)
        → d x ≡ m
        → 1 ≤ m
        → (if leb m 1 then x ∷ within d (1 - m) xs else []) ++ zs ≡ x ∷ xs
        → ((if leb m (suc n) then x ∷ within d (suc n - m) xs else [])
            ≡ (if leb m 1 then x ∷ within d (1 - m) xs else []) ++ within (later d x) n zs)
          × Starts (later d x) zs
    step zero q h e = absurd (omega arith)
    step (suc zero) q h e =
        let (a, b) = within_first d n xs zs (behind e) in
        let absent = has_behind x xs (within d 0 xs) zs (behind e) out in
        let all : leb 1 (suc n) ≡ true = ground arith in
        let less : suc n - 1 ≡ n = omega arith in
        rw (all, less)
          (
            ap (λ ys. x ∷ ys) (a ∙ ap (λ ys. within d 0 xs ++ ys) (kept n zs absent)),
            starts zs absent b,
          )
    step (suc (suc m)) q h e =
        let same = kept (suc n - suc (suc m)) xs out in
        let less : n - suc m ≡ suc n - suc (suc m) = omega arith in
        let test : leb (suc m) n ≡ leb (suc (suc m)) (suc n) = ground arith in
        let none : leb (suc (suc m)) 1 ≡ false = ground arith in
        let all : zs ≡ x ∷ xs = rw none at e in
        let one : suc (suc m) - 1 ≡ suc m = omega arith in
        rw (none, all, ==_refl x, q, one, test, less, same) (refl, omega arith)

-- `n` ticks in a row.
unfoldable pub ticks : ℕ → Cmd (Unit {0})
ticks zero = pure tt
ticks (suc n) = tick >> ticks n

-- The processes `ds` left the sleep queue for the ready queue, `zs` still sleep.
abbrev pub awake_lists : (ds zs : List Ptr) → Queues → Queues
awake_lists ds zs l = put_list ready_queue (l ready_queue ++ ds) (put_list sleep_queue zs l)

abbrev Waits : Kernel → (Ptr → ℕ) → List Ptr → Type 0
Waits k d xs = (a : Ptr) → has a xs ≡ true → (k.pcb a).ret ≡ pos (d a)

minus_one : (m : ℕ) → 1 ≤ m → pos m -ℤ pos 1 ≡ pos (m - 1)
minus_one m h = ground arith

Waits-later :
    {k k1 : Kernel} {l1 : Queues} (d : Ptr → ℕ) (x : Ptr) (xs ds zs : List Ptr)
    → Waits k d (x ∷ xs)
    → 1 ≤ d x
    → ds ++ zs ≡ x ∷ xs
    → Becomes k (ready_all ds (edit x (take_ret (pos 1)) k.pcb)) l1 k1
    → Waits k1 (later d x) zs
Waits-later {k} {k1} d x xs ds zs w first e b a m =
    let here : (has a ds || has a zs) ≡ has a (x ∷ xs) = sym (has-append a ds zs) ∙ ap (has a) e in
    let old : (k.pcb a).ret ≡ pos (d a) = w a (ground (arith, here)) in
    ap (λ (p : Pcb). p.ret) (b.same a)
    ∙ ready_all_keeps (λ p. p.ret) (λ p. refl) ds a (edit x (take_ret (pos 1)) k.pcb)
    ∙ aged_ret old
  where
    aged_ret :
        (k.pcb a).ret ≡ pos (d a) → (edit x (take_ret (pos 1)) k.pcb a).ret ≡ pos (later d x a)
    aged_ret old = elim (Bool-cases (a == x)) [
      | inl t ↦
          let q : a ≡ x = ground arith in
          rw (q, ==_refl x)
            (ap (λ z. z -ℤ pos 1) (w x (rw (==_refl x) refl)) ∙ minus_one (d x) first)
      | inr t ↦ rw t old
    ]

same_awake :
    (l : Queues) (ds1 ds2 zs1 zs2 : List Ptr)
    → (r : QueueId)
    → awake_lists ds2 zs2 (awake_lists ds1 zs1 l) r ≡ awake_lists (ds1 ++ ds2) zs2 l r
same_awake l ds1 ds2 zs1 zs2 QueueId.stopped_queue = refl
same_awake l ds1 ds2 zs1 zs2 QueueId.ready_queue = append_assoc (l ready_queue) ds1 ds2
same_awake l ds1 ds2 zs1 zs2 QueueId.blocked_queue = refl
same_awake l ds1 ds2 zs1 zs2 QueueId.sleep_queue = refl

none_awake :
    (l : Queues) (xs : List Ptr) → l sleep_queue ≡ xs → (r : QueueId) → l r ≡ awake_lists [] xs l r
none_awake l xs e QueueId.stopped_queue = refl
none_awake l xs e QueueId.ready_queue = sym (append-nil (l ready_queue))
none_awake l xs e QueueId.blocked_queue = refl
none_awake l xs e QueueId.sleep_queue = e

awake_empty : (d : Ptr → ℕ) (n : ℕ) (xs : List Ptr) → Starts d xs → within d 0 xs ≡ []
unfolding within
awake_empty d n [] s = refl
awake_empty d n (x ∷ xs) s = let f : leb (d x) 0 ≡ false = ground (arith, s) in rw f refl

within_none : (d : Ptr → ℕ) (n : ℕ) → within d n [] ≡ []
unfolding within
within_none d n = refl

pub differ : true ≡ false → ⊥
differ e = cc

-- If the queues are well formed and every entry of the sleep queue waits `d` ticks after the one
-- before it, the first one tick or more, then `n` ticks wake those that wake within `n` ticks, and
-- leave well-formed queues.
pub ticks_wake :
    (n : ℕ) {k : Kernel} {l : Queues} (d : Ptr → ℕ) (xs : List Ptr)
    → Rep k l
    → l sleep_queue ≡ xs
    → ((a : Ptr) → has a xs ≡ true → (k.pcb a).ret ≡ pos (d a))
    → Starts d xs
    → Returns
        (λ _ k'.
          (zs : List Ptr) × (within d n xs ++ zs ≡ xs) × Rep k' (awake_lists (within d n xs) zs l))
        (ticks n k)
unfolding ticks due asleep_still
ticks_wake zero {k} {l} d xs is e w s =
    rw (awake_empty d 0 xs s)
      (returns (xs, refl, subst (λ m. Rep k m) (fun_ext (none_awake l xs e)) is))
ticks_wake (suc n) {k} {l} d [] is e w s = bind (tick_lem is) λ _ k1 b.
    let b1 : Becomes k k.pcb (awake_lists [] [] l) k1 = rw e at b in
    mono (ticks_wake n d [] b1.rep refl (λ a m. absurd (differ (sym m))) tt) λ _ k2 (ys, rest, is2).
      rw (within_none d (suc n)) (
        ys,
        rw (within_none d n) at rest,
        subst (λ m. Rep k2 m)
            (fun_ext (same_awake l [] (within d n []) [] ys)
              ∙ ap (λ q. awake_lists q ys l) (within_none d n))
            is2,
      )
ticks_wake (suc n) {k} {l} d (x ∷ xs) is e w s =
    bind (tick_wakes d x xs is e w s) λ _ k1 (zs, all, b).
      let i : IsQueue k.pcb (k.queue sleep_queue) (x ∷ xs) = rw e at (is.each sleep_queue) in
      let (more, starts) = within-later d n x xs zs i.distinct.0 s all in
      mono
        (ticks_wake n (later d x) zs b.rep refl
          (Waits-later d x xs (within d 1 (x ∷ xs)) zs w s all b) starts)
        λ _ k2 (ys, rest, is2).
          let ds = within d 1 (x ∷ xs) in
          let ds2 = within (later d x) n zs in
          rw more (
            ys,
            append_assoc ds ds2 ys ∙ ap (λ q. ds ++ q) rest ∙ all,
            subst (λ m. Rep k2 m) (fun_ext (same_awake l ds ds2 zs ys)) is2,
          )
