-- ===== src/Sleep/Timed.antt =====
-- The delta queue of c/sleep.c with one more process: its ticks, and who wakes within how many.
use xeros_kernel.Base.{
  ℕ, ◌+◌, ◌-◌, ◌≤◌, ◌≡◌, refl, ◌∙◌, sym, ap, subst, true, false, List, [], ◌∷◌, ◌++◌, arith, leb,
  ltb, ◌==◌, if◌then◌else◌, ◌||◌, Bool-cases, inl, inr, has, has-append, Distinct, ==_refl,
}
use xeros_kernel.Base.Int.{pos, ◌-ℤ◌}
use xeros_kernel.Kernel.Config.{Ptr}
use xeros_kernel.Queue.Chain.{Store}
use xeros_kernel.Queue.Becomes.{edit}
use xeros_kernel.Sleep.Place.{before, behind, left_over, total}
use xeros_kernel.Sleep.Delta.{slept, shorten}
use xeros_kernel.Sleep.Tick.{within}
use xeros_kernel.Sleep.Ticks.{Starts}

-- The ticks after the sleep: those of the process, and of the entry behind it.
abbrev pub sooner : List Ptr → ℕ → (Ptr → ℕ) → Ptr → ℕ
sooner [] m d a = d a
sooner (c ∷ cs) m d a = if a == c then d a - m else d a

abbrev pub timed : Ptr → List Ptr → ℕ → (Ptr → ℕ) → Ptr → ℕ
timed x zs m d a = if a == x then m else sooner zs m d a

abbrev pub Fits : List Ptr → ℕ → (Ptr → ℕ) → Type 0
Fits [] m d = Unit {0}
Fits (c ∷ cs) m d = m ≤ d c

-- A process wakes within `t` ticks if those in front of it and its own are no more.
pub has-within :
    (e : Ptr → ℕ) (t : ℕ) (x : Ptr) (ys zs : List Ptr)
    → has x ys ≡ false
    → has x (within e t (ys ++ (x ∷ zs))) ≡ leb (total e ys + e x) t
unfolding within total
has-within e t x [] zs out = elim (Bool-cases (leb (e x) t)) [
  | inl h ↦ rw (h, ==_refl x) (ground arith)
  | inr h ↦ rw h (ground arith)
]
has-within e t x (y ∷ ys) zs out =
    let ih = has-within e (t - e y) x ys zs (ground arith) in
    let other : (x == y) ≡ false = ground arith in
    elim (Bool-cases (leb (e y) t)) [
      | inl h ↦ rw (h, other) (ih ∙ ground arith)
      | inr h ↦ rw h (ground arith)
    ]

pub total_same :
    (d e : Ptr → ℕ) (ys : List Ptr)
    → ((a : Ptr) → has a ys ≡ true → d a ≡ e a)
    → total d ys ≡ total e ys
unfolding total
total_same d e [] same = refl
total_same d e (y ∷ ys) same =
    rw (same y (rw (==_refl y) refl), total_same d e ys (λ a m. same a (ground arith))) refl

pub behind-Fits : (d : Ptr → ℕ) (n : ℕ) (xs : List Ptr) → Fits (behind d n xs) (left_over d n xs) d
unfolding behind left_over
behind-Fits d n [] = tt
behind-Fits d n (x ∷ xs) =
    let ih = behind-Fits d (n - d x) xs in
    elim (Bool-cases (ltb (d x) n)) [ inl h ↦ rw h ih | inr h ↦ rw h (ground arith) ]

absent_front : (c : Ptr) (cs ys : List Ptr) → Distinct (ys ++ (c ∷ cs)) → has c ys ≡ false
absent_front c cs [] dist = refl
absent_front c cs (y ∷ ys) dist =
    let ih = absent_front c cs ys dist.1 in
    let parts : (has y ys || has y (c ∷ cs)) ≡ false = sym (has-append y ys (c ∷ cs)) ∙ dist.0 in
    ground arith

abbrev Absent : List Ptr → List Ptr → Type 0
Absent ys [] = Unit {0}
Absent ys (c ∷ cs) = has c ys ≡ false

-- The queue is `ys ++ zs`, and the process `x` with `m` ticks goes between.
module _ (x m : ℕ) (d : Ptr → ℕ) (ys zs : List Ptr) (h : Store)
    (waits : (a : Ptr) → has a (ys ++ zs) ≡ true → (h a).ret ≡ pos (d a))
    (out : has x (ys ++ zs) ≡ false) (dist : Distinct (ys ++ zs)) (fits : Fits zs m d) where
  absent_parts : (has x ys || has x zs) ≡ false
  absent_parts = sym (has-append x ys zs) ∙ out

  pub timed_front : (a : Ptr) → has a ys ≡ true → d a ≡ timed x zs m d a
  timed_front a here =
      let parts = absent_parts in
      let ne : (a == x) ≡ false = apart a parts here in rw ne (each zs (absent zs dist))
    where
      apart : (a : Ptr) → (has x ys || has x zs) ≡ false → has a ys ≡ true → (a == x) ≡ false
      apart a parts here = elim (Bool-cases (a == x)) [
        | inl t ↦
            let q : a ≡ x = ground arith in
            let there : has x ys ≡ true = ap (λ b. has b ys) (sym q) ∙ here in ground arith
        | inr t ↦ t
      ]

      absent : (zs : List Ptr) → Distinct (ys ++ zs) → Absent ys zs
      absent [] dist = tt
      absent (c ∷ cs) dist = absent_front c cs ys dist

      each : (zs : List Ptr) → Absent ys zs → d a ≡ sooner zs m d a
      each [] f = refl
      each (c ∷ cs) f = elim (Bool-cases (a == c)) [
        | inl t ↦
            let q : a ≡ c = ground arith in
            let there : has c ys ≡ true = ap (λ b. has b ys) (sym q) ∙ here in ground arith
        | inr t ↦ rw t refl
      ]

minus : (a m : ℕ) → m ≤ a → pos a -ℤ pos m ≡ pos (a - m)
minus a m h = ground arith

not_new :
    (a x : Ptr) (ys zs : List Ptr)
    → has a (ys ++ (x ∷ zs)) ≡ true
    → (a == x) ≡ false
    → has a (ys ++ zs) ≡ true
not_new a x ys zs here ne =
    let parts = sym (has-append a ys (x ∷ zs)) ∙ here in has-append a ys zs ∙ ground arith

-- The results in the queue are the ticks.
pub timed_ret :
    (x m : ℕ) (d : Ptr → ℕ) (ys zs : List Ptr) (h : Store)
    → ((a : Ptr) → has a (ys ++ zs) ≡ true → (h a).ret ≡ pos (d a))
    → has x (ys ++ zs) ≡ false
    → Fits zs m d
    → (a : Ptr) → has a (ys ++ (x ∷ zs)) ≡ true
    → (shorten zs m (edit x (slept m) h) a).ret ≡ pos (timed x zs m d a)
timed_ret x m d ys [] h waits out fits a here = elim (Bool-cases (a == x)) [
  | inl t ↦ rw t refl
  | inr t ↦ rw t (waits a (not_new a x ys [] here t))
]
timed_ret x m d ys (c ∷ cs) h waits out fits a here =
    let parts : (has x ys || has x (c ∷ cs)) ≡ false = sym (has-append x ys (c ∷ cs)) ∙ out in
    let ne : (c == x) ≡ false = ground arith in
    let there : has c (ys ++ (c ∷ cs)) ≡ true = has-append c ys (c ∷ cs) ∙ ground arith in
    elim (Bool-cases (a == c)) [
      | inl t ↦
          let q : a ≡ c = ground arith in
          rw (q, ==_refl c, ne) (ap (λ z. z -ℤ pos m) (waits c there) ∙ minus (d c) m fits)
      | inr t ↦ elim (Bool-cases (a == x)) [
        | inl u ↦ rw (t, u) refl
        | inr u ↦ rw (t, u) (waits a (not_new a x ys (c ∷ cs) here u))
      ]
    ]

pub timed-Starts :
    (x m : ℕ) (d : Ptr → ℕ) (ys zs : List Ptr)
    → ((a : Ptr) → has a ys ≡ true → d a ≡ timed x zs m d a)
    → (ys ≡ [] → 1 ≤ m)
    → Starts d (ys ++ zs)
    → Starts (timed x zs m d) (ys ++ (x ∷ zs))
timed-Starts x m d [] zs front own s = rw (==_refl x) (own refl)
timed-Starts x m d (y ∷ ys) zs front own s = subst (λ n. 1 ≤ n) (front y (rw (==_refl y) refl)) s

pub left_over_first :
    (d : Ptr → ℕ) (n : ℕ) (xs : List Ptr) → before d n xs ≡ [] → left_over d n xs ≡ n
unfolding before left_over
left_over_first d n [] e = refl
left_over_first d n (x ∷ xs) e = elim (Bool-cases (ltb (d x) n)) [
  | inl h ↦ let f : x ∷ before d (n - d x) xs ≡ [] = rw h at e in ground (arith, f)
  | inr h ↦ rw h refl
]
