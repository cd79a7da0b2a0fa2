-- ===== src/Base/Lists.antt =====
-- Lists over the native numbers: lengths, indices, membership as a test.
use Prim.Native.Nat.{ℕ, zero, suc, ◌+◌, ◌<◌}
use mathlib.Core.Path.{◌≡◌, refl, ap}
use mathlib.Core.Logic.{◌≢◌}
use mathlib.Core.Bool.{Bool, true, false, ◌||◌}
use mathlib.Core.List.{List, [], ◌∷◌, ◌++◌}
use native.Mathlib.Omega.{arith}
use xeros_kernel.Base.Tests.{◌==◌}

module _ {ℓ} {A : Type ℓ} where
  abbrev pub length : List A → ℕ
  length [] = 0
  length (x ∷ xs) = suc (length xs)

  abbrev pub get_or : List A → ℕ → A → A
  get_or [] i d = d
  get_or (x ∷ xs) zero d = x
  get_or (x ∷ xs) (suc i) d = get_or xs i d

  -- A write out of bounds changes nothing.
  abbrev pub set : List A → ℕ → A → List A
  set [] i v = []
  set (x ∷ xs) zero v = v ∷ xs
  set (x ∷ xs) (suc i) v = x ∷ set xs i v

  pub length-append : (xs ys : List A) → length (xs ++ ys) ≡ length xs + length ys
  length-append [] ys = omega arith
  length-append (x ∷ xs) ys = omega (arith, length-append xs ys)

  pub length-set : (xs : List A) (i : ℕ) (v : A) → length (set xs i v) ≡ length xs
  length-set [] i v = refl
  length-set (x ∷ xs) zero v = refl
  length-set (x ∷ xs) (suc i) v = ap suc (length-set xs i v)

  pub get_or-set_self :
      (xs : List A) (i : ℕ) (v d : A) → i < length xs → get_or (set xs i v) i d ≡ v
  get_or-set_self [] i v d h = absurd (omega arith)
  get_or-set_self (x ∷ xs) zero v d h = refl
  get_or-set_self (x ∷ xs) (suc i) v d h = get_or-set_self xs i v d (omega arith)

  pub get_or-set_ne :
      (xs : List A) (i j : ℕ) (v d : A) → i ≢ j → get_or (set xs i v) j d ≡ get_or xs j d
  get_or-set_ne [] i j v d h = refl
  get_or-set_ne (x ∷ xs) zero zero v d h = absurd (h refl)
  get_or-set_ne (x ∷ xs) zero (suc j) v d h = refl
  get_or-set_ne (x ∷ xs) (suc i) zero v d h = refl
  get_or-set_ne (x ∷ xs) (suc i) (suc j) v d h = get_or-set_ne xs i j v d (λ e. h (ap suc e))

-- `x` stands in the list.
abbrev pub has : ℕ → List ℕ → Bool
has a [] = false
has a (x ∷ xs) = (a == x) || has a xs

-- No entry stands twice.
abbrev pub Distinct : List ℕ → Type 0
Distinct [] = Unit {0}
Distinct (x ∷ xs) = (has x xs ≡ false) × Distinct xs

-- The list without the first `a`.
abbrev pub remove : ℕ → List ℕ → List ℕ
remove a [] = []
remove a (x ∷ xs) = elim (a == x) [ true ↦ xs | false ↦ x ∷ remove a xs ]

-- The last entry, and `d` of the empty list.
abbrev pub last_or : ℕ → List ℕ → ℕ
last_or d [] = d
last_or d (x ∷ xs) = last_or x xs

pub has-append : (a : ℕ) (xs ys : List ℕ) → has a (xs ++ ys) ≡ (has a xs || has a ys)
has-append a [] ys = refl
has-append a (x ∷ xs) ys = ground (arith, has-append a xs ys)

pub has-remove : (a b : ℕ) (xs : List ℕ) → has a xs ≡ false → has a (remove b xs) ≡ false
has-remove a b [] h = refl
has-remove a b (x ∷ xs) h = ground (arith, has-remove a b xs)

pub has-remove_self : (a : ℕ) (xs : List ℕ) → Distinct xs → has a (remove a xs) ≡ false
has-remove_self a [] d = refl
has-remove_self a (x ∷ xs) d = ground (arith, has-remove_self a xs)

pub has-remove_ne : (a b : ℕ) (xs : List ℕ) → a ≢ b → has a (remove b xs) ≡ has a xs
has-remove_ne a b [] n = refl
has-remove_ne a b (x ∷ xs) n = ground (arith, has-remove_ne a b xs)

pub remove-Distinct : (a : ℕ) (xs : List ℕ) → Distinct xs → Distinct (remove a xs)
remove-Distinct a [] d = tt
remove-Distinct a (x ∷ xs) d = ground (arith, remove-Distinct a xs, has-remove x a xs)

pub append-Distinct :
    (xs : List ℕ) (a : ℕ) → Distinct xs → has a xs ≡ false → Distinct (xs ++ (a ∷ []))
append-Distinct [] a d h = (refl, tt)
append-Distinct (x ∷ xs) a d h = ground (arith, append-Distinct xs a, has-append x xs (a ∷ []))

pub remove_absent : (a : ℕ) (xs : List ℕ) → has a xs ≡ false → remove a xs ≡ xs
remove_absent a [] h = refl
remove_absent a (x ∷ xs) h = ground (arith, remove_absent a xs)

pub last_or-append : (d : ℕ) (xs : List ℕ) (a : ℕ) → last_or d (xs ++ (a ∷ [])) ≡ a
last_or-append d [] a = refl
last_or-append d (x ∷ xs) a = last_or-append x xs a

pub length-remove : (a : ℕ) (xs : List ℕ) → has a xs ≡ true → length xs ≡ suc (length (remove a xs))
length-remove a [] h = absurd (cc)
length-remove a (x ∷ xs) h = ground (arith, length-remove a xs)
