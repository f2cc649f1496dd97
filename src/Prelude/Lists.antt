-- ===== src/Prelude/Lists.antt =====
-- Lists over the native numbers, Python's membership tests, and predicates by recursion.
use Prim.Native.Nat.{ℕ, suc, ◌+◌}
use Prim.Native.String.{String}
use mathlib.Core.Path.{◌≡◌}
use mathlib.Core.Bool.{Bool, true, false, not, ◌&&◌, ◌||◌}
use mathlib.Core.Option.{Option, none, some}
use mathlib.Core.List.{List, [], ◌∷◌, ◌++◌}
use native.Mathlib.Omega.{arith}
use text.Mathlib.Text.{◌==◌ as str_eq}
use venture_capital_lead_res.Prelude.Tests.{if◌then◌else◌}

module _ {ℓ} {A : Type ℓ} where
  abbrev pub length : List A → ℕ
  length [] = 0
  length (x ∷ xs) = suc (length xs)

  pub length-append : (xs ys : List A) → length (xs ++ ys) ≡ length xs + length ys
  length-append [] ys = omega arith
  length-append (x ∷ xs) ys = omega (arith, length-append xs ys)

  abbrev pub any : (A → Bool) → List A → Bool
  any p [] = false
  any p (x ∷ xs) = p x || any p xs

  abbrev pub all : (A → Bool) → List A → Bool
  all p [] = true
  all p (x ∷ xs) = p x && all p xs

  -- The first element that passes the test.
  abbrev pub find : (A → Bool) → List A → Option A
  find p [] = none
  find p (x ∷ xs) = let rest = find p xs in if p x then some x else rest

  -- `not l` of a Python list.
  abbrev pub is_empty : List A → Bool
  is_empty [] = true
  is_empty (_ ∷ _) = false

module _ {ℓ κ} {A : Type ℓ} (P : A → Type κ) where
  abbrev pub All : List A → Type κ
  All [] = Unit
  All (x ∷ xs) = P x × All xs

-- `key in {...}` for texts.
abbrev pub member : String → List String → Bool
member k = any (str_eq k)

module _ {ℓ} {A : Type ℓ} where
  abbrev pub is_some : Option A → Bool
  is_some none = false
  is_some (some _) = true

  -- `COALESCE(o, a)` as an option again.
  abbrev pub or_else : Option A → A → Option A
  or_else none a = some a
  or_else (some b) a = some b

module _ {ℓ} {A : Type ℓ} (p : A → Bool) where
  pub any-not-All : (xs : List A) → any (λ x. not (p x)) xs ≡ false → All (λ x. p x ≡ true) xs
  any-not-All [] h = tt
  any-not-All (x ∷ xs) h = (ground arith, any-not-All xs (ground arith))

  pub any-none : (xs : List A) → any p xs ≡ false → All (λ x. p x ≡ false) xs
  any-none [] h = tt
  any-none (x ∷ xs) h = (ground arith, any-none xs (ground arith))

  pub all-All : (xs : List A) → all p xs ≡ true → All (λ x. p x ≡ true) xs
  all-All [] h = tt
  all-All (x ∷ xs) h = (ground arith, all-All xs (ground arith))

pub All-mapped {ℓ κ μ} :
    {A : Type ℓ} {P : A → Type κ} {Q : A → Type μ}
    → ((x : A) → P x → Q x)
    → (xs : List A) → All P xs
    → All Q xs
All-mapped f [] h = tt
All-mapped f (x ∷ xs) (h, hs) = (f x h, All-mapped f xs hs)
