-- ===== src/Base/Lists.antt =====
-- Lists measured by native numbers, and searched by Boolean tests.
use Prim.Native.Nat.{ℕ, zero, suc, ◌+◌, ◌≤◌}
use mathlib.Core.Path.{◌≡◌, refl}
use mathlib.Core.Bool.{Bool, true, false, ◌||◌}
use mathlib.Core.List.{List, [], ◌∷◌, ◌++◌, reverse, reverse-cons}
use mathlib.Core.Option.{Option, none, some}
use native.Mathlib.Omega.{arith}
use fin_tech_ai.Base.Tests.{if◌then◌else◌}

module _ {ℓ} {A : Type ℓ} where
  abbrev pub length : List A → ℕ
  length [] = 0
  length (x ∷ xs) = suc (length xs)

  -- `Array.prototype.filter`
  abbrev pub keep : (A → Bool) → List A → List A
  keep p [] = []
  keep p (x ∷ xs) = let rest = keep p xs in if p x then x ∷ rest else rest

  -- `Array.prototype.some`
  abbrev pub exists : (A → Bool) → List A → Bool
  exists p [] = false
  exists p (x ∷ xs) = p x || exists p xs

  -- `Array.prototype.find`
  abbrev pub find : (A → Bool) → List A → Option A
  find p [] = none
  find p (x ∷ xs) = let rest = find p xs in if p x then some x else rest

  abbrev pub take : ℕ → List A → List A
  take zero xs = []
  take (suc n) [] = []
  take (suc n) (x ∷ xs) = x ∷ take n xs

  length-append : (xs ys : List A) → length (xs ++ ys) ≡ length xs + length ys
  length-append [] ys = omega arith
  length-append (x ∷ xs) ys = omega (arith, length-append xs ys)

  pub take-append : (xs ys : List A) → take (length xs) (xs ++ ys) ≡ xs
  take-append [] ys = refl
  take-append (x ∷ xs) ys = rw (take-append xs ys) refl

  pub length-take : (n : ℕ) (xs : List A) → length (take n xs) ≤ n
  length-take zero xs = omega arith
  length-take (suc n) [] = omega arith
  length-take (suc n) (x ∷ xs) = omega (arith, length-take n xs)

module _ {A : Type 0} (p : A → Bool) where
  pub keep-append_one :
      (xs : List A) (y : A)
      → keep p (xs ++ y ∷ []) ≡ (if p y then keep p xs ++ y ∷ [] else keep p xs)
  keep-append_one [] y = ground arith
  keep-append_one (x ∷ xs) y = ground (arith, keep-append_one xs y)

  pub exists-append_one : (xs : List A) (y : A) → exists p (xs ++ y ∷ []) ≡ exists p xs || p y
  exists-append_one [] y = ground arith
  exists-append_one (x ∷ xs) y = ground (arith, exists-append_one xs y)

  find-append_one :
      (xs : List A) (y : A)
      → find p (xs ++ y ∷ [])
        ≡ elim (find p xs) [ none ↦ (if p y then some y else none) | some x ↦ some x ]
  find-append_one [] y = refl
  find-append_one (x ∷ xs) y = ground (arith, find-append_one xs y)

  find-none : (xs : List A) → exists p xs ≡ false → find p (reverse xs) ≡ none
  find-none [] h = refl
  find-none (x ∷ xs) h =
      rw (reverse-cons x xs)
        (ground (arith, h, find-none xs (ground (arith, h)), find-append_one (reverse xs) x))

  -- The last element that meets a test is the first of the reversed list.
  pub find-reverse :
      (xs : List A) (y : A) (zs : List A)
      → p y ≡ true
      → exists p zs ≡ false
      → find p (reverse (xs ++ y ∷ zs)) ≡ some y
  find-reverse [] y zs h none_later =
      rw (reverse-cons y zs)
        (ground (arith, h, find-none zs none_later, find-append_one (reverse zs) y))
  find-reverse (x ∷ xs) y zs h none_later = rw (reverse-cons x (xs ++ y ∷ zs)) (
      ground (arith, find-reverse xs y zs h none_later, find-append_one (reverse (xs ++ y ∷ zs)) x))
