-- ===== src/Base/Results.antt =====
-- A call that returns or throws: the value, or the error. A caught promise rejection is the same.
use mathlib.Core.Path.{◌≡◌, refl}
use mathlib.Core.Logic.{◌⊎◌, inl, inr}
use mathlib.Core.Bool.{Bool, true, false}

pub data Result (Thrown Value : Type 0) : Type 0 where
  err : Thrown → Result Thrown Value
  ok : Value → Result Thrown Value

-- `if (c) throw e`
abbrev pub throw_if : {Thrown : Type 0} → Bool → Thrown → Result Thrown (Unit {0})
throw_if false thrown = ok tt
throw_if true thrown = err thrown

-- `await m` and then the rest, which a throw skips.
infixl 5 ◌>>=◌
abbrev pub ◌>>=◌ : {Thrown V W : Type 0} → Result Thrown V → (V → Result Thrown W) → Result Thrown W
err thrown >>= rest = err thrown
ok value >>= rest = rest value

infixl 5 ◌>>◌
abbrev pub ◌>>◌ : {Thrown W : Type 0} → Result Thrown (Unit {0}) → Result Thrown W → Result Thrown W
err thrown >> rest = err thrown
ok _ >> rest = rest

-- A chain that returns: so did its first call, and the rest from what that returned.
module _ {Thrown V W : Type 0} (rest : V → Result Thrown W) {w : W} where
  returned :
      (first : Result Thrown V)
      → (first >>= rest) ≡ ok w
      → (v : V) × (first ≡ ok v) × (rest v ≡ ok w)
  returned (err thrown) chain = cc
  returned (ok v) chain = (v, refl, chain)

pub >>=-eq-ok :
    {Thrown V W : Type 0} (first : Result Thrown V) (rest : V → Result Thrown W) {w : W}
    → (first >>= rest) ≡ ok w
    → (v : V) × (first ≡ ok v) × (rest v ≡ ok w)
>>=-eq-ok first rest chain = returned rest first chain

-- What holds after a transaction: its value, or where it threw the old one.
abbrev pub value_or : {E A : Type 0} → A → Result E A → A
value_or old (ok a) = a
value_or old (err e) = old

pub Result-cases :
    {E A : Type 0} (r : Result E A) → ((e : E) × (r ≡ err e)) ⊎ ((a : A) × (r ≡ ok a))
Result-cases (ok a) = inr (a, refl)
Result-cases (err e) = inl (e, refl)
