-- ===== src/Base/Result.antt =====
-- Rust's Result and its `?` operator.
use mathlib.Core.Path.{◌≡◌, refl}
use mathlib.Core.Bool.{Bool, true, false}
use mathlib.Core.Option.{Option, none, some}
use mathlib.Core.Logic.{◌⊎◌, inl, inr}

pub data Result {ℓ κ} (E : Type ℓ) (A : Type κ) : Type (ℓ ⊔ κ) where
  ok : A → Result E A
  err : E → Result E A

infixl 5 ◌>>=◌ ◌>>◌
abbrev pub ◌>>=◌ {ℓ κ μ} :
    {Err : Type ℓ} {A : Type κ} {B : Type μ} → Result Err A → (A → Result Err B) → Result Err B
err stop >>= _ = err stop
ok value >>= rest = rest value

abbrev pub ◌>>◌ {ℓ κ} :
    {Err : Type ℓ} {B : Type κ} → Result Err (Unit {0}) → Result Err B → Result Err B
err stop >> _ = err stop
ok _ >> rest = rest

-- `if test { return Err(e); }`
abbrev pub reject_if {ℓ} : {E : Type ℓ} → Bool → E → Result E (Unit {0})
reject_if true e = err e
reject_if false e = ok tt

-- `Option::ok_or`
abbrev pub ok_or {ℓ κ} : {E : Type ℓ} {A : Type κ} → Option A → E → Result E A
ok_or none e = err e
ok_or (some a) e = ok a

-- A successful `?` chain went through its first step.
pub >>=-eq-ok {ℓ κ μ} :
    {Err : Type ℓ} {A : Type κ} {B : Type μ} (first : Result Err A) (rest : A → Result Err B)
    {b : B}
    → (first >>= rest) ≡ ok b
    → (a : A) × (first ≡ ok a) × (rest a ≡ ok b)
>>=-eq-ok (err stop) rest h = cc
>>=-eq-ok (ok value) rest h = (value, refl, h)

-- The same where the step returns a value and the bytes that follow it.
pub >>=-eq-ok_pair {ℓ κ μ ν} :
    {E : Type ℓ} {A : Type κ} {S : Type μ} {B : Type ν} (m : Result E (A × S))
    (f : A × S → Result E B) {b : B}
    → (m >>= f) ≡ ok b
    → (a : A) × (s : S) × (m ≡ ok (a, s)) × (f (a, s) ≡ ok b)
>>=-eq-ok_pair (ok (a, s)) f h = (a, s, refl, h)
>>=-eq-ok_pair (err e) f h = cc

pub Result-cases {ℓ κ} :
    {E : Type ℓ} {A : Type κ} (r : Result E A) → ((a : A) × (r ≡ ok a)) ⊎ ((e : E) × (r ≡ err e))
Result-cases (ok a) = inl (a, refl)
Result-cases (err e) = inr (e, refl)
