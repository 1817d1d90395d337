-- ===== src/Base/Method.antt =====
-- Methods on `&mut self` that return a Result: what was changed before an error stays changed.
use mathlib.Core.Path.{◌≡◌, refl}
use ticktape.Base.Result.{Result, ok, err}

abbrev pub Method {ℓ κ μ} : Type ℓ → Type κ → Type μ → Type (ℓ ⊔ κ ⊔ μ)
Method S E A = S → Result E A × S

module _ {ℓ κ μ} {S : Type ℓ} {E : Type κ} {A : Type μ} where
  abbrev pub returns : A → Method S E A
  returns a s = (ok a, s)

  abbrev pub fails : E → Method S E A
  fails e s = (err e, s)

-- The rest of the body, unless the first call has failed.
abbrev pub proceed {ℓ κ μ ν} :
    {S : Type ℓ} {Err : Type κ} {A : Type μ} {B : Type ν}
    → Result Err A × S
    → (A → Method S Err B)
    → Result Err B × S
proceed (ok a, s) rest = rest a s
proceed (err stop, s) rest = (err stop, s)

infixl 5 ◌>>=◌ ◌>>◌
abbrev pub ◌>>=◌ {ℓ κ μ ν} :
    {S : Type ℓ} {Err : Type κ} {A : Type μ} {B : Type ν}
    → Method S Err A
    → (A → Method S Err B)
    → Method S Err B
◌>>=◌ call rest s = proceed (call s) rest

abbrev pub ◌>>◌ {ℓ κ ν} :
    {S : Type ℓ} {Err : Type κ} {B : Type ν}
    → Method S Err (Unit {0})
    → Method S Err B
    → Method S Err B
call >> rest = call >>= λ _. rest

-- A body that returned went through its first call.
pub proceed-eq-ok {ℓ κ μ ν} :
    {S : Type ℓ} {Err : Type κ} {A : Type μ} {B : Type ν} (r : Result Err A × S)
    (rest : A → Method S Err B) {b : B} {s' : S}
    → proceed r rest ≡ (ok b, s')
    → (a : A) × (s : S) × (r ≡ (ok a, s)) × (rest a s ≡ (ok b, s'))
proceed-eq-ok (ok a, s) rest e = (a, s, refl, e)
proceed-eq-ok (err stop, s) rest e = cc
