-- ===== src/Prelude/Results.antt =====
-- What a call that may raise returns. Python's exceptions are told apart by their class.
use mathlib.Core.Path.{◌≡◌, refl}
use mathlib.Core.Bool.{Bool, true, false}
use mathlib.Core.Logic.{◌⊎◌, inl, inr}

pub data Fault : Type 0 where
  value_error type_error key_error assertion_error : Fault

pub data Result {ℓ} (A : Type ℓ) : Type ℓ where
  ok : A → Result A
  err : Fault → Result A

-- `if bad: raise fault`
abbrev pub raise_if : Bool → Fault → Result (Unit {0})
raise_if true e = err e
raise_if false e = ok tt

infixl 5 ◌>>=◌
abbrev pub ◌>>=◌ {ℓ κ} : {A : Type ℓ} {B : Type κ} → Result A → (A → Result B) → Result B
ok value >>= next = next value
err fault >>= next = err fault

-- A chain that returns has returned from its first call.
pub >>=-eq-ok {ℓ κ} :
    {A : Type ℓ} {B : Type κ} (call : Result A) (next : A → Result B) {value : B}
    → (call >>= next) ≡ ok value
    → (first : A) × (call ≡ ok first) × (next first ≡ ok value)
>>=-eq-ok (err fault) next raised = cc
>>=-eq-ok (ok first) next returned = (first, refl, returned)

pub Result-cases {ℓ} :
    {A : Type ℓ} (m : Result A) → ((a : A) × (m ≡ ok a)) ⊎ ((e : Fault) × (m ≡ err e))
Result-cases (ok a) = inl (a, refl)
Result-cases (err e) = inr (e, refl)

infixl 5 ◌>>◌
abbrev pub ◌>>◌ {ℓ} : {B : Type ℓ} → Result (Unit {0}) → Result B → Result B
check >> rest = check >>= λ _. rest
