-- ===== src/Objects/Replies.antt =====
-- To split on what a call on object versions returns (src/umbral/application/objects/contracts.py).
use umbral.Prelude.{◌≡◌, refl, ◌⊎◌, inl, inr}
use umbral.Objects.Contracts.{ObjectFault, Reply, replied, raised}

pub Reply-cases {ℓ} :
    {A : Type ℓ} (r : Reply A) → ((a : A) × (r ≡ replied a)) ⊎ ((f : ObjectFault) × (r ≡ raised f))
Reply-cases (replied a) = inl (a, refl)
Reply-cases (raised f) = inr (f, refl)
