-- ===== src/Identity/Transactions.antt =====
-- What a transaction of the identity store returns and leaves
-- (src/umbral/infrastructure/db/repositories/identity.py).
use umbral.Prelude.{◌≡◌, refl, ap, ◌⊎◌, inl, inr, arith}
use umbral.Identity.Models.{Reply, replied, raised, IdentityFault}
use umbral.Identity.Store.{IdentityStore, committed}

pub committed-replied {ℓ} :
    {A : Type ℓ} (s : IdentityStore) (x : IdentityStore × Reply A) (a : A)
    → (committed s x).1 ≡ replied a
    → x.1 ≡ replied a
unfolding committed
committed-replied s (t, replied b) a h = h
committed-replied s (t, raised f) a h = h

pub committed-raised {ℓ} :
    {A : Type ℓ} (s : IdentityStore) (x : IdentityStore × Reply A) (f : IdentityFault)
    → x.1 ≡ raised f
    → committed s x ≡ (s, raised f)
unfolding committed
committed-raised s (t, replied b) f h = absurd (ground (arith, h))
committed-raised s (t, raised g) f h = ap (λ e. (s, e)) h

pub committed-restores {ℓ} :
    {A : Type ℓ} (s : IdentityStore) (x : IdentityStore × Reply A) (f : IdentityFault)
    → (committed s x).1 ≡ raised f
    → (committed s x).0 ≡ s
unfolding committed
committed-restores s (t, replied b) f h = absurd (ground (arith, h))
committed-restores s (t, raised g) f h = refl

pub committed-same {ℓ} :
    {A : Type ℓ} (s : IdentityStore) (x : IdentityStore × Reply A) (a : A)
    → (committed s x).1 ≡ replied a
    → committed s x ≡ x
unfolding committed
committed-same s (t, replied b) a h = refl
committed-same s (t, raised f) a h = absurd (ground (arith, h))

pub committed-made {ℓ} :
    {A : Type ℓ} (s : IdentityStore) (x : IdentityStore × Reply A) (a : A)
    → x.1 ≡ replied a
    → committed s x ≡ x
unfolding committed
committed-made s (t, replied b) a h = refl
committed-made s (t, raised f) a h = absurd (ground (arith, h))

pub Reply-cases {ℓ} :
    {A : Type ℓ} (x : Reply A)
    → ((a : A) × (x ≡ replied a)) ⊎ ((f : IdentityFault) × (x ≡ raised f))
Reply-cases (replied a) = inl (a, refl)
Reply-cases (raised f) = inr (f, refl)
