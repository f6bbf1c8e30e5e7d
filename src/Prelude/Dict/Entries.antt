-- ===== src/Prelude/Dict/Entries.antt =====
-- Loops over the entries of a dictionary, or over some of them: what a loop reads before it starts is
-- still there when it comes to an entry, since no key stands twice.
use mathlib.Core.Path.{◌≡◌, refl}
use mathlib.Core.Bool.{Bool, true}
use mathlib.Core.Option.{none, some}
use mathlib.Core.List.{List, [], ◌∷◌}
use native.Mathlib.Omega.{arith}
use Prim.Native.Nat.{ℕ, zero, suc, ◌≤◌}
use umbral.Prelude.Tests.{Eq}
use umbral.Prelude.Lists.{All, keep, take, length}
use umbral.Prelude.Dict.Base.{Dict, get, set, get-set}

module _ {ℓ κ} {K : Type ℓ} {V : Type κ} ⦃e : Eq K⦄ where
  -- No key stands twice.
  abbrev pub IsDict : Dict K V → Type κ
  IsDict [] = Unit
  IsDict ((k, v) ∷ m) = (get k m ≡ none) × IsDict m

  -- Every entry of the list is in the dictionary.
  abbrev pub Holds : Dict K V → Dict K V → Type κ
  Holds [] m = Unit
  Holds ((k, v) ∷ l) m = (get k m ≡ some v) × Holds l m

  pub get-set-none :
      (k j : K) (v : V) (m : Dict K V) → get j m ≡ none → (k ≡ j → ⊥) → get j (set k v m) ≡ none
  get-set-none k j v m h n = ground (arith, get-set k j v m, e.same_iff k j)

  pub IsDict-set : (k : K) (v : V) (m : Dict K V) → IsDict m → IsDict (set k v m)
  unfolding set get
  IsDict-set k v [] h = (refl, tt)
  IsDict-set k v ((j, w) ∷ m) h =
      ground (arith, e.same_iff j k, e.same_iff k j, get-set k j v m, IsDict-set k v m)

  Holds-cons : (k : K) (v : V) (l m : Dict K V) → get k l ≡ none → Holds l m → Holds l ((k, v) ∷ m)
  unfolding get
  Holds-cons k v [] m n h = tt
  Holds-cons k v ((j, w) ∷ l) m n h =
      ground (arith, e.same_iff k j, e.same_iff j k, Holds-cons k v l m)

  pub Holds-refl : (m : Dict K V) → IsDict m → Holds m m
  unfolding get
  Holds-refl [] h = tt
  Holds-refl ((k, v) ∷ m) h = ground (arith, e.same_iff k k, Holds-cons k v m m, Holds-refl m)

  -- A write to a key that the list does not have.
  pub Holds-set :
      (k : K) (v : V) (l m : Dict K V) → get k l ≡ none → Holds l m → Holds l (set k v m)
  unfolding get
  Holds-set k v [] m n h = tt
  Holds-set k v ((j, w) ∷ l) m n h =
      ground (arith, e.same_iff k j, e.same_iff j k, get-set k j v m, Holds-set k v l m)

  module _ (p : K × V → Bool) where
    get-keep : (k : K) (l : Dict K V) → get k l ≡ none → get k (keep p l) ≡ none
    unfolding get keep
    get-keep k [] h = refl
    get-keep k ((j, w) ∷ l) h = ground (arith, get-keep k l)

    pub IsDict-keep : (l : Dict K V) → IsDict l → IsDict (keep p l)
    unfolding keep
    IsDict-keep [] h = tt
    IsDict-keep ((j, w) ∷ l) h = ground (arith, get-keep j l, IsDict-keep l)

    pub Holds-keep : (l m : Dict K V) → Holds l m → Holds (keep p l) m
    unfolding keep
    Holds-keep [] m h = tt
    Holds-keep ((j, w) ∷ l) m h = ground (arith, Holds-keep l m)

  get-take : (n : ℕ) (k : K) (l : Dict K V) → get k l ≡ none → get k (take n l) ≡ none
  unfolding get
  get-take zero k l h = refl
  get-take (suc n) k [] h = refl
  get-take (suc n) k ((j, w) ∷ l) h = ground (arith, get-take n k l)

  pub IsDict-take : (n : ℕ) (l : Dict K V) → IsDict l → IsDict (take n l)
  IsDict-take zero l h = tt
  IsDict-take (suc n) [] h = tt
  IsDict-take (suc n) ((j, w) ∷ l) h = (get-take n j l h.0, IsDict-take n l h.1)

  pub Holds-take : (n : ℕ) (l m : Dict K V) → Holds l m → Holds (take n l) m
  Holds-take zero l m h = tt
  Holds-take (suc n) [] m h = tt
  Holds-take (suc n) ((j, w) ∷ l) m h = (h.0, Holds-take n l m h.1)

module _ {ℓ κ} {A : Type ℓ} (P : A → Type κ) where
  pub All-take : (n : ℕ) (l : List A) → All P l → All P (take n l)
  All-take zero l h = tt
  All-take (suc n) [] h = tt
  All-take (suc n) (x ∷ l) h = (h.0, All-take n l h.1)

pub keep-All {ℓ} : {A : Type ℓ} (p : A → Bool) (l : List A) → All (λ x. p x ≡ true) (keep p l)
unfolding keep
keep-All p [] = tt
keep-All p (x ∷ l) = ground (arith, keep-All p l)

module _ {ℓ κ} {K : Type ℓ} {V : Type κ} ⦃e : Eq K⦄ (p : K × V → Bool) where
  -- What the dictionary has under a key and passes the test is among the kept entries.
  pub get-keep-some :
      (k : K) (v : V) (m : Dict K V)
      → IsDict m
      → get k m ≡ some v
      → p (k, v) ≡ true
      → get k (keep p m) ≡ some v
  unfolding get keep
  get-keep-some k v [] d h t = h
  get-keep-some k v ((j, w) ∷ m) d h t =
      ground (arith, e.same_iff j k, get-keep p j m, get-keep-some k v m)

pub length-keep-le {ℓ} : {A : Type ℓ} (p : A → Bool) (l : List A) → length (keep p l) ≤ length l
unfolding keep
length-keep-le p [] = omega arith
length-keep-le p (x ∷ l) = ground (arith, length-keep-le p l)

pub take-all {ℓ} : {A : Type ℓ} (n : ℕ) (l : List A) → length l ≤ n → take n l ≡ l
take-all zero [] h = refl
take-all zero (x ∷ l) h = absurd (omega arith)
take-all (suc n) [] h = refl
take-all (suc n) (x ∷ l) h = rw (take-all n l (omega arith)) refl
