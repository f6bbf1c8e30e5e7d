-- ===== src/Identity/Attempts.antt =====
-- How the table of attempts may change (src/umbral/infrastructure/db/repositories/identity.py): a link that
-- was consumed stays consumed.
use umbral.Prelude.{
  ℕ, Bool, true, false, ◌&&◌, List, [], ◌∷◌, Option, none, some, ◌≡◌, refl, ap, ◌∙◌, nat_eq, ◌==◌,
  ltb, keep, arith, inl, inr, Bool-cases, All,
}
use umbral.Prelude.Dict
use umbral.Prelude.Dict.{
  Dict, get-set, get-set_self, IsDict, IsDict-set, Holds, Holds-refl, Holds-keep, keep-All,
}
use umbral.Identity.Models.{
  AttemptState, MagicLinkAttempt, is_issued, AccessAuditEvent, Reply, replied, raised,
}
use umbral.Identity.Store.{IdentityStore, append_audit, committed}
use umbral.Identity.Events.{validate_event}
use umbral.Identity.LinkStore.{latest, current_attempt, is_asked, audited_then, issued_key}
use umbral.Identity.Transactions.{Reply-cases}

unfoldable pub is_consumed : AttemptState → Bool
is_consumed AttemptState.consumed = true
is_consumed _ = false

abbrev pub Attempts : Type 0
Attempts = Dict ℕ MagicLinkAttempt

-- Each attempt stands under its own identifier.
pub record IsTable (d : Attempts) : Type 0 where
  pub distinct : IsDict d
  pub keyed : (i : ℕ) (a : MagicLinkAttempt) → Dict.get i d ≡ some a → a.id ≡ i

-- The table is one still, and what was consumed is as it was.
pub record Evolves (d e : Attempts) : Type 0 where
  pub table : IsTable e
  pub keeps :
      (i : ℕ) (a : MagicLinkAttempt)
      → Dict.get i d ≡ some a
      → is_consumed a.state ≡ true
      → Dict.get i e ≡ some a

pub Evolves-refl : (d : Attempts) → IsTable d → Evolves d d
Evolves-refl d t = record { table = t; keeps = λ i a at on. at }

pub Evolves-trans : (d e f : Attempts) → Evolves d e → Evolves e f → Evolves d f
Evolves-trans d e f h k = record {
  table = k.table;
  keeps = λ i a at on. k.keeps i a (h.keeps i a at on) on;
}

-- A write over what is not consumed.
pub Evolves-set :
    (a : MagicLinkAttempt) (d : Attempts)
    → IsTable d
    → ((old : MagicLinkAttempt) → Dict.get a.id d ≡ some old → is_consumed old.state ≡ false)
    → Evolves d (Dict.set a.id a d)
Evolves-set a d t unused = record {
  table = record {
    distinct = IsDict-set a.id a d t.distinct;
    keyed = λ i b at. elim (Bool-cases (a.id == i)) [
      | inl e ↦ ground (arith, rw (get-set a.id i a d, e) at at, nat_eq.same_iff a.id i, e)
      | inr e ↦ t.keyed i b (rw (get-set a.id i a d, e) at at)
    ];
  };
  keeps = λ i b at on. elim (Bool-cases (a.id == i)) [
    | inl e ↦
        let same : a.id ≡ i = (nat_eq.same_iff a.id i).0 e in
        absurd (ground (arith, on, unused b (ap (λ j. Dict.get j d) same ∙ at)))
    | inr e ↦ rw (get-set a.id i a d, e) at
  ];
}

latest-some :
    (d : Attempts) (best : MagicLinkAttempt) (rest : List (ℕ × MagicLinkAttempt))
    (a : MagicLinkAttempt) (P : MagicLinkAttempt → Type 0)
    → P best
    → All (λ entry. P entry.1) rest
    → latest (some best) rest ≡ some a
    → P a
unfolding latest
latest-some d best [] a P p all h = let same : best ≡ a = ground (arith, h) in rw⁻¹ same p
latest-some d best ((i, b) ∷ rest) a P p all h =
    elim (Bool-cases (ltb (issued_key best) (issued_key b))) [
      | inl e ↦ latest-some d b rest a P all.0 all.1 (rw (e, latest) at h)
      | inr e ↦ latest-some d best rest a P p all.1 (rw (e, latest) at h)
    ]

-- The current attempt of a subject is issued and in the table.
abbrev IsCurrent : Attempts → MagicLinkAttempt → Type 0
IsCurrent d a = (is_issued a.state ≡ true) × (Dict.get a.id d ≡ some a)

latest-IsCurrent :
    (d : Attempts) (rest : List (ℕ × MagicLinkAttempt)) (a : MagicLinkAttempt)
    → All (λ entry. IsCurrent d entry.1) rest
    → latest none rest ≡ some a
    → IsCurrent d a
unfolding latest
latest-IsCurrent d [] a all h = absurd (ground (arith, h))
latest-IsCurrent d ((i, b) ∷ rest) a all h = latest-some d b rest a (IsCurrent d) all.0 all.1 h

kept-IsCurrent :
    (d : Attempts) (p : ℕ × MagicLinkAttempt → Bool) (l : Attempts)
    → IsTable d
    → ((entry : ℕ × MagicLinkAttempt) → p entry ≡ true → is_issued entry.1.state ≡ true)
    → Holds l d
    → All (λ entry. p entry ≡ true) l
    → All (λ entry. IsCurrent d entry.1) l
kept-IsCurrent d p [] t only h k = tt
kept-IsCurrent d p ((i, a) ∷ l) t only h k = (
  (only (i, a) k.0, ap (λ j. Dict.get j d) (t.keyed i a h.0) ∙ h.0),
  kept-IsCurrent d p l t only h.1 k.1,
)

pub current_attempt-IsCurrent :
    (invitation_id product_user_id : Option ℕ) (s : IdentityStore) (a : MagicLinkAttempt)
    → IsTable s.attempts
    → current_attempt invitation_id product_user_id s ≡ some a
    → (is_issued a.state ≡ true) × (Dict.get a.id s.attempts ≡ some a)
unfolding current_attempt
current_attempt-IsCurrent invitation_id product_user_id s a t h =
    let p : ℕ × MagicLinkAttempt → Bool = λ entry.
      (is_issued entry.1.state && is_asked invitation_id entry.1.invitation_id)
      && is_asked product_user_id entry.1.product_user_id in
    latest-IsCurrent s.attempts (keep p s.attempts) a
      (kept-IsCurrent s.attempts p (keep p s.attempts) t (λ entry k. ground (arith, k))
        (Holds-keep p s.attempts s.attempts (Holds-refl s.attempts t.distinct))
        (keep-All p s.attempts))
      h

pub issued_is_unused : (state : AttemptState) → is_issued state ≡ true → is_consumed state ≡ false
unfolding is_issued is_consumed
issued_is_unused state h = ground (arith, h)

-- What is written before the attempts are looked at again.
pub audited_then-Evolves {ℓ} :
    {A : Type ℓ} (d : Attempts) (event : AccessAuditEvent)
    (next : IdentityStore → IdentityStore × Reply A) (s : IdentityStore)
    → Evolves d s.attempts
    → ((t : IdentityStore) → t.attempts ≡ s.attempts → Evolves d (next t).0.attempts)
    → Evolves d (audited_then event next s).0.attempts
unfolding audited_then append_audit
audited_then-Evolves d event next s now later =
    elim (Reply-cases (validate_event event.event_type event.result event.reason)) [
      | inr (f, e) ↦ rw (e, audited_then) now
      | inl (u, e) ↦ rw (e, audited_then) (later (append_audit event s) refl)
    ]

pub committed-Evolves {ℓ} :
    {A : Type ℓ} (s : IdentityStore) (x : IdentityStore × Reply A)
    → IsTable s.attempts
    → Evolves s.attempts x.0.attempts
    → Evolves s.attempts (committed s x).0.attempts
unfolding committed
committed-Evolves s (t, replied a) table h = h
committed-Evolves s (t, raised f) table h = Evolves-refl s.attempts table
