-- ===== src/Identity/Guarantees/Purge.antt =====
-- The purge of requests and the limiter (src/umbral/application/identity/retention.py and access.py).
use umbral.Prelude.{
  ℕ, ◌+◌, ◌≤◌, false, ◌&&◌, not, List, [], ◌∷◌, ◌≡◌, refl, ap, ◌==◌, nat_eq, leb, ltb, length, keep,
  All, arith, inl, inr, Bool-cases,
}
use umbral.Identity.Models.{MagicLinkRequest}
use umbral.Identity.Store.{IdentityStore}
use umbral.Identity.LinkStore.{limiter_window, recent_requests}
use umbral.Identity.Invitations.{purge_requests_before}

-- A request is kept for longer than the limiter looks back.
abbrev pub IsKeptLong : ℕ × MagicLinkRequest → Type 0
IsKeptLong entry = entry.1.requested_at + limiter_window ≤ entry.1.purge_after

counted_kept :
    (field : MagicLinkRequest → ℕ) (fingerprint now cutoff : ℕ) (l : List (ℕ × MagicLinkRequest))
    → cutoff ≤ now
    → All IsKeptLong l
    → keep
        (λ e. field e.1 == fingerprint && ltb now (e.1.requested_at + limiter_window))
        (keep (λ e. not (leb e.1.purge_after cutoff)) l)
      ≡ keep (λ e. field e.1 == fingerprint && ltb now (e.1.requested_at + limiter_window)) l
unfolding keep
counted_kept field fingerprint now cutoff [] earlier all = refl
counted_kept field fingerprint now cutoff (e ∷ l) earlier all =
    let rest = counted_kept field fingerprint now cutoff l earlier all.1 in
    elim (Bool-cases (leb e.1.purge_after cutoff)) [
      | inr k ↦
          elim (Bool-cases
            (field e.1 == fingerprint && ltb now (e.1.requested_at + limiter_window))) [
              | inl m ↦ rw (k, m, keep) (ap (λ r. e ∷ r) rest)
              | inr m ↦ rw (k, m, keep) rest
            ]
      | inl k ↦
          let old : (field e.1 == fingerprint && ltb now (e.1.requested_at + limiter_window))
              ≡ false =
            ground (arith, k, all.0, earlier) in
          rw (k, old, keep) rest
    ]

-- Where every request is kept for longer than a quarter of an hour, a purge up to now does not change what
-- the limiter counts, now or later, for any address or origin.
pub purge_requests_before-recent_requests :
    (field : MagicLinkRequest → ℕ) (fingerprint now cutoff : ℕ) (s : IdentityStore)
    → cutoff ≤ now
    → All IsKeptLong s.requests
    → recent_requests field fingerprint now (purge_requests_before cutoff s).0
      ≡ recent_requests field fingerprint now s
unfolding purge_requests_before recent_requests
purge_requests_before-recent_requests field fingerprint now cutoff s earlier all =
    ap length (counted_kept field fingerprint now cutoff s.requests earlier all)
