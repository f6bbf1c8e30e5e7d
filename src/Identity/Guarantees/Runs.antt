-- ===== src/Identity/Guarantees/Runs.antt =====
-- Runs of the identity services on one store, and what every run keeps of its role assignments.
use umbral.Prelude.{
  ℕ, String, Bool, Option, none, ◌≡◌, refl, ap, nat_eq, inl, inr, Option-cases, Bool-cases,
}
use umbral.Prelude.Dict
use umbral.Identity.Models.{ProductUser, Reply, replied, raised, Stamp}
use umbral.Identity.Store.{
  IdentityStore, first_grant, save_user, save_session, append_audit, committed, transaction,
  find_user,
}
use umbral.Identity.Transactions.{Reply-cases}
use umbral.Identity.Authorization.{AccessRequest, authorize}
use umbral.Identity.Administration.{
  may_administer, change_role, bootstrap_administrator, set_user_status, status_set, with_status,
}
use umbral.Identity.Roles.{IsSingle}
use umbral.Identity.Links.Ports.{IdentityProofPort}
use umbral.Identity.Links.Check.{Outside, Fresh}
use umbral.Identity.Links.Confirm.{confirm_magic_link}
use umbral.Identity.Links.Sessions.{logout}
use umbral.Identity.Guarantees.Kept.{logout-IsFine}
use umbral.Identity.Guarantees.Confirmed.{confirm_magic_link-IsFine}
use umbral.Identity.Guarantees.Access.{
  authorize-allows, authorize-IsAdmitted, refusal_is_not_recorded,
}
use umbral.Identity.Guarantees.Administration.{
  audited-status, change_role-made, change_role-restores,
}
use umbral.Identity.Guarantees.Single.{
  changed-IsSingle, IsSingle-bootstrapped, bootstrap-made, bootstrap-restores,
}

-- One call of a service, or a change of the other tables; `uuid4()` gives an identifier that no
-- assignment has, or that of a user who has no active role `user`.
pub data IdentityStep (sha256 : String → ℕ) (s : IdentityStore) : IdentityStore → Type 0 where
  requested :
      (stamp : Stamp) (q : AccessRequest) (token : String)
      → IdentityStep sha256 s (authorize sha256 stamp q token s).0
  role_changed :
      (stamp : Stamp) (fresh user_id : ℕ) (role : String) (grant : Bool) (reason : String) (now : ℕ)
      (actor : Option ℕ)
      → Dict.get fresh s.roles ≡ none
      → IdentityStep sha256 s (change_role stamp fresh user_id role grant reason now actor s).0
  bootstrapped :
      (stamp : Stamp) (fresh user_id now : ℕ)
      → Dict.get fresh s.roles ≡ none
      → IdentityStep sha256 s (bootstrap_administrator stamp fresh user_id now s).0
  status_changed :
      (stamp : Stamp) (user_id : ℕ) (status reason : String) (now : ℕ) (actor : Option ℕ)
      → IdentityStep sha256 s (set_user_status stamp user_id status reason now actor s).0
  link_confirmed :
      (x : Outside) (provider : IdentityProofPort) (fresh : Fresh) (attempt_id now : ℕ)
      (token_hash : String)
      → first_grant fresh.user_id "user" s.roles ≡ none
      → IdentityStep sha256 s (confirm_magic_link x provider fresh attempt_id now token_hash s).0
  session_ended :
      (stamp : Stamp) (correlation_id : Option ℕ) (now : ℕ) (token : String)
      → IdentityStep sha256 s (logout sha256 stamp correlation_id now token s).0
  elsewhere : {t : IdentityStore} → t.roles ≡ s.roles → IdentityStep sha256 s t

pub data IdentityRun (sha256 : String → ℕ) (s : IdentityStore) : IdentityStore → Type 0 where
  start : IdentityRun sha256 s s
  after :
      {t u : IdentityStore}
      → IdentityRun sha256 s t
      → IdentityStep sha256 t u
      → IdentityRun sha256 s u

pub authorize-roles :
    (sha256 : String → ℕ) (stamp : Stamp) (q : AccessRequest) (token : String) (s : IdentityStore)
    → (authorize sha256 stamp q token s).0.roles ≡ s.roles
authorize-roles sha256 stamp q token s = elim (Reply-cases (authorize sha256 stamp q token s).1) [
  | inl (p, eq) ↦
      rw
        (authorize-allows sha256 stamp q token s (authorize-IsAdmitted sha256 stamp q token s p eq))
        (unfold append_audit save_session in refl)
  | inr (f, eq) ↦ ap (λ t. t.roles) (refusal_is_not_recorded sha256 stamp q token s f eq)
]

status_set-roles :
    (stamp : Stamp) (actor : Option ℕ) (user_id : ℕ) (m : Reply ProductUser) (s t : IdentityStore)
    → s.roles ≡ t.roles
    → (committed t (status_set stamp actor user_id m s)).0.roles ≡ t.roles
unfolding status_set committed
status_set-roles stamp actor user_id (raised f) s t h = refl
status_set-roles stamp actor user_id (replied user) s t h =
    rw (audited-status {0} stamp actor user_id none tt (save_user user s))
      (unfold append_audit save_user in h)

set_user_status-roles :
    (stamp : Stamp) (user_id : ℕ) (status reason : String) (now : ℕ) (actor : Option ℕ)
    (s : IdentityStore)
    → (set_user_status stamp user_id status reason now actor s).0.roles ≡ s.roles
unfolding set_user_status transaction
set_user_status-roles stamp user_id status reason now actor s =
    elim (Bool-cases (may_administer actor s)) [
      | inr barred ↦ rw (barred, set_user_status) (unfold committed in refl)
      | inl free ↦ elim (Option-cases (find_user user_id s)) [
        | inl missing ↦ rw (free, missing, set_user_status) (unfold committed in refl)
        | inr (user, found) ↦
            rw (free, found, set_user_status)
              (status_set-roles stamp actor user_id (with_status status reason now user) s s refl)
      ]
    ]

IdentityStep-IsSingle :
    {sha256 : String → ℕ} {s t : IdentityStore}
    → IdentityStep sha256 s t
    → IsSingle s.roles
    → IsSingle t.roles
IdentityStep-IsSingle {sha256} {s} (requested stamp q token) h =
    rw (authorize-roles sha256 stamp q token s) h
IdentityStep-IsSingle {sha256} {s} (status_changed stamp user_id status reason now actor) h =
    rw (set_user_status-roles stamp user_id status reason now actor s) h
IdentityStep-IsSingle {sha256} {s} (link_confirmed x provider fresh attempt_id now token_hash new)
      h =
    confirm_magic_link-IsFine x provider fresh attempt_id now token_hash s h new
IdentityStep-IsSingle {sha256} {s} (session_ended stamp correlation_id now token) h =
    logout-IsFine sha256 stamp correlation_id now token s h
IdentityStep-IsSingle {sha256} {s} (elsewhere same) h = rw same h
IdentityStep-IsSingle {sha256} {s}
      (role_changed stamp fresh user_id role grant reason now actor new) h =
    elim (Reply-cases (change_role stamp fresh user_id role grant reason now actor s).1) [
      | inl (x, eq) ↦
          rw (change_role-made stamp fresh user_id role grant reason now actor s x eq).2
            (changed-IsSingle fresh user_id role reason now grant s.roles h new)
      | inr (f, eq) ↦
          rw (change_role-restores stamp fresh user_id role grant reason now actor s f eq) h
    ]
IdentityStep-IsSingle {sha256} {s} (bootstrapped stamp fresh user_id now new) h =
    elim (Reply-cases (bootstrap_administrator stamp fresh user_id now s).1) [
      | inl (x, eq) ↦
          let (vacant, made) = bootstrap-made stamp fresh user_id now s x eq in
          rw made (IsSingle-bootstrapped fresh user_id now s h vacant)
      | inr (f, eq) ↦ rw (bootstrap-restores stamp fresh user_id now s f eq) h
    ]

-- From a store whose assignments each stand under their own identifier, with no two active ones of the
-- same user and role, no sequence of `authorize`, `confirm_magic_link`, `logout`, `change_role`,
-- `bootstrap_administrator`, `set_user_status` and changes that leave the role assignments as they are
-- makes a second active assignment of a role that a user has, if the identifier of an assignment that
-- `change_role` or `bootstrap_administrator` makes is that of no other, and if a user whom a
-- confirmation makes has no active role `user` yet.
pub IdentityRun-IsSingle :
    (sha256 : String → ℕ) (s t : IdentityStore)
    → IdentityRun sha256 s t
    → IsSingle s.roles
    → IsSingle t.roles
IdentityRun-IsSingle sha256 s _ start h = h
IdentityRun-IsSingle sha256 s t (after run step) h =
    IdentityStep-IsSingle step (IdentityRun-IsSingle sha256 s _ run h)
