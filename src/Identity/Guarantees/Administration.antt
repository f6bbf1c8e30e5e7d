-- ===== src/Identity/Guarantees/Administration.antt =====
-- `AccessAdministration` (src/umbral/application/identity/administration.py).
use umbral.Prelude.{
  ℕ, String, Bool, true, false, ◌&&◌, Option, none, some, ◌≡◌, refl, ap, ◌==◌, nat_eq, string_eq,
  inl, inr, ◌∙◌, Option-cases, Bool-cases, arith, contains, any, if◌then◌else◌,
}
use umbral.Prelude.Dict
use umbral.Prelude.Dict.{Dict, get-set}
use umbral.Identity.Policy.{known_roles}
use umbral.Identity.Models.{
  RoleAssignment, is_active, is_unset, replied, raised, Stamp, IdentityFault, access_denied,
}
use umbral.Identity.Events.{is_registered, validate_event}
use umbral.Identity.Store.{
  IdentityStore, grants, first_grant, active_role, active_roles, save_role, append_audit, committed,
  transaction,
}
use umbral.Identity.Administration.{
  admin_event, audited, may_administer, new_assignment, revoked, grant_role, revoke_role,
  change_role,
}
use umbral.Identity.Roles.{
  IsSingle, first_grant-some, is_granted, contains-roles_of, first_grant-set_new,
  first_grant-set_other, first_grant-set_last,
}
use umbral.Identity.Transactions.{committed-same, committed-restores}

-- The three kinds of event are registered, so that writing one does not raise.
audited-granted {ℓ} :
    {A : Type ℓ} (stamp : Stamp) (actor : Option ℕ) (user_id : ℕ) (r : Option ℕ) (a : A)
    (s : IdentityStore)
    → let e = admin_event stamp "role.granted.v1" "administrator_change" actor user_id r in
      audited e a s ≡ (append_audit e s, replied a)
unfolding audited admin_event validate_event is_registered Dict.get contains any
audited-granted stamp actor user_id r a s = refl

audited-revoked {ℓ} :
    {A : Type ℓ} (stamp : Stamp) (actor : Option ℕ) (user_id : ℕ) (r : Option ℕ) (a : A)
    (s : IdentityStore)
    → let e = admin_event stamp "role.revoked.v1" "administrator_change" actor user_id r in
      audited e a s ≡ (append_audit e s, replied a)
unfolding audited admin_event validate_event is_registered Dict.get contains any
audited-revoked stamp actor user_id r a s = refl

pub audited-bootstrap {ℓ} :
    {A : Type ℓ} (stamp : Stamp) (actor : Option ℕ) (user_id : ℕ) (r : Option ℕ) (a : A)
    (s : IdentityStore)
    → let e = admin_event stamp "role.granted.v1" "zero_admin_bootstrap" actor user_id r in
      audited e a s ≡ (append_audit e s, replied a)
unfolding audited admin_event validate_event is_registered Dict.get contains any
audited-bootstrap stamp actor user_id r a s = refl

pub audited-status {ℓ} :
    {A : Type ℓ} (stamp : Stamp) (actor : Option ℕ) (user_id : ℕ) (r : Option ℕ) (a : A)
    (s : IdentityStore)
    → let e = admin_event stamp "user.status_changed.v1" "administrator_change" actor user_id r in
      audited e a s ≡ (append_audit e s, replied a)
unfolding audited admin_event validate_event is_registered Dict.get contains any
audited-status stamp actor user_id r a s = refl

-- The assignments after a change that was made.
unfoldable pub changed :
    ℕ
    → ℕ
    → String
    → Bool
    → String
    → ℕ
    → Option RoleAssignment
    → Dict ℕ RoleAssignment
    → Dict ℕ RoleAssignment
changed fresh user_id role grant reason now none l =
    if grant then Dict.set fresh (new_assignment fresh user_id role now reason) l else l
changed fresh user_id role grant reason now (some current) l =
    if grant then l else Dict.set current.id (revoked now current) l

grant_role-roles :
    (stamp : Stamp) (fresh user_id : ℕ) (role reason : String) (now : ℕ) (actor : Option ℕ)
    (current : Option RoleAssignment) (s : IdentityStore)
    → (grant_role stamp fresh user_id role reason now actor current s).0.roles
      ≡ changed fresh user_id role true reason now current s.roles
unfolding grant_role changed
grant_role-roles stamp fresh user_id role reason now actor none s =
    rw
      (audited-granted stamp actor user_id (some fresh) fresh
        (save_role (new_assignment fresh user_id role now reason) s))
      (unfold append_audit save_role new_assignment in refl)
grant_role-roles stamp fresh user_id role reason now actor (some c) s = refl

revoke_role-roles :
    (stamp : Stamp) (fresh user_id : ℕ) (role reason : String) (now : ℕ) (actor : Option ℕ)
    (current : Option RoleAssignment) (s : IdentityStore)
    → (revoke_role stamp fresh user_id now actor current s).0.roles
      ≡ changed fresh user_id role false reason now current s.roles
unfolding revoke_role changed
revoke_role-roles stamp fresh user_id role reason now actor none s = refl
revoke_role-roles stamp fresh user_id role reason now actor (some c) s =
    rw (audited-revoked stamp actor user_id (some c.id) c.id (save_role (revoked now c) s))
      (unfold append_audit save_role revoked in refl)

pub raised-replied {ℓ} :
    {A : Type ℓ} (s : IdentityStore) (f : IdentityFault) (a : A)
    → (committed s (s, raised f)).1 ≡ replied a
    → ⊥
unfolding committed
raised-replied s f a h = ground (arith, h)

pub change_role-made :
    (stamp : Stamp) (fresh user_id : ℕ) (role : String) (grant : Bool) (reason : String) (now : ℕ)
    (actor : Option ℕ) (s : IdentityStore) (x : ℕ)
    → (change_role stamp fresh user_id role grant reason now actor s).1 ≡ replied x
    → (contains role known_roles ≡ true)
      × (may_administer actor s ≡ true)
      × ((change_role stamp fresh user_id role grant reason now actor s).0.roles
          ≡ changed fresh user_id role grant reason now (first_grant user_id role s.roles) s.roles)
unfolding change_role transaction active_role
change_role-made stamp fresh user_id role grant reason now actor s x h =
    elim (Bool-cases (contains role known_roles)) [
      | inr bad ↦ absurd (ground (arith, rw (bad, change_role) at h))
      | inl good ↦ elim (Bool-cases (may_administer actor s)) [
        | inr barred ↦
            absurd (raised-replied s access_denied x (rw (good, barred, change_role) at h))
        | inl free ↦ elim (Bool-cases grant) [
          | inl eq ↦
              let g =
                grant_role stamp fresh user_id role reason now actor
                  (first_grant user_id role s.roles) s in
              let same : committed s g ≡ g =
                committed-same s g x (rw (good, free, eq, change_role) at h) in
              (
                good,
                free,
                rw (good, free, eq, change_role)
                    (rw same (
                      grant_role-roles stamp fresh user_id role reason now actor
                        (first_grant user_id role s.roles) s)),
              )
          | inr eq ↦
              let g =
                revoke_role stamp fresh user_id now actor (first_grant user_id role s.roles) s in
              let same : committed s g ≡ g =
                committed-same s g x (rw (good, free, eq, change_role) at h) in
              (
                good,
                free,
                rw (good, free, eq, change_role)
                    (rw same (
                      revoke_role-roles stamp fresh user_id role reason now actor
                        (first_grant user_id role s.roles) s)),
              )
        ]
      ]
    ]

pub change_role-restores :
    (stamp : Stamp) (fresh user_id : ℕ) (role : String) (grant : Bool) (reason : String) (now : ℕ)
    (actor : Option ℕ) (s : IdentityStore) (f : IdentityFault)
    → (change_role stamp fresh user_id role grant reason now actor s).1 ≡ raised f
    → (change_role stamp fresh user_id role grant reason now actor s).0 ≡ s
unfolding change_role transaction
change_role-restores stamp fresh user_id role grant reason now actor s f h =
    elim (Bool-cases (contains role known_roles)) [
      | inr bad ↦ rw (bad, change_role) refl
      | inl good ↦ rw (good, change_role) (committed-restores s _ f (rw (good, change_role) at h))
    ]

module _ (fresh user_id : ℕ) (role reason : String) (now : ℕ) (l : Dict ℕ RoleAssignment)
    (h : IsSingle l) (new : Dict.get fresh l ≡ none) where
  new-grants : grants user_id role (new_assignment fresh user_id role now reason) ≡ true
  unfolding grants new_assignment is_active is_unset
  new-grants = ground (arith, string_eq.same_iff role role)

  -- A grant to somebody else, or of another role, is none of this user and role.
  grants-apart :
      (a : RoleAssignment) (u : ℕ) (r : String)
      → grants user_id role a ≡ true
      → (u == user_id && r == role) ≡ false
      → grants u r a ≡ false
  unfolding grants
  grants-apart a u r g apart = ground (
    arith,
    string_eq.same_iff a.role role,
    string_eq.same_iff a.role r,
    string_eq.same_iff r role,
  )

  changed_self :
      (grant : Bool)
      → is_granted (
          first_grant user_id role
            (changed fresh user_id role grant reason now (first_grant user_id role l) l))
        ≡ grant
  unfolding changed is_granted
  changed_self true = elim (Option-cases (first_grant user_id role l)) [
    | inl missing ↦ rw missing (
        first_grant-set_new user_id role fresh (new_assignment fresh user_id role now reason) l new
        ∙ ground (arith, new-grants))
    | inr (c, found) ↦ rw (found, found) refl
  ]
  changed_self false = elim (Option-cases (first_grant user_id role l)) [
    | inl missing ↦ rw (missing, missing) refl
    | inr (c, found) ↦
        let (i, at, g) = first_grant-some user_id role l c h.distinct found in
        let own = h.keyed i c at in
        rw found (
          first_grant-set_last user_id role c.id (revoked now c) c l h
            (ap (λ k. Dict.get k l) own ∙ at) g
            (unfold grants revoked is_active is_unset in ground arith))
  ]

  changed_apart :
      (grant : Bool) (u : ℕ) (r : String)
      → (u == user_id && r == role) ≡ false
      → is_granted (
          first_grant u r
            (changed fresh user_id role grant reason now (first_grant user_id role l) l))
        ≡ is_granted (first_grant u r l)
  unfolding changed
  changed_apart true u r apart = elim (Option-cases (first_grant user_id role l)) [
    | inl missing ↦ rw missing (
        first_grant-set_new u r fresh (new_assignment fresh user_id role now reason) l new
        ∙ ground (
          arith,
          grants-apart (new_assignment fresh user_id role now reason) u r new-grants apart,
        ))
    | inr (c, found) ↦ rw found refl
  ]
  changed_apart false u r apart = elim (Option-cases (first_grant user_id role l)) [
    | inl missing ↦ rw missing refl
    | inr (c, found) ↦
        let (i, at, g) = first_grant-some user_id role l c h.distinct found in
        let own = h.keyed i c at in
        rw found (
          first_grant-set_other u r c.id (revoked now c) c l (ap (λ k. Dict.get k l) own ∙ at)
            (grants-apart c u r g apart) (unfold grants revoked is_active is_unset in ground arith))
  ]

  -- Who has which role after a change of one assignment.
  changed-grants :
      (grant : Bool) (u : ℕ) (r : String)
      → is_granted (
          first_grant u r
            (changed fresh user_id role grant reason now (first_grant user_id role l) l))
        ≡ (if u == user_id && r == role then grant else is_granted (first_grant u r l))
  changed-grants grant u r = elim (Bool-cases (u == user_id && r == role)) [
    | inl same ↦
        let user : u ≡ user_id = ground arith in
        let name : r ≡ role = ground (arith, string_eq.same_iff r role) in
        rw same (rw (user, name) (changed_self grant))
    | inr apart ↦ rw apart (changed_apart grant u r apart)
  ]

-- In a store whose assignments are single, and with a fresh identifier, a change of a role that returns
-- takes effect at once, and on nothing else: afterwards the user has the role exactly when it was
-- granted, and every other role of every user is as before.
pub change_role-takes_effect :
    (stamp : Stamp) (fresh user_id : ℕ) (role : String) (grant : Bool) (reason : String) (now : ℕ)
    (actor : Option ℕ) (s : IdentityStore) (x : ℕ)
    → IsSingle s.roles
    → Dict.get fresh s.roles ≡ none
    → (change_role stamp fresh user_id role grant reason now actor s).1 ≡ replied x
    → (u : ℕ) (r : String)
    → contains r (active_roles u (change_role stamp fresh user_id role grant reason now actor s).0)
      ≡ (if u == user_id && r == role then grant else contains r (active_roles u s))
unfolding active_roles
change_role-takes_effect stamp fresh user_id role grant reason now actor s x h new done u r =
    let (known, free, eq) =
      change_role-made stamp fresh user_id role grant reason now actor s x done in
    rw (eq, contains-roles_of u r s.roles)
      (contains-roles_of u r
          (changed fresh user_id role grant reason now (first_grant user_id role s.roles) s.roles)
        ∙ changed-grants fresh user_id role reason now s.roles h new grant u r)
