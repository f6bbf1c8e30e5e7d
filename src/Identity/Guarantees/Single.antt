-- ===== src/Identity/Guarantees/Single.antt =====
-- `bootstrap_administrator` and `change_role` on the role assignments
-- (src/umbral/application/identity/administration.py).
use umbral.Prelude.{
  ℕ, String, Bool, true, false, ◌&&◌, [], ◌∷◌, Option, none, some, ◌≡◌, refl, ◌∙◌, ◌==◌, nat_eq,
  string_eq, inl, inr, Option-cases, Bool-cases, arith, any,
}
use umbral.Prelude.Dict
use umbral.Prelude.Dict.{Dict, get-set_self}
use umbral.Identity.Models.{
  RoleAssignment, is_active, is_unset, ProductUser, replied, raised, Stamp, IdentityFault,
  access_denied,
}
use umbral.Identity.Store.{
  IdentityStore, grants, first_grant, has_active_administrator, save_role, append_audit, committed,
  transaction, find_user,
}
use umbral.Identity.Transactions.{committed-same, committed-restores}
use umbral.Identity.Authorization.{is_enabled}
use umbral.Identity.Administration.{new_assignment, revoked, bootstrap_for, bootstrap_administrator}
use umbral.Identity.Roles.{IsSingle, IsSingle-set}
use umbral.Identity.Guarantees.Administration.{audited-bootstrap, raised-replied, changed}

pub changed-IsSingle :
    (fresh user_id : ℕ) (role reason : String) (now : ℕ) (grant : Bool) (l : Dict ℕ RoleAssignment)
    → IsSingle l
    → Dict.get fresh l ≡ none
    → IsSingle (changed fresh user_id role grant reason now (first_grant user_id role l) l)
unfolding changed
changed-IsSingle fresh user_id role reason now true l h new =
    elim (Option-cases (first_grant user_id role l)) [
      | inl missing ↦ rw missing (
          IsSingle-set fresh (new_assignment fresh user_id role now reason) l h
            (unfold new_assignment in refl)
            λ u r g.
              let user : u ≡ user_id = unfold grants new_assignment in ground (arith, g) in
              let name : r ≡ role =
                unfold grants new_assignment in ground (arith, g, string_eq.same_iff role r) in
              rw (user, name) missing)
      | inr (c, found) ↦ rw found h
    ]
changed-IsSingle fresh user_id role reason now false l h new =
    elim (Option-cases (first_grant user_id role l)) [
      | inl missing ↦ rw missing h
      | inr (c, found) ↦ rw found (
          IsSingle-set c.id (revoked now c) l h (unfold revoked in refl)
            λ u r g. absurd (unfold grants revoked is_active is_unset in ground (arith, g)))
    ]

-- Without an active administrator no user has the role.
first_grant-administrator :
    (u : ℕ) (l : Dict ℕ RoleAssignment)
    → any (λ entry. entry.1.role == "administrator" && is_active entry.1) l ≡ false
    → first_grant u "administrator" l ≡ none
unfolding any first_grant grants
first_grant-administrator u [] h = refl
first_grant-administrator u ((j, b) ∷ l) h = ground (arith, first_grant-administrator u l)

administrator-any :
    (i : ℕ) (a : RoleAssignment) (l : Dict ℕ RoleAssignment)
    → Dict.get i l ≡ some a
    → (a.role == "administrator" && is_active a) ≡ true
    → any (λ entry. entry.1.role == "administrator" && is_active entry.1) l ≡ true
unfolding any Dict.get
administrator-any i a [] at yes_a = absurd (ground (arith, at))
administrator-any i a ((j, b) ∷ l) at yes_a = ground (arith, administrator-any i a l)

pub IsSingle-bootstrapped :
    (fresh user_id now : ℕ) (s : IdentityStore)
    → IsSingle s.roles
    → has_active_administrator s ≡ false
    → IsSingle (
        Dict.set fresh
          (new_assignment fresh user_id "administrator" now "zero_admin_bootstrap")
          s.roles)
unfolding has_active_administrator
IsSingle-bootstrapped fresh user_id now s h vacant =
    IsSingle-set fresh (new_assignment fresh user_id "administrator" now "zero_admin_bootstrap")
      s.roles h (unfold new_assignment in refl)
      λ u r g.
        let name : r ≡ "administrator" =
          unfold grants new_assignment in ground (arith, g, string_eq.same_iff "administrator" r) in
        rw name (first_grant-administrator u s.roles vacant)

bootstrap_for-made :
    (stamp : Stamp) (fresh user_id now : ℕ) (user : Option ProductUser) (s : IdentityStore) (x : ℕ)
    → (bootstrap_for stamp fresh user_id now user s).1 ≡ replied x
    → (bootstrap_for stamp fresh user_id now user s).0.roles
      ≡ Dict.set fresh
          (new_assignment fresh user_id "administrator" now "zero_admin_bootstrap")
          s.roles
unfolding bootstrap_for
bootstrap_for-made stamp fresh user_id now none s x h = absurd (ground (arith, h))
bootstrap_for-made stamp fresh user_id now (some user) s x h =
    elim (Bool-cases (is_enabled user.status)) [
      | inr off ↦ absurd (ground (arith, rw (off, bootstrap_for) at h))
      | inl on ↦
          let t =
            save_role (new_assignment fresh user_id "administrator" now "zero_admin_bootstrap") s in
          rw (on, bootstrap_for)
            (rw (audited-bootstrap stamp none user_id (some fresh) fresh t)
              (unfold append_audit save_role new_assignment in refl))
    ]

bootstrap-refused :
    (stamp : Stamp) (fresh user_id now : ℕ) (t : IdentityStore)
    → has_active_administrator t ≡ true
    → bootstrap_administrator stamp fresh user_id now t ≡ (t, raised access_denied)
unfolding bootstrap_administrator transaction committed
bootstrap-refused stamp fresh user_id now t taken = rw (taken, bootstrap_administrator) refl

-- What a bootstrap that returns has written.
pub bootstrap-made :
    (stamp : Stamp) (fresh user_id now : ℕ) (s : IdentityStore) (x : ℕ)
    → (bootstrap_administrator stamp fresh user_id now s).1 ≡ replied x
    → (has_active_administrator s ≡ false)
      × ((bootstrap_administrator stamp fresh user_id now s).0.roles
          ≡ Dict.set fresh
              (new_assignment fresh user_id "administrator" now "zero_admin_bootstrap")
              s.roles)
unfolding bootstrap_administrator transaction
bootstrap-made stamp fresh user_id now s x h = elim (Bool-cases (has_active_administrator s)) [
  | inl taken ↦ absurd (raised-replied s access_denied x (rw (taken, bootstrap_administrator) at h))
  | inr vacant ↦
      let b = bootstrap_for stamp fresh user_id now (find_user user_id s) s in
      let same : committed s b ≡ b =
        committed-same s b x (rw (vacant, bootstrap_administrator) at h) in
      (
        vacant,
        rw (vacant, bootstrap_administrator)
            (rw same (
              bootstrap_for-made stamp fresh user_id now (find_user user_id s) s x
                (rw (vacant, bootstrap_administrator, same) at h))),
      )
]

pub bootstrap-restores :
    (stamp : Stamp) (fresh user_id now : ℕ) (s : IdentityStore) (f : IdentityFault)
    → (bootstrap_administrator stamp fresh user_id now s).1 ≡ raised f
    → (bootstrap_administrator stamp fresh user_id now s).0 ≡ s
unfolding bootstrap_administrator transaction
bootstrap-restores stamp fresh user_id now s f h = committed-restores s _ f h

-- A bootstrap that returns found no active administrator and leaves one; on the store that it leaves,
-- and on every store that still has the assignment that it made, whatever else has changed, every
-- bootstrap, of whichever user, is refused and changes nothing.
pub bootstrap_only_once :
    (stamp again : Stamp) (fresh user_id now new other later : ℕ) (s t : IdentityStore) (x : ℕ)
    → (bootstrap_administrator stamp fresh user_id now s).1 ≡ replied x
    → Dict.get fresh t.roles
      ≡ Dict.get fresh (bootstrap_administrator stamp fresh user_id now s).0.roles
    → (has_active_administrator s ≡ false)
      × ((has_active_administrator (bootstrap_administrator stamp fresh user_id now s).0 ≡ true)
          × (bootstrap_administrator again new other later t ≡ (t, raised access_denied)))
bootstrap_only_once stamp again fresh user_id now new other later s t x h same =
    let left = (bootstrap_administrator stamp fresh user_id now s).0 in
    let (vacant, eq) = bootstrap-made stamp fresh user_id now s x h in
    let a = new_assignment fresh user_id "administrator" now "zero_admin_bootstrap" in
    let has : Dict.get fresh left.roles ≡ some a = rw eq (get-set_self fresh a s.roles) in
    let taken : (u : IdentityStore)
        → Dict.get fresh u.roles ≡ some a
        → has_active_administrator u ≡ true =
      λ u at.
        unfold has_active_administrator in
        administrator-any fresh a u.roles at (unfold new_assignment is_active is_unset in refl) in
    (vacant, (taken left has, bootstrap-refused again new other later t (taken t (same ∙ has))))
