-- ===== src/Identity/Roles.antt =====
-- Facts on role assignments as the store keeps them
-- (src/umbral/infrastructure/db/repositories/identity.py): a user has at most one active
-- assignment of a role.
use umbral.Prelude.{
  ℕ, String, Bool, true, false, [], ◌∷◌, Option, none, some, ◌≡◌, refl, nat_eq, string_eq, contains,
  arith, ◌||◌, Option-cases, Bool-cases, inl, inr,
}
use umbral.Prelude.Dict
use umbral.Prelude.Dict.{Dict, get-set, IsDict, IsDict-set}
use umbral.Identity.Models.{RoleAssignment}
use umbral.Identity.Store.{grants, first_grant, roles_of}

-- Each assignment stands under its own identifier, and no two active ones are of the same user and role.
pub record IsSingle (roles : Dict ℕ RoleAssignment) : Type 0 where
  pub distinct : IsDict roles
  pub keyed : (i : ℕ) (a : RoleAssignment) → Dict.get i roles ≡ some a → a.id ≡ i
  pub single :
      (user_id : ℕ) (role : String) (i j : ℕ) (a b : RoleAssignment)
      → Dict.get i roles ≡ some a
      → Dict.get j roles ≡ some b
      → grants user_id role a ≡ true
      → grants user_id role b ≡ true
      → i ≡ j

-- Without a match, no entry matches.
pub first_grant-none :
    (user_id : ℕ) (role : String) (l : Dict ℕ RoleAssignment) (i : ℕ) (a : RoleAssignment)
    → first_grant user_id role l ≡ none
    → Dict.get i l ≡ some a
    → grants user_id role a ≡ false
unfolding first_grant Dict.get
first_grant-none user_id role [] i a h at = absurd (ground (arith, at))
first_grant-none user_id role ((j, b) ∷ l) i a h at =
    ground (arith, first_grant-none user_id role l i a, h, at)

-- A match is an entry.
pub first_grant-some :
    (user_id : ℕ) (role : String) (l : Dict ℕ RoleAssignment) (a : RoleAssignment)
    → IsDict l
    → first_grant user_id role l ≡ some a
    → (i : ℕ) × (Dict.get i l ≡ some a) × (grants user_id role a ≡ true)
unfolding first_grant Dict.get
first_grant-some user_id role [] a d h = absurd (ground (arith, h))
first_grant-some user_id role ((j, b) ∷ l) a d h = elim (Bool-cases (grants user_id role b)) [
  | inl here ↦ (j, ground (arith, h), ground (arith, h))
  | inr beyond ↦
      let (i, at, g) = first_grant-some user_id role l a d.1 (ground (arith, h)) in
      (i, ground (arith, at, d), g)
]

unfoldable pub is_granted : Option RoleAssignment → Bool
is_granted none = false
is_granted (some a) = true

-- The set of active roles has exactly those of which the user has an active assignment.
pub contains-roles_of :
    (user_id : ℕ) (role : String) (l : Dict ℕ RoleAssignment)
    → contains role (roles_of user_id l) ≡ is_granted (first_grant user_id role l)
unfolding contains roles_of first_grant grants is_granted
contains-roles_of user_id role [] = refl
contains-roles_of user_id role ((j, b) ∷ l) =
    ground (arith, contains-roles_of user_id role l, string_eq.same_iff b.role role)

-- Writing under a new key adds one assignment.
pub first_grant-set_new :
    (user_id : ℕ) (role : String) (i : ℕ) (a : RoleAssignment) (l : Dict ℕ RoleAssignment)
    → Dict.get i l ≡ none
    → is_granted (first_grant user_id role (Dict.set i a l))
      ≡ (is_granted (first_grant user_id role l) || grants user_id role a)
unfolding first_grant is_granted Dict.get Dict.set
first_grant-set_new user_id role i a [] n = ground arith
first_grant-set_new user_id role i a ((j, b) ∷ l) n =
    ground (arith, first_grant-set_new user_id role i a l)

-- Writing over an assignment of another user or role, with one that is no match either, changes nothing.
pub first_grant-set_other :
    (user_id : ℕ) (role : String) (i : ℕ) (a old : RoleAssignment) (l : Dict ℕ RoleAssignment)
    → Dict.get i l ≡ some old
    → grants user_id role old ≡ false
    → grants user_id role a ≡ false
    → is_granted (first_grant user_id role (Dict.set i a l))
      ≡ is_granted (first_grant user_id role l)
unfolding first_grant is_granted Dict.get Dict.set
first_grant-set_other user_id role i a old [] at o n = absurd (ground (arith, at))
first_grant-set_other user_id role i a old ((j, b) ∷ l) at o n =
    ground (arith, first_grant-set_other user_id role i a old l)

-- Writing over the only match with one that is none leaves no match.
pub first_grant-set_last :
    (user_id : ℕ) (role : String) (i : ℕ) (a old : RoleAssignment) (l : Dict ℕ RoleAssignment)
    → IsSingle l
    → Dict.get i l ≡ some old
    → grants user_id role old ≡ true
    → grants user_id role a ≡ false
    → is_granted (first_grant user_id role (Dict.set i a l)) ≡ false
unfolding is_granted
first_grant-set_last user_id role i a old l h at o n =
    elim (Option-cases (first_grant user_id role (Dict.set i a l))) [
      | inl missing ↦ rw missing refl
      | inr (b, found) ↦
          let (j, there, g) =
            first_grant-some user_id role (Dict.set i a l) b (IsDict-set i a l h.distinct) found in
          absurd (
            ground
              (arith, rw (get-set i j a l) at there, h.single user_id role i j old b at, o, g, n))
    ]

-- What is written keeps the assignments single: a new match where there was none, or no match at all.
pub IsSingle-set :
    (i : ℕ) (a : RoleAssignment) (l : Dict ℕ RoleAssignment)
    → IsSingle l
    → a.id ≡ i
    → ((user_id : ℕ) (role : String)
        → grants user_id role a ≡ true
        → first_grant user_id role l ≡ none)
    → IsSingle (Dict.set i a l)
IsSingle-set i a l h own new = record {
  distinct = IsDict-set i a l h.distinct;
  keyed = λ j b at. ground (arith, rw (get-set i j a l) at at, own, h.keyed j b);
  single = λ u r j k b c at_j at_k g_b g_c. ground (
    arith,
    rw (get-set i j a l) at at_j,
    rw (get-set i k a l) at at_k,
    h.single u r j k b c,
    first_grant-none u r l k c,
    first_grant-none u r l j b,
    new u r,
    g_b,
    g_c,
  );
}
