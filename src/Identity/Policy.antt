-- ===== src/Identity/Policy.antt =====
-- The deny-by-default authorization matrix (src/umbral/domain/identity/policy.py).
use umbral.Prelude.{
  ℕ, String, Bool, true, false, ◌&&◌, not, List, [], ◌∷◌, Option, none, some, ◌==◌, nat_eq,
  string_eq, any, contains, if◌then◌else◌,
}
use umbral.Prelude.Dict
use umbral.Prelude.Dict.{Dict}

pub record ActionRule : Type 0 where
  pub action : String
  pub allowed_roles : List String
  pub owner_required : Bool

abbrev pub known_roles : List String
known_roles = "user" ∷ "operator" ∷ "administrator" ∷ []

abbrev for_all : String → Bool → String × ActionRule
for_all action owner_required = (
  action,
  record { action = action; allowed_roles = known_roles; owner_required = owner_required },
)

abbrev for_operators : String → String × ActionRule
for_operators action = (
  action,
  record {
    action = action;
    allowed_roles = "operator" ∷ "administrator" ∷ [];
    owner_required = false;
  },
)

abbrev for_administrators : String → String × ActionRule
for_administrators action = (
  action,
  record { action = action; allowed_roles = "administrator" ∷ []; owner_required = false },
)

abbrev pub action_rules : Dict String ActionRule
action_rules =
    for_all "auth.session.read" false
    ∷ for_all "auth.session.logout" false
    ∷ for_all "product.resource.create" false
    ∷ for_all "product.resource.read" true
    ∷ for_all "product.resource.update" true
    ∷ for_all "product.resource.delete" true
    ∷ for_all "product.search_profile.create" false
    ∷ for_all "product.search_profile.read" true
    ∷ for_all "product.search_profile.update" true
    ∷ for_all "product.search_profile.status" true
    ∷ for_all "product.matches.read" true
    ∷ for_all "product.explanation.read" true
    ∷ for_all "product.comparison.read" true
    ∷ for_all "product.comparison.write" true
    ∷ for_all "product.listing.read" true
    ∷ for_all "product.events.emit" false
    ∷ for_operators "ops.identity.conflict.review"
    ∷ for_operators "ops.identity.invitation.preload"
    ∷ for_operators "ops.ingestion.batch.submit"
    ∷ for_operators "ops.ingestion.run.read"
    ∷ for_operators "ops.ingestion.quality.read"
    ∷ for_administrators "admin.identity.user.status.change"
    ∷ for_administrators "admin.identity.role.change"
    ∷ (
      "admin.identity.bootstrap",
      record { action = "admin.identity.bootstrap"; allowed_roles = []; owner_required = false },
    )
    ∷ []

pub record AuthorizationDecision : Type 0 where
  pub allowed : Bool
  pub reason : String

-- `any(role not in {...} for role in roles)`
unfoldable pub names_unknown : List String → Bool
names_unknown = any (λ role. not (contains role known_roles))

-- `owner_id != actor_id`, an owner being given or not
unfoldable pub owned_by : ℕ → Option ℕ → Bool
owned_by actor_id none = false
owned_by actor_id (some owner_id) = owner_id == actor_id

-- `roles.intersection(rule.allowed_roles)`
unfoldable pub intersects : List String → List String → Bool
intersects roles allowed_roles = any (λ role. contains role allowed_roles) roles

unfoldable pub is_given : Option ℕ → Bool
is_given none = false
is_given (some owner_id) = true

-- The decision by a rule that was found.
unfoldable pub by_rule : ActionRule → List String → ℕ → Option ℕ → AuthorizationDecision
by_rule rule roles actor_id owner_id =
    if names_unknown roles
    then record { allowed = false; reason = "role_unknown" }
    else if rule.owner_required && not (is_given owner_id)
    then record { allowed = false; reason = "owner_missing" }
    else if rule.owner_required && not (owned_by actor_id owner_id)
    then record { allowed = false; reason = "owner_mismatch" }
    else if not (intersects roles rule.allowed_roles)
    then record { allowed = false; reason = "role_not_allowed" }
    else record { allowed = true; reason = "eligible" }

unfoldable pub authorize_roles : List String → String → ℕ → Option ℕ → AuthorizationDecision
unfolding by_rule
authorize_roles roles action actor_id owner_id = elim (Dict.get action action_rules) [
  | none ↦ record { allowed = false; reason = "action_unknown" }
  | some rule ↦ by_rule rule roles actor_id owner_id
]
