-- ===== src/Audit.antt =====
-- The actors and contexts of audited changes (src/umbral/domain/audit.py).
use umbral.Prelude.{
  ℕ, String, Option, none, some, ◌||◌, ltb, ◌==◌, nat_eq, string_eq, length, any, not, contains,
  Result, err, ok, value_error, raise_if, ◌>>◌,
}
use umbral.Text.{PyText, codes}

pub data ActorKind : Type 0 where
  system service operator : ActorKind

pub record AuditActor : Type 0 where
  pub kind : ActorKind
  pub id : Option String

-- The check of `AuditActor.__post_init__` on the id of a service or an operator.
actor_id_check : PyText → Option String → Result (Unit {0})
unfolding any
actor_id_check t none = err value_error
actor_id_check t (some id) = do
  raise_if (t.strip id == "" || ltb 128 (length (codes id))) value_error
  raise_if (any t.is_space (codes id)) value_error

actor_check : PyText → ActorKind → Option String → Result (Unit {0})
unfolding actor_id_check
actor_check t system none = ok tt
actor_check t system (some id) = err value_error
actor_check t _ id = actor_id_check t id

unfoldable pub create_actor : PyText → ActorKind → Option String → Result AuditActor
unfolding actor_check
create_actor t kind id = do actor_check t kind id; ok (record { kind = kind; id = id })

-- `AuditActor.system()`
abbrev pub system_actor : AuditActor
system_actor = record { kind = system; id = none }

pub record AuditContext : Type 0 where
  pub actor : AuditActor
  pub source : String
  pub correlation_id : ℕ

abbrev source_alphabet : String
source_alphabet = "abcdefghijklmnopqrstuvwxyz0123456789._-"

unfoldable pub create_context : AuditActor → String → ℕ → Result AuditContext
unfolding contains any
create_context actor source correlation_id = do
  raise_if (source == "" || ltb 128 (length (codes source))) value_error
  raise_if (any (λ c. not (contains c (codes source_alphabet))) (codes source)) value_error
  ok (record { actor = actor; source = source; correlation_id = correlation_id })

unfoldable pub system_context : String → ℕ → Result AuditContext
unfolding create_context
system_context source correlation_id = create_context system_actor source correlation_id
