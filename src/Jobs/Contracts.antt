-- ===== src/Jobs/Contracts.antt =====
-- The transport-independent job contracts (src/umbral/application/jobs/contracts.py): the
-- normalisers of the three identity fields, job identities, submissions and failures.
pub mod Normal
use umbral.Audit.{AuditActor}
use umbral.Prelude.{
  ℕ, ℤ, pos, negsuc, ◌*◌, String, Bool, true, false, ◌&&◌, ◌||◌, not, List, [], ◌∷◌, Option, none,
  some, Eq, Result, ok, value_error, raise_if, ◌>>=◌, ◌>>◌, ltb, leb, ◌==◌, nat_eq, string_eq,
  pair_eq, length, any, all, ◌≡◌, ◌↔◌, arith, if◌then◌else◌,
}
use umbral.Text.{PyText, codes, is_digit, is_lower, is_word, is_alnum, occurs_in}

pub data JobState : Type 0 where
  pending queued running succeeded retry_wait failed : JobState

-- `[._-]`
is_separator : ℕ → Bool
is_separator c = c == b'.' || c == b'_' || c == b'-'

-- The automaton of `[a-z0-9]*(?:[._-][a-z0-9]+)*`: its state says whether a separator was just read.
job_type_rest : Bool → List ℕ → Bool
unfolding is_separator is_word
job_type_rest after_separator [] = not after_separator
job_type_rest after_separator (c ∷ s) =
    (is_word c || not after_separator && is_separator c) && job_type_rest (is_separator c) s

-- `_JOB_TYPE_RE.fullmatch`
is_job_type : List ℕ → Bool
unfolding job_type_rest is_lower
is_job_type [] = false
is_job_type (c ∷ s) = is_lower c && job_type_rest false s

unfoldable pub normalize_job_type : PyText → String → Result String
unfolding is_job_type
normalize_job_type t value = do
  let normalized = t.lower (t.strip value)
  raise_if
      (normalized == ""
        || ltb 100 (length (codes normalized))
        || not (is_job_type (codes normalized)))
      value_error
  ok normalized

-- `any(marker in lowered for marker in ("token=", "secret=", "password="))`
names_secret : List ℕ → Bool
unfolding occurs_in
names_secret lowered =
    occurs_in (codes "token=") lowered
    || occurs_in (codes "secret=") lowered
    || occurs_in (codes "password=") lowered

unfoldable pub normalize_target : PyText → String → Result String
unfolding any names_secret occurs_in
normalize_target t value = do
  let normalized = t.strip value
  let lowered = t.lower normalized
  raise_if
      (normalized == ""
        || ltb 300 (length (codes normalized))
        || any t.is_space (codes normalized)
        || names_secret (codes lowered)
        || occurs_in (codes "?") (codes normalized)
        || occurs_in (codes "#") (codes normalized))
      value_error
  ok normalized

-- `[A-Za-z0-9._:/-]`
is_key_char : ℕ → Bool
unfolding is_alnum
is_key_char c = is_alnum c || c == b'.' || c == b'_' || c == b':' || c == b'/' || c == b'-'

-- `_SAFE_KEY_RE.fullmatch`
is_safe_key : List ℕ → Bool
unfolding is_key_char all is_alnum
is_safe_key [] = false
is_safe_key (c ∷ s) = is_alnum c && leb (length s) 199 && all is_key_char s

unfoldable pub normalize_idempotency_key : PyText → String → Result String
unfolding is_safe_key
normalize_idempotency_key t value = do
  let normalized = t.strip value
  raise_if (not (is_safe_key (codes normalized))) value_error
  ok normalized

unfoldable pub is_terminal_state : JobState → Bool
is_terminal_state succeeded = true
is_terminal_state failed = true
is_terminal_state _ = false

pub record JobIdentity : Type 0 where
  pub job_type : String
  pub logical_target : String
  pub idempotency_key : String

-- `JobIdentity(...)`: `__post_init__` normalises the fields in this order.
unfoldable pub create_identity : PyText → String → String → String → Result JobIdentity
create_identity t job_type logical_target idempotency_key = do
  j ← normalize_job_type t job_type
  l ← normalize_target t logical_target
  k ← normalize_idempotency_key t idempotency_key
  ok (record { job_type = j; logical_target = l; idempotency_key = k })

-- `JobIdentity.key`
abbrev pub JobKey : Type 0
JobKey = String × (String × String)

abbrev pub key : JobIdentity → JobKey
key i = (i.job_type, (i.logical_target, i.idempotency_key))

pub record SubmitJob : Type 0 where
  pub identity : JobIdentity
  pub correlation_id : ℕ
  pub actor : AuditActor
  pub max_attempts : ℕ

-- `SubmitJob(...)`, whose `__post_init__` bounds the attempts.
unfoldable pub submit_job : JobIdentity → ℕ → AuditActor → ℕ → Result SubmitJob
submit_job identity correlation_id actor max_attempts = do
  raise_if (not (leb 1 max_attempts && leb max_attempts 10)) value_error
  ok (record {
    identity = identity;
    correlation_id = correlation_id;
    actor = actor;
    max_attempts = max_attempts;
  })

-- `SubmitJob.create` with all its arguments.
unfoldable pub create_submit_job :
    PyText → String → String → String → ℕ → AuditActor → ℕ → Result SubmitJob
unfolding submit_job
create_submit_job t job_type logical_target idempotency_key correlation_id actor max_attempts = do
  identity ← create_identity t job_type logical_target idempotency_key
  submit_job identity correlation_id actor max_attempts
