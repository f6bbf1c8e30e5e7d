-- ===== src/Jobs/Failures.antt =====
-- The failures that a handler raises, and what the runtime makes of them
-- (src/umbral/application/jobs/contracts.py).
use umbral.Prelude.{
  ℕ, ℤ, pos, negsuc, ◌*◌, String, Bool, true, false, ◌||◌, not, Option, none, some, Result, err, ok,
  value_error, raise_if, ◌>>=◌, ◌>>◌, ltb, ◌==◌, nat_eq, string_eq, length, all,
}
use umbral.Text.{PyText, codes, is_word}

-- Spans of time are counted in microseconds, the resolution of `timedelta`.
abbrev pub second : ℕ
second = 1000000

-- What a handler may pass as `retry_after`: a `timedelta`, or a whole number of seconds.
pub data RetryAfter : Type 0 where
  delta : ℤ → RetryAfter
  number : ℤ → RetryAfter

-- The exceptions that `record_outcome` may be handed; `other` is any class but the two of the module.
pub data JobError : Type 0 where
  transient_job_error : String → Option ℤ → JobError
  permanent_job_error : String → JobError
  other : JobError

-- `[a-z0-9._-]`
is_code_char : ℕ → Bool
unfolding is_word
is_code_char c = is_word c || c == b'.' || c == b'_' || c == b'-'

unfoldable pub normalize_error_code : PyText → String → Result String
unfolding is_code_char all
normalize_error_code t code = do
  let normalized = t.lower (t.strip code)
  raise_if
      (normalized == ""
        || ltb 100 (length (codes normalized))
        || not (all is_code_char (codes normalized)))
      value_error
  ok normalized

retry_delta : Option RetryAfter → Result (Option ℤ)
retry_delta none = ok none
retry_delta (some (delta d)) = ok (some d)
retry_delta (some (number (pos n))) = ok (some (pos (n * second)))
retry_delta (some (number (negsuc n))) = err value_error

unfoldable pub create_transient : PyText → String → Option RetryAfter → Result JobError
unfolding normalize_error_code retry_delta
create_transient t code retry_after = do
  c ← normalize_error_code t code
  d ← retry_delta retry_after
  ok (transient_job_error c d)

unfoldable pub create_permanent : PyText → String → Result JobError
unfolding normalize_error_code
create_permanent t code = do c ← normalize_error_code t code; ok (permanent_job_error c)

pub data FailureKind : Type 0 where
  transient permanent unclassified : FailureKind

-- The wall-clock stamp of a classification, which nothing reads, is left out.
pub record FailureClassification : Type 0 where
  pub code : String
  pub kind : FailureKind
  pub retryable : Bool

unfoldable pub classify_failure : JobError → FailureClassification
classify_failure (transient_job_error code _) = record {
  code = code;
  kind = transient;
  retryable = true;
}
classify_failure (permanent_job_error code) = record {
  code = code;
  kind = permanent;
  retryable = false;
}
classify_failure other = record {
  code = "job.unclassified_failure";
  kind = unclassified;
  retryable = false;
}
