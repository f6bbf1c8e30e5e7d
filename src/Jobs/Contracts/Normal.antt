-- ===== src/Jobs/Contracts/Normal.antt =====
-- The normalisers are idempotent, so a job identity is built from its own fields unchanged.
use umbral.Prelude.{
  ℕ, ◌≡◌, ◌∙◌, ap, refl, String, Bool, true, false, ◌||◌, List, [], ◌∷◌, arith, ok, any, all,
}
use umbral.Text.{PyText, codes, is_upper, is_graphic, is_word, strip_of_graphic}
use umbral.Jobs.Contracts.{
  is_separator, job_type_rest, is_job_type, is_key_char, is_safe_key, normalize_job_type,
  normalize_target, normalize_idempotency_key, JobIdentity, create_identity,
}

job_type_char :
    (c : ℕ) → (is_word c || is_separator c) ≡ true → (is_graphic c ≡ true) × (is_upper c ≡ false)
unfolding is_word is_separator is_graphic is_upper
job_type_char c h = ground arith

key_char-graphic : (c : ℕ) → is_key_char c ≡ true → is_graphic c ≡ true
unfolding is_key_char is_graphic
key_char-graphic c h = ground arith

job_type_rest-plain :
    (b : Bool) (s : List ℕ)
    → job_type_rest b s ≡ true
    → (all is_graphic s ≡ true) × (any is_upper s ≡ false)
unfolding job_type_rest all any
job_type_rest-plain b [] h = (refl, refl)
job_type_rest-plain b (c ∷ s) h =
    ground (arith, job_type_char c, job_type_rest-plain (is_separator c) s)

is_job_type-plain :
    (s : List ℕ) → is_job_type s ≡ true → (all is_graphic s ≡ true) × (any is_upper s ≡ false)
unfolding is_job_type all any is_word
is_job_type-plain [] h = cc
is_job_type-plain (c ∷ s) h = ground (arith, job_type_char c, job_type_rest-plain false s)

all_key_chars-graphic : (s : List ℕ) → all is_key_char s ≡ true → all is_graphic s ≡ true
unfolding all
all_key_chars-graphic [] h = refl
all_key_chars-graphic (c ∷ s) h = ground (arith, key_char-graphic c, all_key_chars-graphic s)

is_safe_key-graphic : (s : List ℕ) → is_safe_key s ≡ true → all is_graphic s ≡ true
unfolding is_safe_key all is_key_char
is_safe_key-graphic [] h = cc
is_safe_key-graphic (c ∷ s) h = ground (arith, key_char-graphic c, all_key_chars-graphic s)

module _ (t : PyText) where
  normalize_job_type-accepted :
      (v n : String) → normalize_job_type t v ≡ ok n → is_job_type (codes n) ≡ true
  unfolding normalize_job_type
  normalize_job_type-accepted v n h = ground arith

  normalize_job_type-again :
      (v n : String) → normalize_job_type t v ≡ ok n → t.lower (t.strip n) ≡ n
  normalize_job_type-again v n h =
      let plain = is_job_type-plain (codes n) (normalize_job_type-accepted v n h) in
      ap t.lower (strip_of_graphic t n plain.0) ∙ t.lower_of_no_upper n plain.0 plain.1

  -- A normalised job type is normalised to itself.
  pub normalize_job_type_idem :
      (v n : String) → normalize_job_type t v ≡ ok n → normalize_job_type t n ≡ ok n
  unfolding normalize_job_type
  normalize_job_type_idem v n h = ground (arith, normalize_job_type-again v n h)

  normalize_target-again : (v n : String) → normalize_target t v ≡ ok n → t.strip n ≡ n
  unfolding normalize_target
  normalize_target-again v n h = ground (arith, t.strip_of_no_space n)

  pub normalize_target_idem :
      (v n : String) → normalize_target t v ≡ ok n → normalize_target t n ≡ ok n
  unfolding normalize_target
  normalize_target_idem v n h = ground (arith, normalize_target-again v n h)

  normalize_idempotency_key-again :
      (v n : String) → normalize_idempotency_key t v ≡ ok n → t.strip n ≡ n
  unfolding normalize_idempotency_key
  normalize_idempotency_key-again v n h =
      strip_of_graphic t n (is_safe_key-graphic (codes n) (ground arith))

  pub normalize_idempotency_key_idem :
      (v n : String) → normalize_idempotency_key t v ≡ ok n → normalize_idempotency_key t n ≡ ok n
  unfolding normalize_idempotency_key
  normalize_idempotency_key_idem v n h = ground (arith, normalize_idempotency_key-again v n h)

  -- An identity that was built once is built again, from its own fields, as it is.
  pub create_identity_idem :
      (a b c : String) (i : JobIdentity)
      → create_identity t a b c ≡ ok i
      → create_identity t i.job_type i.logical_target i.idempotency_key ≡ ok i
  unfolding create_identity
  create_identity_idem a b c i h = ground (
    arith,
    normalize_job_type_idem a i.job_type,
    normalize_target_idem b i.logical_target,
    normalize_idempotency_key_idem c i.idempotency_key,
  )
