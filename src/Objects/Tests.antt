-- ===== src/Objects/Tests.antt =====
-- A provider that keeps bodies in a dictionary, and each guarantee on it.
use umbral.Prelude.{
  ℕ, String, true, false, all, List, [], ◌∷◌, Option, none, some, ◌≡◌, refl, ◌==◌, nat_eq, pair_eq,
  string_eq, inl, inr, Option-cases, arith, length, keep, if◌then◌else◌,
}
use umbral.Prelude.Dict
use umbral.Prelude.Dict.{Dict}
use umbral.Text.{PyText, is_graphic, is_digit}
use umbral.Objects.Contracts.{
  version_conflict, not_found, ObjectVersionRef, ObjectInfo, Reply, replied, raised, ObjectStore,
  is_hex, is_sha256, has_char, create_ref, metadata_ref, ObjectVersionMetadata, VersionState,
}
use umbral.Objects.Repository.{
  pending_metadata, same_content, create_pending, is_available, is_pending, made_available,
  availability, mark_available, mark_failed, made_failed,
}
use umbral.Objects.Service.{
  Outside, VersionedObjects, PutCall, Readings, correlation_of, ReconciliationResult,
  normalize_content_type, declared_digest, declared_size, is_honest, storage_key, new_version,
  upload, uploaded, info_matches, after_upload, put_new, put, available_version, checked_info,
  located, open_object,
}
use umbral.Objects.Reconcile.{
  is_eligible, is_young, is_overdue, provider_ref_of, provider_info, count_failed, refused,
  reconcile_row, reconcile_rows, reconcile_pending,
}
use umbral.Objects.View.{published, Publications}
use umbral.Objects.Puts.{offered}
use umbral.Objects.Runs.{
  ObjectRun, idle, provider_changed, after_put, after_reconciliation, ObjectRun-Publications,
  put-stays_published,
}
use umbral.Objects.Guarantees.Repeated.{put-repeated}
use umbral.Objects.Guarantees.Opening.{IsTruthful, named_content, open_object-verified}
use umbral.Objects.Guarantees.Counting.{scanned, reconcile_pending-counts}

plain_graphic : (c : ℕ) → is_graphic c ≡ true → (c == 32) ≡ false
unfolding is_graphic
plain_graphic c h = ground arith

abbrev plain : PyText
plain = record {
  strip = λ s. s;
  lower = λ s. s;
  is_space = λ c. c == 32;
  strip_of_no_space = λ s h. refl;
  lower_of_no_upper = λ s h k. refl;
  graphic_no_space = plain_graphic;
}

abbrev digest : List ℕ → String
digest [] = "e3b0c44298fc1c149afbf4c8996fb92427ae41e4649b934ca495991b7852b855"
digest _ = "5feceb66ffc86f38d952786c6d696c79c2dbc239dd4e91b46729d73a27fb57e9"

abbrev outside : Outside
outside = record { py_text = plain; sha256 = digest; show = λ n. if n == 1 then "one" else "other" }

abbrev Bodies : Type 0
Bodies = Dict String (List ℕ)

abbrev kept : String → Option (List ℕ) → Reply ObjectInfo
kept ref none = raised not_found
kept ref (some body) = replied (record {
  provider_ref = ref;
  sha256 = digest body;
  size_bytes = length body;
  content_type = "text/plain";
  provider_version = none;
})

abbrev body_of : Option (List ℕ) → Reply (List ℕ)
body_of none = raised not_found
body_of (some body) = replied body

abbrev put_body : String → List ℕ → Bodies → Option (List ℕ) → Bodies × Reply String
put_body key body p none = (Dict.set key body p, replied key)
put_body key body p (some old) =
    (p, if digest old == digest body then replied key else raised version_conflict)

abbrev bodies : ObjectStore Bodies
bodies = record {
  put_if_absent = λ key body sha256 size content_type p. put_body key body p (Dict.get key p);
  stat = λ ref p. kept ref (Dict.get ref p);
  open_body = λ ref p. body_of (Dict.get ref p);
  ref_for_key = λ key. replied key;
}

bodies-IsTruthful : IsTruthful outside bodies
bodies-IsTruthful ref p info body said opened = elim (Option-cases (Dict.get ref p)) [
  | inl absent ↦ absurd (ground (arith, rw (absent) at said))
  | inr (b, present) ↦ ground (arith, rw (present) at said, rw (present) at opened)
]

abbrev readings : Readings
readings = record { created_at = 10; available_at = 11; new_correlation_id = 7 }

abbrev request : PutCall
request = record {
  request = record {
    object_id = 1;
    version_id = 1;
    body = 72 ∷ 105 ∷ [];
    sha256 = none;
    size_bytes = some 2;
    content_type = "text/plain";
    purpose = "raw";
    correlation_id = none;
  };
  readings = readings;
}

abbrev empty : VersionedObjects Bodies
empty = record { versions = []; provider = []; signals = [] }

abbrev reference : ObjectVersionRef
reference = record {
  object_id = 1;
  version_id = 1;
  sha256 = "5feceb66ffc86f38d952786c6d696c79c2dbc239dd4e91b46729d73a27fb57e9";
  size_bytes = 2;
  content_type = "text/plain";
}

request-returns : (put outside bodies request empty).1 ≡ replied reference
unfolding put normalize_content_type put_new is_honest declared_digest declared_size create_pending
    new_version correlation_of pending_metadata upload storage_key info_matches after_upload
    uploaded mark_available availability is_available is_pending made_available metadata_ref
    create_ref is_sha256 is_hex has_char all is_digit Dict.get Dict.set
request-returns = refl

request-opens :
    open_object outside bodies reference (put outside bodies request empty).0
    ≡ replied (72 ∷ 105 ∷ [])
unfolding put normalize_content_type put_new is_honest declared_digest declared_size create_pending
    new_version correlation_of pending_metadata upload storage_key info_matches after_upload
    uploaded mark_available availability is_available is_pending made_available metadata_ref
    create_ref is_sha256 is_hex has_char all Dict.get Dict.set open_object located available_version
    checked_info same_content
request-opens = refl

plain_accepted : normalize_content_type plain "text/plain" ≡ replied "text/plain"
unfolding normalize_content_type has_char all
plain_accepted = refl

-- The bytes are lost, and a reconciliation follows.
abbrev lost : VersionedObjects Bodies
lost = record (put outside bodies request empty).0 { provider = [] }

abbrev after_loss : VersionedObjects Bodies
after_loss = (reconcile_pending outside bodies 50 (some 10) lost).0

lost_run : ObjectRun outside bodies (put outside bodies request empty).0 after_loss
lost_run = after_reconciliation 50 (some 10) (provider_changed [] idle)

ObjectRun-Publications_example :
    Publications (published []) (published (put outside bodies request empty).0.versions)
ObjectRun-Publications_example =
    ObjectRun-Publications outside bodies empty (put outside bodies request empty).0
      (after_put request idle)

put-stays_published_example :
    published after_loss.versions (1, 1) ≡ some (offered outside bodies "text/plain" request)
put-stays_published_example =
    put-stays_published outside bodies request "text/plain" empty after_loss reference
      plain_accepted request-returns lost_run

-- The second call is made later, with a correlation id of its own.
abbrev later_request : PutCall
later_request = record {
  request = record request.request { purpose = "copy"; correlation_id = some 8 };
  readings = record { created_at = 30; available_at = 31; new_correlation_id = 9 };
}

put-repeated_example :
    put outside bodies later_request (put outside bodies request empty).0
    ≡ ((put outside bodies request empty).0, replied reference)
put-repeated_example =
    put-repeated outside bodies request "copy" (some 8) later_request.readings empty reference
      request-returns

open_object-verified_example :
    (digest request.request.body ≡ reference.sha256)
    × ((length request.request.body ≡ reference.size_bytes)
        × (published (put outside bodies request empty).0.versions (1, 1)
            ≡ some (named_content reference)))
open_object-verified_example =
    open_object-verified outside bodies reference (put outside bodies request empty).0
      (72 ∷ 105 ∷ []) bodies-IsTruthful request-opens

abbrev waiting : ℕ → ObjectVersionMetadata
waiting created_at = record {
  object_id = 2;
  version_id = 1;
  purpose = "raw";
  state = VersionState.pending;
  storage_key = "objects/other/one";
  sha256 = "e3b0c44298fc1c149afbf4c8996fb92427ae41e4649b934ca495991b7852b855";
  size_bytes = 0;
  content_type = "text/plain";
  created_at = created_at;
  correlation_id = 8;
  provider_ref = none;
  provider_version = none;
  available_at = none;
  failure_code = none;
}

-- Bytes arrived for the first version, none did for the second, and the third is recent.
abbrev interrupted : VersionedObjects Bodies
interrupted = record {
  versions =
      ((2, 1), waiting 5)
      ∷ ((2, 2), record (waiting 6) { storage_key = "objects/other/two" })
      ∷ ((2, 3), waiting 45)
      ∷ [];
  provider = ("objects/other/one", []) ∷ [];
  signals = [];
}

abbrev decided : ReconciliationResult
decided = record { completed = 1; failed = 1; pending = 0 }

interrupted-decided :
    (reconcile_pending outside bodies 50 (some 10) interrupted).1 ≡ replied decided
unfolding reconcile_pending reconcile_rows reconcile_row keep is_eligible is_young is_overdue
    is_pending provider_ref_of provider_info info_matches refused count_failed mark_available
    availability is_available made_available Dict.get Dict.set mark_failed made_failed
interrupted-decided = refl

reconcile_pending-counts_example :
    (scanned decided ≡ length (keep (λ e. is_eligible 50 (some 10) e.1) interrupted.versions))
    × ((age : ℕ) → some 10 ≡ some age → decided.pending ≡ 0)
reconcile_pending-counts_example =
    reconcile_pending-counts outside bodies 50 (some 10) interrupted decided interrupted-decided
