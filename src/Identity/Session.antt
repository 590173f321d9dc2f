-- ===== src/Identity/Session.antt =====
-- The state of `createIdentitySessionController`, and the parts of it that its closures share. The
-- listeners are left out: they are called with each snapshot and change nothing of the session.
use flash_card.Prelude.{
  ℕ, Bool, true, false, Option, none, some, List, [], String, Outcome, ok, throw, same,
  if◌then◌else◌,
}
use flash_card.Prelude.Text.{text_discrete}
use flash_card.Identity.CloudError.{
  Texts, Thrown, absent, nullish, present, field_text, is_cloud_quota_error,
  firestore_daily_read_limit_message,
}

pub record IdentityOwner : Type 0 where
  pub id : String
  pub display_name : Option String
  pub email : Option String
  pub photo_url : Option String

pub record OwnerEpoch : Type 0 where
  pub owner_id : String
  pub value : ℕ

pub data Status : Type 0 where
  loading anonymous authenticated : Status

pub record Snapshot : Type 0 where
  pub status : Status
  pub owner : Option IdentityOwner
  pub owner_epoch : Option OwnerEpoch
  pub can_publish_mutations : Bool
  pub is_signing_in : Bool
  pub is_signing_out : Bool
  pub error : Option String

-- `timer` is the observation for which the timer of the first owner runs, `observing` is whether
-- there is a subscription to end, `cached` are the calls of `cacheOwnerEpoch`, the last one first.
pub record Session : Type 0 where
  pub available : Bool
  pub snapshot : Snapshot
  pub owner_publication : ℕ
  pub observation_generation : ℕ
  pub observing : Bool
  pub timer : Option ℕ
  pub signing_in : Bool
  pub signing_out : Bool
  pub cached : List OwnerEpoch

abbrev pub is_loading : Status → Bool
is_loading loading = true
is_loading _ = false

abbrev pub safety_error : String
safety_error = "Cloud offline. Changes stay local."

abbrev pub unavailable_error : String
unavailable_error =
    "Cloud sync is not enabled. Check the Firebase configuration and reload the app."

abbrev pub owner_timeout_error : String
owner_timeout_error =
    "Cloud session check timed out. You can keep learning offline and retry sign-in later."

abbrev pub sign_in_timeout_error : String
sign_in_timeout_error = "Sign-in took too long. Please check your connection and try again."

abbrev pub timeout_error : Thrown
timeout_error = record {
  is_error = true;
  code = present "auth/timeout";
  message = present sign_in_timeout_error;
  text = "Error: Sign-in took too long. Please check your connection and try again.";
}

-- `String(error.code)` where there is one
abbrev pub error_code : Thrown → String
error_code e = elim e.code [ absent ↦ "" | nullish t ↦ t | present t ↦ t ]

-- `error instanceof Error && error.message ? error.message : fallback`
unfoldable pub message_or : String → Thrown → String
message_or fallback e =
    let message = field_text e.message in
    if e.is_error then if same text_discrete message "" then fallback else message else fallback

unfoldable pub error_message : Thrown → String
unfolding message_or
error_message = message_or "Could not sign in to Firebase."

unfoldable pub owner_epoch_failure_message : Texts → Thrown → String
owner_epoch_failure_message texts e =
    if is_cloud_quota_error texts e then firestore_daily_read_limit_message else safety_error

-- The thrown value `null`, which `epochFailure` is at first.
abbrev pub null_failure : Thrown
null_failure = record { is_error = false; code = absent; message = absent; text = "null" }

unfoldable pub create_identity_session_controller : Bool → Session
create_identity_session_controller available = record {
  available = available;
  snapshot = record {
    status = if available then loading else anonymous;
    owner = none;
    owner_epoch = none;
    can_publish_mutations = false;
    is_signing_in = false;
    is_signing_out = false;
    error = none;
  };
  owner_publication = 0;
  observation_generation = 0;
  observing = false;
  timer = none;
  signing_in = false;
  signing_out = false;
  cached = [];
}

unfoldable pub publish_error : Session → Option String → Session
publish_error s error = record s { snapshot = record s.snapshot { error = error } }

unfoldable pub publish_anonymous : Session → Option String → Session
publish_anonymous s error = record s {
  snapshot = record s.snapshot {
    status = anonymous;
    owner = none;
    owner_epoch = none;
    can_publish_mutations = false;
    error = error;
  };
}

-- `snapshot.owner?.id === id`
abbrev pub is_owner : Option IdentityOwner → String → Bool
is_owner none id = false
is_owner (some o) id = same text_discrete o.id id

-- The epoch that is known of the owner.
unfoldable pub accepted_epoch : Option OwnerEpoch → String → Option ℕ
accepted_epoch none id = none
accepted_epoch (some e) id = if same text_discrete e.owner_id id then some e.value else none

unfoldable pub wait_bounded : Option (Outcome Thrown (Unit {0})) → Outcome Thrown (Unit {0})
wait_bounded none = throw timeout_error
wait_bounded (some (ok tt)) = ok tt
wait_bounded (some (throw e)) = throw e
