-- ===== src/Identity/SignIn.antt =====
-- `signIn`, `signOut` and `clearError` of the session. `signIn` waits for the popup and, for some
-- failures of it, for the redirect; what each wait came to is an argument, `none` where the time was
-- up first.
use Prim.Native.String.{◌++◌ as join}
use flash_card.Prelude.{
  ◌+◌, Bool, true, false, not, ◌||◌, Option, none, some, String, Outcome, ok, throw, same,
  if◌then◌else◌,
}
use flash_card.Prelude.Text.{text_discrete}
use flash_card.Identity.CloudError.{Thrown}
use flash_card.Identity.Session.{
  Session, unavailable_error, sign_in_timeout_error, error_code, error_message, publish_error,
  publish_anonymous, wait_bounded,
}

pub data ActionResult : Type 0 where
  completed redirecting busy unavailable : ActionResult
  failed : Thrown → ActionResult

-- How far a call has come: it has returned, or it waits.
pub data Progress : Type 0 where
  returned : ActionResult → Progress
  awaiting : Progress

unfoldable pub begin_sign_in : Session → Session × Progress
unfolding publish_error
begin_sign_in s =
    if s.signing_in
    then (s, returned busy)
    else if not s.available
    then (publish_error s (some unavailable_error), returned unavailable)
    else (
      record s {
        signing_in = true;
        snapshot = record s.snapshot { is_signing_in = true; error = none };
      },
      awaiting,
    )

unfoldable pub should_retry_with_redirect : Thrown → Bool
should_retry_with_redirect e =
    same text_discrete (error_code e) "auth/popup-blocked"
    || same text_discrete (error_code e) "auth/internal-error"

unfoldable pub sign_in_message : (hostname : String) → Thrown → String
unfolding error_message
sign_in_message hostname e =
    if same text_discrete (error_code e) "auth/timeout"
    then sign_in_timeout_error
    else if same text_discrete (error_code e) "auth/unauthorized-domain"
    then join "Firebase does not allow " (
        join hostname " yet. Add this domain under Authentication → Settings → Authorized domains.")
    else if same text_discrete (error_code e) "auth/popup-closed-by-user"
    then "The sign-in window was closed before authentication finished."
    else error_message e

-- The `finally` of `signIn`.
unfoldable pub end_sign_in : Session → Session
end_sign_in s = record s {
  signing_in = false;
  snapshot = record s.snapshot { is_signing_in = false };
}

-- `signIn` from the end of the popup on. The redirect that it may start is awaited in turn.
unfoldable pub finish_popup :
    (hostname : String) → Session → Outcome Thrown (Unit {0}) → Session × Progress
unfolding end_sign_in publish_error should_retry_with_redirect sign_in_message
finish_popup hostname s (ok tt) = (end_sign_in s, returned completed)
finish_popup hostname s (throw e) =
    if should_retry_with_redirect e
    then (s, awaiting)
    else (end_sign_in (publish_error s (some (sign_in_message hostname e))), returned (failed e))

unfoldable pub settle_popup :
    (hostname : String) → Session → Option (Outcome Thrown (Unit {0})) → Session × Progress
unfolding wait_bounded
settle_popup hostname s outcome = finish_popup hostname s (wait_bounded outcome)

unfoldable pub finish_redirect : Session → Outcome Thrown (Unit {0}) → Session × Progress
unfolding end_sign_in publish_error error_message
finish_redirect s (ok tt) = (end_sign_in s, returned redirecting)
finish_redirect s (throw e) =
    (end_sign_in (publish_error s (some (error_message e))), returned (failed e))

unfoldable pub settle_redirect : Session → Option (Outcome Thrown (Unit {0})) → Session × Progress
unfolding wait_bounded
settle_redirect s outcome = finish_redirect s (wait_bounded outcome)

unfoldable pub begin_sign_out : Session → Session × Progress
begin_sign_out s =
    if s.signing_out
    then (s, returned busy)
    else if not s.available
    then (s, returned unavailable)
    else (
      record s {
        signing_out = true;
        owner_publication = s.owner_publication + 1;
        snapshot = record s.snapshot { is_signing_out = true; error = none };
      },
      awaiting,
    )

-- The `finally` of `signOut`.
unfoldable pub end_sign_out : Session → Session
end_sign_out s = record s {
  signing_out = false;
  snapshot = record s.snapshot { is_signing_out = false };
}

unfoldable pub settle_sign_out : Session → Outcome Thrown (Unit {0}) → Session × ActionResult
unfolding end_sign_out publish_anonymous publish_error
settle_sign_out s (ok tt) = (end_sign_out (publish_anonymous s none), completed)
settle_sign_out s (throw e) = (
  end_sign_out (publish_error s (some "Could not sign out right now. Please try again.")),
  failed e,
)

unfoldable pub clear_error : Session → Session
unfolding publish_error
clear_error s = publish_error s none
