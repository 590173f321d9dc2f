-- ===== src/Identity/Attempts.antt =====
-- How a sign-in of identitySessionController.ts comes to its end.
use flash_card.Prelude.{
  ◌≡◌, ◌≢◌, ◌↔◌, refl, true, false, Option, none, some, String, Outcome, ok, throw, arith,
}
use flash_card.Prelude.Text.{text_discrete}
use flash_card.Identity.CloudError.{Thrown}
use flash_card.Identity.Session.{Session, timeout_error, publish_error, wait_bounded}
use flash_card.Identity.SignIn.{
  awaiting, end_sign_in, should_retry_with_redirect, finish_popup, settle_popup, finish_redirect,
  settle_redirect,
}

module _ (hostname : String) where
  timeout_is_final : should_retry_with_redirect timeout_error ≡ false
  unfolding should_retry_with_redirect text_discrete
  timeout_is_final = refl

  redirect_ends :
      (s : Session) (outcome : Outcome Thrown (Unit {0}))
      → let r = finish_redirect s outcome in
        (r.1 ≢ awaiting) × (r.0.signing_in ≡ false) × (r.0.snapshot.is_signing_in ≡ false)
  unfolding finish_redirect end_sign_in publish_error
  redirect_ends s (ok tt) = ground arith
  redirect_ends s (throw e) = ground arith

  -- When the popup of a sign-in has ended or its time is up, the sign-in waits on exactly if the
  -- popup failed with one of the two errors that a redirect may help with, and has then changed
  -- nothing; otherwise it has returned, and no sign-in is under way or shown; and the redirect that
  -- it may wait for always ends it so, too.
  pub sign_in_ends :
      (s : Session) (popup redirect : Option (Outcome Thrown (Unit {0})))
      → let r = settle_popup hostname s popup in
        let after = settle_redirect r.0 redirect in
        ((r.1 ≡ awaiting)
          ↔ ((e : Thrown) × (popup ≡ some (throw e)) × (should_retry_with_redirect e ≡ true)))
        × (r.1 ≡ awaiting → r.0 ≡ s)
        × (r.1 ≢ awaiting → (r.0.signing_in ≡ false) × (r.0.snapshot.is_signing_in ≡ false))
        × ((after.1 ≢ awaiting)
            × (after.0.signing_in ≡ false)
            × (after.0.snapshot.is_signing_in ≡ false))
  unfolding settle_popup finish_popup settle_redirect wait_bounded end_sign_in publish_error
  sign_in_ends s none redirect =
      let r = finish_popup hostname s (throw timeout_error) in
      ground (arith, timeout_is_final, redirect_ends r.0 (wait_bounded redirect))
  sign_in_ends s (some (ok tt)) redirect =
      let r = finish_popup hostname s (ok tt) in
      ground (arith, redirect_ends r.0 (wait_bounded redirect))
  sign_in_ends s (some (throw e)) redirect =
      let r = finish_popup hostname s (throw e) in
      ground (arith, redirect_ends r.0 (wait_bounded redirect))
