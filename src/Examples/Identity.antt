-- ===== src/Examples/Identity.antt =====
-- A session of one owner, on small inputs.
use flash_card.Prelude.{
  ◌≡◌, ◌≢◌, ◌↔◌, refl, true, false, Option, none, some, List, [], ◌∷◌, Outcome, ok, throw,
}
use flash_card.Prelude.Text.{text_discrete}
use flash_card.Prelude.Number.{nat}
use flash_card.Identity.CloudError.{Texts, Thrown, present}
use flash_card.Identity.Session.{
  IdentityOwner, OwnerEpoch, Session, create_identity_session_controller, is_owner, accepted_epoch,
  publish_anonymous, timeout_error,
}
use flash_card.Identity.Observation.{
  Load, begin_observation, stop, on_owner, settle_epoch, is_below, accept_verified_owner_epoch,
}
use flash_card.Identity.SignIn.{
  begin_sign_out, should_retry_with_redirect, settle_popup, settle_redirect, awaiting,
}
use flash_card.Identity.Events.{
  Event, started, owner_changed, epoch_loaded, epoch_verified, sign_out_called, error_cleared,
  supersedes, step, run,
}
use flash_card.Identity.Invariant.{IsCoherent, create_run-IsCoherent}
use flash_card.Identity.Races.{superseded_load_ignored}
use flash_card.Identity.Epochs.{IsForward, step-IsForward}
use flash_card.Identity.Attempts.{sign_in_ends}

abbrev texts : Texts
texts = record { lower = λ t. t; has = λ t part. false }

abbrev ann : IdentityOwner
ann = record { id = "ann"; display_name = some "Ann"; email = none; photo_url = none }

abbrev load : Load
load = record { observation = 1; publication = 2; owner = ann }

abbrev blocked : Thrown
blocked = record {
  is_error = true;
  code = present "auth/popup-blocked";
  message = present "blocked";
  text = "Error: blocked";
}

abbrev new_session : Session
new_session = create_identity_session_controller true

abbrev events : List Event
events =
    started
    ∷ owner_changed 1 (some ann)
    ∷ epoch_loaded load (ok (nat 3))
    ∷ epoch_verified "ann" (nat 2)
    ∷ sign_out_called
    ∷ []

create_run-IsCoherent_example :
    IsCoherent (run texts "here" (create_identity_session_controller true) events)
create_run-IsCoherent_example = create_run-IsCoherent texts "here" true events

abbrev observing : Session
observing = run texts "here" new_session (started ∷ [])

asked : (on_owner observing 1 (some ann)).1 ≡ some load
unfolding run step on_owner begin_observation stop create_identity_session_controller text_discrete
asked = refl

overtaken :
    supersedes
      (run texts "here" (on_owner observing 1 (some ann)).0 (error_cleared ∷ []))
      sign_out_called
    ≡ true
unfolding run step on_owner begin_observation stop create_identity_session_controller text_discrete
    supersedes flash_card.Identity.SignIn.clear_error flash_card.Identity.Session.publish_error
overtaken = refl

superseded_load_ignored_example :
    let late =
      run texts "here"
        (on_owner observing 1 (some ann)).0
        (error_cleared ∷ sign_out_called ∷ epoch_verified "ann" (nat 9) ∷ []) in
    settle_epoch texts late load (ok (nat 5)) ≡ late
superseded_load_ignored_example =
    superseded_load_ignored texts "here" observing 1 ann load (error_cleared ∷ []) sign_out_called
      (epoch_verified "ann" (nat 9) ∷ []) (ok (nat 5)) asked overtaken

abbrev at_three : Session
at_three =
    run texts "here" new_session
      (started ∷ owner_changed 1 (some ann) ∷ epoch_loaded load (ok (nat 3)) ∷ [])

knows_three : at_three.snapshot.owner_epoch ≡ some (record { owner_id = "ann"; value = 3 })
unfolding run step on_owner begin_observation stop create_identity_session_controller text_discrete
    settle_epoch flash_card.Identity.Observation.finish_load_with
    flash_card.Identity.Observation.finish_load flash_card.Identity.Observation.publish_epoch
    accepted_epoch
knows_three = refl

step-IsForward_example :
    IsForward at_three.snapshot.owner_epoch
      (step texts "here" at_three (epoch_verified "ann" (nat 4))).snapshot.owner_epoch
step-IsForward_example = step-IsForward texts "here" at_three (epoch_verified "ann" (nat 4))

sign_in_ends_example :
    let popup : Option (Outcome Thrown (Unit {0})) = some (throw blocked) in
    let r = settle_popup "here" at_three popup in
    let after = settle_redirect r.0 none in
    ((r.1 ≡ awaiting)
      ↔ ((e : Thrown) × (popup ≡ some (throw e)) × (should_retry_with_redirect e ≡ true)))
    × (r.1 ≡ awaiting → r.0 ≡ at_three)
    × (r.1 ≢ awaiting → (r.0.signing_in ≡ false) × (r.0.snapshot.is_signing_in ≡ false))
    × ((after.1 ≢ awaiting)
        × (after.0.signing_in ≡ false)
        × (after.0.snapshot.is_signing_in ≡ false))
sign_in_ends_example = sign_in_ends "here" at_three (some (throw blocked)) none
