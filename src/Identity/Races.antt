-- ===== src/Identity/Races.antt =====
-- Events of a session of identitySessionController.ts that overtake one another: loads of an epoch
-- that come late, epochs out of order, and sign-ins at the same time.
use flash_card.Prelude.{
  ℕ, ◌≡◌, ◌≤◌, ◌<◌, inl, inr, refl, true, none, some, List, [], ◌∷◌, ◌++◌, String, Outcome, ok,
  throw, Option-cases, arith,
}
use flash_card.Prelude.Number.{Number, safe_natural?}
use flash_card.Identity.CloudError.{Texts, Thrown}
use flash_card.Identity.Session.{
  IdentityOwner, Session, publish_anonymous, publish_error, wait_bounded,
}
use flash_card.Identity.Observation.{
  stop, begin_observation, owner_timer_fires, on_owner_error, observed, Load, on_owner,
  publish_failed_epoch, publish_epoch, finish_load, finish_load_with, settle_epoch, accept_epoch,
  accept_verified_owner_epoch,
}
use flash_card.Identity.SignIn.{
  begin_sign_in, end_sign_in, finish_popup, settle_popup, finish_redirect, settle_redirect,
  begin_sign_out, end_sign_out, settle_sign_out, clear_error,
}
use flash_card.Identity.Events.{
  Event, started, stopped, timer_fired, subscribed, owner_changed, owner_failed, epoch_loaded,
  epoch_verified, sign_in_called, sign_out_called, popup_ended, redirect_ended, sign_out_ended,
  error_cleared, step, run, supersedes,
}

finish_load_with-publication :
    (texts : Texts) (s : Session) (o : IdentityOwner) (answer : Outcome Thrown Number)
    → (finish_load_with texts s o answer).owner_publication ≡ s.owner_publication
unfolding finish_load_with finish_load publish_failed_epoch publish_epoch
finish_load_with-publication texts s o (ok answer) = elim (Option-cases (safe_natural? answer)) [
  | inl bad ↦ ground arith
  | inr (n, e) ↦ ground arith
]
finish_load_with-publication texts s o (throw e) = refl

accept-publication :
    (s : Session) (id : String) (value : Number)
    → (accept_verified_owner_epoch s id value).0.owner_publication ≡ s.owner_publication
unfolding accept_verified_owner_epoch accept_epoch
accept-publication s id value = elim (Option-cases (safe_natural? value)) [
  | inl bad ↦ ground arith
  | inr (n, e) ↦ ground arith
]

popup-publication :
    (hostname : String) (s : Session) (outcome : Outcome Thrown (Unit {0}))
    → (finish_popup hostname s outcome).0.owner_publication ≡ s.owner_publication
unfolding finish_popup end_sign_in publish_error
popup-publication hostname s (ok tt) = refl
popup-publication hostname s (throw e) = ground arith

redirect-publication :
    (s : Session) (outcome : Outcome Thrown (Unit {0}))
    → (finish_redirect s outcome).0.owner_publication ≡ s.owner_publication
unfolding finish_redirect end_sign_in publish_error
redirect-publication s (ok tt) = refl
redirect-publication s (throw e) = refl

module _ (texts : Texts) (hostname : String) where
  step-publication :
      (s : Session) (event : Event)
      → s.owner_publication ≤ (step texts hostname s event).owner_publication
  unfolding step begin_observation stop publish_anonymous owner_timer_fires on_owner_error observed
      on_owner settle_epoch begin_sign_in settle_popup settle_redirect begin_sign_out
      settle_sign_out end_sign_out publish_error clear_error
  step-publication s started = ground arith
  step-publication s stopped = ground arith
  step-publication s (timer_fired g) = ground arith
  step-publication s (subscribed g (ok tt)) = ground arith
  step-publication s (subscribed g (throw e)) = ground arith
  step-publication s (owner_changed g none) = ground arith
  step-publication s (owner_changed g (some o)) = ground arith
  step-publication s (owner_failed g e) = ground arith
  step-publication s (epoch_loaded load answer) =
      ground (arith, finish_load_with-publication texts s load.owner answer)
  step-publication s (epoch_verified id value) = omega (arith, accept-publication s id value)
  step-publication s sign_in_called = ground arith
  step-publication s sign_out_called = ground arith
  step-publication s (popup_ended outcome) =
      omega (arith, popup-publication hostname s (wait_bounded outcome))
  step-publication s (redirect_ended outcome) =
      omega (arith, redirect-publication s (wait_bounded outcome))
  step-publication s (sign_out_ended (ok tt)) = ground arith
  step-publication s (sign_out_ended (throw e)) = ground arith
  step-publication s error_cleared = ground arith

  run-publication :
      (s : Session) (events : List Event)
      → s.owner_publication ≤ (run texts hostname s events).owner_publication
  unfolding run
  run-publication s [] = ground arith
  run-publication s (event ∷ events) =
      omega (arith, step-publication s event, run-publication (step texts hostname s event) events)

  supersedes-publication :
      (s : Session) (event : Event)
      → supersedes s event ≡ true
      → s.owner_publication < (step texts hostname s event).owner_publication
  unfolding step supersedes begin_observation stop publish_anonymous on_owner_error on_owner
      begin_sign_out
  supersedes-publication s started h = ground arith
  supersedes-publication s stopped h = ground arith
  supersedes-publication s (owner_changed g none) h = ground arith
  supersedes-publication s (owner_changed g (some o)) h = ground arith
  supersedes-publication s (owner_failed g e) h = ground arith
  supersedes-publication s sign_out_called h = ground arith
  supersedes-publication s _ h = absurd (ground arith)

  run-++ :
      (s : Session) (before after : List Event)
      → run texts hostname s (before ++ after)
        ≡ run texts hostname (run texts hostname s before) after
  unfolding run
  run-++ s [] after = refl
  run-++ s (event ∷ before) after = run-++ (step texts hostname s event) before after

  on_owner-publication :
      (s : Session) (g : ℕ) (o : IdentityOwner) (load : Load)
      → (on_owner s g (some o)).1 ≡ some load
      → load.publication ≡ (on_owner s g (some o)).0.owner_publication
  unfolding on_owner
  on_owner-publication s g o load h = ground arith

  old_load :
      (s : Session) (load : Load) (answer : Outcome Thrown Number)
      → load.publication < s.owner_publication
      → settle_epoch texts s load answer ≡ s
  unfolding settle_epoch
  old_load s load answer h = ground arith

  -- Once a later owner, an error of the observation, a sign-out that begins, a new start or a stop
  -- has come, the answer to an earlier load of an owner's epoch changes nothing of the session,
  -- whatever it is and whatever else happened in between.
  pub superseded_load_ignored :
      (s : Session) (g : ℕ) (o : IdentityOwner) (load : Load) (before : List Event) (event : Event)
      (after : List Event) (answer : Outcome Thrown Number)
      → (on_owner s g (some o)).1 ≡ some load
      → supersedes (run texts hostname (on_owner s g (some o)).0 before) event ≡ true
      → let late = run texts hostname (on_owner s g (some o)).0 (before ++ event ∷ after) in
        settle_epoch texts late load answer ≡ late
  unfolding run
  superseded_load_ignored s g o load before event after answer asked h =
      let waiting = (on_owner s g (some o)).0 in
      let here = run texts hostname waiting before in
      old_load (run texts hostname waiting (before ++ event ∷ after)) load answer (
        rw (run-++ waiting before (event ∷ after)) (
          omega (
            arith,
            on_owner-publication s g o load asked,
            run-publication waiting before,
            supersedes-publication here event h,
            run-publication (step texts hostname here event) after,
          )))
