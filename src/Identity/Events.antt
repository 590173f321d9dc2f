-- ===== src/Identity/Events.antt =====
-- Everything that may happen to a session of identitySessionController.ts, in any order: the calls
-- of its user, and the ends of the waits of its adapter.
use flash_card.Prelude.{
  ℕ, Bool, true, false, not, ◌&&◌, ◌==◌, Option, List, [], ◌∷◌, String, Outcome,
}
use flash_card.Prelude.Number.{Number}
use flash_card.Identity.CloudError.{Texts, Thrown}
use flash_card.Identity.Session.{IdentityOwner, Session}
use flash_card.Identity.Observation.{
  stop, begin_observation, owner_timer_fires, on_owner_error, observed, Load, on_owner,
  settle_epoch, accept_verified_owner_epoch,
}
use flash_card.Identity.SignIn.{
  begin_sign_in, settle_popup, settle_redirect, begin_sign_out, settle_sign_out, clear_error,
}

pub data Event : Type 0 where
  started stopped : Event
  timer_fired : ℕ → Event
  subscribed : ℕ → Outcome Thrown (Unit {0}) → Event
  owner_changed : ℕ → Option IdentityOwner → Event
  owner_failed : ℕ → Thrown → Event
  epoch_loaded : Load → Outcome Thrown Number → Event
  epoch_verified : String → Number → Event
  sign_in_called sign_out_called : Event
  popup_ended : Option (Outcome Thrown (Unit {0})) → Event
  redirect_ended : Option (Outcome Thrown (Unit {0})) → Event
  sign_out_ended : Outcome Thrown (Unit {0}) → Event
  error_cleared : Event

module _ (texts : Texts) (hostname : String) where
  unfoldable pub step : Session → Event → Session
  step s started = begin_observation s
  step s stopped = stop s
  step s (timer_fired observation) = owner_timer_fires s observation
  step s (subscribed observation outcome) = observed s observation outcome
  step s (owner_changed observation o) = (on_owner s observation o).0
  step s (owner_failed observation e) = on_owner_error s observation e
  step s (epoch_loaded load answer) = settle_epoch texts s load answer
  step s (epoch_verified owner_id value) = (accept_verified_owner_epoch s owner_id value).0
  step s sign_in_called = (begin_sign_in s).0
  step s sign_out_called = (begin_sign_out s).0
  step s (popup_ended outcome) = (settle_popup hostname s outcome).0
  step s (redirect_ended outcome) = (settle_redirect s outcome).0
  step s (sign_out_ended outcome) = (settle_sign_out s outcome).0
  step s error_cleared = clear_error s

  unfoldable pub run : Session → List Event → Session
  run s [] = s
  run s (event ∷ events) = run (step s event) events

-- The events that make a load that waits be of no more use.
unfoldable pub supersedes : Session → Event → Bool
supersedes s started = true
supersedes s stopped = true
supersedes s (owner_changed observation o) = observation == s.observation_generation
supersedes s (owner_failed observation e) = observation == s.observation_generation
supersedes s sign_out_called = s.available && not s.signing_out
supersedes s _ = false
