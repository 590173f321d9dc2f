-- ===== src/Identity/Invariant.antt =====
-- What holds of a session of identitySessionController.ts after any events.
use flash_card.Prelude.{
  ℕ, ◌≡◌, ◌≢◌, ◌≤◌, refl, Bool, Option, none, some, List, [], ◌∷◌, String, Outcome, ok, throw,
  is_some, Option-cases, inl, inr, arith,
}
use flash_card.Prelude.Number.{Number, max_safe_integer, safe_natural?, safe_natural?_bounds}
use flash_card.Identity.CloudError.{Texts, Thrown}
use flash_card.Identity.Session.{
  IdentityOwner, OwnerEpoch, anonymous, authenticated, Session, create_identity_session_controller,
  publish_anonymous, publish_error, wait_bounded,
}
use flash_card.Identity.Observation.{
  stop, begin_observation, owner_timer_fires, on_owner_error, observed, Load, on_owner,
  publish_failed_epoch, publish_epoch, finish_load, finish_load_with, settle_epoch, accept_epoch,
  accept_verified_owner_epoch,
}
use flash_card.Identity.SignIn.{
  begin_sign_in, end_sign_in, finish_popup, settle_popup, finish_redirect, settle_redirect,
  begin_sign_out, end_sign_out, settle_sign_out, clear_error,
}
use flash_card.Identity.Events.{
  Event, started, stopped, timer_fired, subscribed, owner_changed, owner_failed, epoch_loaded,
  epoch_verified, sign_in_called, sign_out_called, popup_ended, redirect_ended, sign_out_ended,
  error_cleared, step, run,
}

-- A known epoch is of the present owner, and is a safe integer.
abbrev pub IsOwnEpoch : Option IdentityOwner → Option OwnerEpoch → Type 0
IsOwnEpoch o none = Unit
IsOwnEpoch none (some e) = ⊥
IsOwnEpoch (some o) (some e) = (o.id ≡ e.owner_id) × (e.value ≤ max_safe_integer)

pub record IsCoherent (s : Session) : Type 0 where
  pub publishes : s.snapshot.can_publish_mutations ≡ is_some s.snapshot.owner_epoch
  pub epoch_is_own : IsOwnEpoch s.snapshot.owner s.snapshot.owner_epoch
  pub authenticated_owner : s.snapshot.status ≡ authenticated → s.snapshot.owner ≢ none
  pub anonymous_owner : s.snapshot.status ≡ anonymous → s.snapshot.owner ≡ none
  pub shows_sign_in : s.snapshot.is_signing_in ≡ s.signing_in
  pub shows_sign_out : s.snapshot.is_signing_out ≡ s.signing_out
  pub timer_is_current : (g : ℕ) → s.timer ≡ some g → g ≡ s.observation_generation

begin_observation-IsCoherent : (s : Session) → IsCoherent s → IsCoherent (begin_observation s)
unfolding begin_observation publish_anonymous stop
begin_observation-IsCoherent s v = ground arith

owner_timer_fires-IsCoherent :
    (s : Session) (g : ℕ) → IsCoherent s → IsCoherent (owner_timer_fires s g)
unfolding owner_timer_fires publish_anonymous
owner_timer_fires-IsCoherent s g v = ground arith

on_owner_error-IsCoherent :
    (s : Session) (g : ℕ) (e : Thrown) → IsCoherent s → IsCoherent (on_owner_error s g e)
unfolding on_owner_error
on_owner_error-IsCoherent s g e v = elim (Option-cases s.snapshot.owner) [
  | inl none_yet ↦ ground arith
  | inr (o, present) ↦ ground arith
]

observed-IsCoherent :
    (s : Session) (g : ℕ) (outcome : Outcome Thrown (Unit {0}))
    → IsCoherent s
    → IsCoherent (observed s g outcome)
unfolding observed
observed-IsCoherent s g (ok tt) v = ground arith
observed-IsCoherent s g (throw e) v = ground (arith, on_owner_error-IsCoherent s g e v)

on_owner-IsCoherent :
    (s : Session) (g : ℕ) (owner : Option IdentityOwner)
    → IsCoherent s
    → IsCoherent (on_owner s g owner).0
unfolding on_owner publish_anonymous
on_owner-IsCoherent s g none v = ground arith
on_owner-IsCoherent s g (some o) v = ground arith

finish_load-IsCoherent :
    (texts : Texts) (s : Session) (o : IdentityOwner) (epoch : Option ℕ)
    → ((n : ℕ) → epoch ≡ some n → n ≤ max_safe_integer)
    → IsCoherent s
    → IsCoherent (finish_load texts s o epoch)
unfolding finish_load publish_failed_epoch publish_epoch
finish_load-IsCoherent texts s o none bound v = ground arith
finish_load-IsCoherent texts s o (some n) bound v = ground (arith, bound n refl)

settle_epoch-IsCoherent :
    (texts : Texts) (s : Session) (load : Load) (answer : Outcome Thrown Number)
    → IsCoherent s
    → IsCoherent (settle_epoch texts s load answer)
unfolding settle_epoch finish_load_with publish_failed_epoch
settle_epoch-IsCoherent texts s load (ok answer) v = ground (
  arith,
  finish_load-IsCoherent texts s load.owner (safe_natural? answer) (safe_natural?_bounds answer) v,
)
settle_epoch-IsCoherent texts s load (throw e) v = ground arith

accept-IsCoherent :
    (s : Session) (id : String) (value : Number)
    → IsCoherent s
    → IsCoherent (accept_verified_owner_epoch s id value).0
unfolding accept_verified_owner_epoch accept_epoch
accept-IsCoherent s id value v = elim (Option-cases (safe_natural? value)) [
  | inl bad ↦ ground arith
  | inr (n, e) ↦ ground (arith, safe_natural?_bounds value n e)
]

begin_sign_in-IsCoherent : (s : Session) → IsCoherent s → IsCoherent (begin_sign_in s).0
unfolding begin_sign_in publish_error
begin_sign_in-IsCoherent s v = ground arith

settle_popup-IsCoherent :
    (hostname : String) (s : Session) (outcome : Outcome Thrown (Unit {0}))
    → IsCoherent s
    → IsCoherent (finish_popup hostname s outcome).0
unfolding finish_popup end_sign_in publish_error
settle_popup-IsCoherent hostname s (ok tt) v = ground arith
settle_popup-IsCoherent hostname s (throw e) v = ground arith

settle_redirect-IsCoherent :
    (s : Session) (outcome : Outcome Thrown (Unit {0}))
    → IsCoherent s
    → IsCoherent (finish_redirect s outcome).0
unfolding finish_redirect end_sign_in publish_error
settle_redirect-IsCoherent s (ok tt) v = ground arith
settle_redirect-IsCoherent s (throw e) v = ground arith

begin_sign_out-IsCoherent : (s : Session) → IsCoherent s → IsCoherent (begin_sign_out s).0
unfolding begin_sign_out
begin_sign_out-IsCoherent s v = ground arith

settle_sign_out-IsCoherent :
    (s : Session) (outcome : Outcome Thrown (Unit {0}))
    → IsCoherent s
    → IsCoherent (settle_sign_out s outcome).0
unfolding settle_sign_out end_sign_out publish_error publish_anonymous
settle_sign_out-IsCoherent s (ok tt) v = ground arith
settle_sign_out-IsCoherent s (throw e) v = ground arith

module _ (texts : Texts) (hostname : String) where
  step-IsCoherent :
      (s : Session) (event : Event) → IsCoherent s → IsCoherent (step texts hostname s event)
  unfolding step settle_popup settle_redirect clear_error publish_error stop
  step-IsCoherent s started v = begin_observation-IsCoherent s v
  step-IsCoherent s stopped v = ground arith
  step-IsCoherent s (timer_fired g) v = owner_timer_fires-IsCoherent s g v
  step-IsCoherent s (subscribed g outcome) v = observed-IsCoherent s g outcome v
  step-IsCoherent s (owner_changed g owner) v = on_owner-IsCoherent s g owner v
  step-IsCoherent s (owner_failed g e) v = on_owner_error-IsCoherent s g e v
  step-IsCoherent s (epoch_loaded load answer) v = settle_epoch-IsCoherent texts s load answer v
  step-IsCoherent s (epoch_verified id value) v = accept-IsCoherent s id value v
  step-IsCoherent s sign_in_called v = begin_sign_in-IsCoherent s v
  step-IsCoherent s sign_out_called v = begin_sign_out-IsCoherent s v
  step-IsCoherent s (popup_ended outcome) v =
      settle_popup-IsCoherent hostname s (wait_bounded outcome) v
  step-IsCoherent s (redirect_ended outcome) v =
      settle_redirect-IsCoherent s (wait_bounded outcome) v
  step-IsCoherent s (sign_out_ended outcome) v = settle_sign_out-IsCoherent s outcome v
  step-IsCoherent s error_cleared v = ground arith

  run-IsCoherent :
      (s : Session) (events : List Event) → IsCoherent s → IsCoherent (run texts hostname s events)
  unfolding run
  run-IsCoherent s [] v = v
  run-IsCoherent s (event ∷ events) v =
      run-IsCoherent (step texts hostname s event) events (step-IsCoherent s event v)

  -- After any events at all, a session allows cloud mutations exactly while it knows an epoch; that
  -- epoch is a safe integer and is the present owner's; a session shown as authenticated has an
  -- owner and one shown as anonymous has none; what it shows of a sign-in or a sign-out is what is
  -- under way; and the timer of the first owner runs for the current observation only.
  pub create_run-IsCoherent :
      (available : Bool) (events : List Event)
      → IsCoherent (run texts hostname (create_identity_session_controller available) events)
  unfolding create_identity_session_controller
  create_run-IsCoherent available events =
      run-IsCoherent (create_identity_session_controller available) events (ground arith)
