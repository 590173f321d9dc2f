-- ===== src/Identity/Epochs.antt =====
-- The epochs that a session of identitySessionController.ts takes: in which order, and on whose word.
use flash_card.Prelude.{
  ℕ, ◌≡◌, ◌≤◌, ◌↔◌, inl, inr, refl, true, false, Option, none, some, String, Outcome, ok, throw,
  Option-cases, arith,
}
use flash_card.Prelude.Number.{Number, safe_natural?}
use flash_card.Identity.CloudError.{Texts, Thrown}
use flash_card.Identity.Session.{
  IdentityOwner, OwnerEpoch, Session, publish_anonymous, publish_error, wait_bounded, is_owner,
  accepted_epoch,
}
use flash_card.Identity.Observation.{
  stop, begin_observation, owner_timer_fires, on_owner_error, observed, Load, on_owner,
  publish_failed_epoch, publish_epoch, finish_load, finish_load_with, settle_epoch, accept_epoch,
  is_below, accept_verified_owner_epoch,
}
use flash_card.Identity.SignIn.{
  begin_sign_in, end_sign_in, finish_popup, settle_popup, finish_redirect, settle_redirect,
  begin_sign_out, end_sign_out, settle_sign_out, clear_error,
}
use flash_card.Identity.Events.{
  Event, started, stopped, timer_fired, subscribed, owner_changed, owner_failed, epoch_loaded,
  epoch_verified, sign_in_called, sign_out_called, popup_ended, redirect_ended, sign_out_ended,
  error_cleared, step,
}

-- From a known epoch to a known epoch of the same owner, it goes up or stays.
abbrev pub IsForward : Option OwnerEpoch → Option OwnerEpoch → Type 0
IsForward none later = Unit
IsForward (some e) none = Unit
IsForward (some e) (some later) = e.owner_id ≡ later.owner_id → e.value ≤ later.value

IsForward-self : (o : Option OwnerEpoch) → IsForward o o
IsForward-self none = tt
IsForward-self (some e) = λ same_owner. omega arith

IsForward-none : (o : Option OwnerEpoch) → IsForward o none
IsForward-none none = tt
IsForward-none (some e) = tt

-- An epoch that is not below the accepted one of its owner.
IsForward-accepted :
    (o : Option OwnerEpoch) (id : String) (n : ℕ)
    → is_below n (accepted_epoch o id) ≡ false
    → IsForward o (some (record { owner_id = id; value = n }))
unfolding accepted_epoch
IsForward-accepted none id n h = tt
IsForward-accepted (some e) id n h = λ same_owner. ground arith

begin_observation-IsForward :
    (s : Session) → IsForward s.snapshot.owner_epoch (begin_observation s).snapshot.owner_epoch
unfolding begin_observation publish_anonymous stop
begin_observation-IsForward s =
    ground (arith, IsForward-self s.snapshot.owner_epoch, IsForward-none s.snapshot.owner_epoch)

timer-IsForward :
    (s : Session) (g : ℕ)
    → IsForward s.snapshot.owner_epoch (owner_timer_fires s g).snapshot.owner_epoch
unfolding owner_timer_fires publish_anonymous
timer-IsForward s g =
    ground (arith, IsForward-self s.snapshot.owner_epoch, IsForward-none s.snapshot.owner_epoch)

on_owner_error-IsForward :
    (s : Session) (g : ℕ) (e : Thrown)
    → IsForward s.snapshot.owner_epoch (on_owner_error s g e).snapshot.owner_epoch
unfolding on_owner_error
on_owner_error-IsForward s g e =
    ground (arith, IsForward-self s.snapshot.owner_epoch, IsForward-none s.snapshot.owner_epoch)

observed-IsForward :
    (s : Session) (g : ℕ) (outcome : Outcome Thrown (Unit {0}))
    → IsForward s.snapshot.owner_epoch (observed s g outcome).snapshot.owner_epoch
unfolding observed
observed-IsForward s g (ok tt) = IsForward-self s.snapshot.owner_epoch
observed-IsForward s g (throw e) = on_owner_error-IsForward s g e

on_owner-IsForward :
    (s : Session) (g : ℕ) (owner : Option IdentityOwner)
    → IsForward s.snapshot.owner_epoch (on_owner s g owner).0.snapshot.owner_epoch
unfolding on_owner publish_anonymous
on_owner-IsForward s g none =
    ground (arith, IsForward-self s.snapshot.owner_epoch, IsForward-none s.snapshot.owner_epoch)
on_owner-IsForward s g (some o) =
    ground (arith, IsForward-self s.snapshot.owner_epoch, IsForward-none s.snapshot.owner_epoch)

finish_load-IsForward :
    (texts : Texts) (s : Session) (o : IdentityOwner) (answer : Outcome Thrown Number)
    → IsForward s.snapshot.owner_epoch (finish_load_with texts s o answer).snapshot.owner_epoch
unfolding finish_load_with finish_load publish_failed_epoch publish_epoch
finish_load-IsForward texts s o (ok answer) = elim (Option-cases (safe_natural? answer)) [
  | inl bad ↦ ground (arith, IsForward-none s.snapshot.owner_epoch)
  | inr (n, e) ↦ ground (
    arith,
    IsForward-self s.snapshot.owner_epoch,
    IsForward-accepted s.snapshot.owner_epoch o.id n,
  )
]
finish_load-IsForward texts s o (throw e) = IsForward-none s.snapshot.owner_epoch

settle_epoch-IsForward :
    (texts : Texts) (s : Session) (load : Load) (answer : Outcome Thrown Number)
    → IsForward s.snapshot.owner_epoch (settle_epoch texts s load answer).snapshot.owner_epoch
unfolding settle_epoch
settle_epoch-IsForward texts s load answer =
    ground (
      arith,
      IsForward-self s.snapshot.owner_epoch,
      finish_load-IsForward texts s load.owner answer,
    )

accept-IsForward :
    (s : Session) (id : String) (value : Number)
    → IsForward s.snapshot.owner_epoch
        (accept_verified_owner_epoch s id value).0.snapshot.owner_epoch
unfolding accept_verified_owner_epoch accept_epoch
accept-IsForward s id value = elim (Option-cases (safe_natural? value)) [
  | inl bad ↦ ground (arith, IsForward-self s.snapshot.owner_epoch)
  | inr (n, e) ↦
      ground (
        arith,
        IsForward-self s.snapshot.owner_epoch,
        IsForward-accepted s.snapshot.owner_epoch id n,
      )
]

popup-IsForward :
    (hostname : String) (s : Session) (outcome : Outcome Thrown (Unit {0}))
    → (finish_popup hostname s outcome).0.snapshot.owner_epoch ≡ s.snapshot.owner_epoch
unfolding finish_popup end_sign_in publish_error
popup-IsForward hostname s (ok tt) = refl
popup-IsForward hostname s (throw e) = ground arith

redirect-IsForward :
    (s : Session) (outcome : Outcome Thrown (Unit {0}))
    → (finish_redirect s outcome).0.snapshot.owner_epoch ≡ s.snapshot.owner_epoch
unfolding finish_redirect end_sign_in publish_error
redirect-IsForward s (ok tt) = refl
redirect-IsForward s (throw e) = refl

module _ (texts : Texts) (hostname : String) where
  -- Whatever happens to a session, in one step the epoch that it knows of an owner never goes down:
  -- where it knows an epoch before and one of the same owner after, that is no smaller.
  pub step-IsForward :
      (s : Session) (event : Event)
      → IsForward s.snapshot.owner_epoch (step texts hostname s event).snapshot.owner_epoch
  unfolding step stop begin_sign_in settle_popup settle_redirect begin_sign_out settle_sign_out
      end_sign_out publish_error clear_error publish_anonymous
  step-IsForward s started = begin_observation-IsForward s
  step-IsForward s stopped = IsForward-self s.snapshot.owner_epoch
  step-IsForward s (timer_fired g) = timer-IsForward s g
  step-IsForward s (subscribed g outcome) = observed-IsForward s g outcome
  step-IsForward s (owner_changed g owner) = on_owner-IsForward s g owner
  step-IsForward s (owner_failed g e) = on_owner_error-IsForward s g e
  step-IsForward s (epoch_loaded load answer) = settle_epoch-IsForward texts s load answer
  step-IsForward s (epoch_verified id value) = accept-IsForward s id value
  step-IsForward s sign_in_called = ground (arith, IsForward-self s.snapshot.owner_epoch)
  step-IsForward s sign_out_called = ground (arith, IsForward-self s.snapshot.owner_epoch)
  step-IsForward s (popup_ended outcome) =
      rw (popup-IsForward hostname s (wait_bounded outcome)) (IsForward-self s.snapshot.owner_epoch)
  step-IsForward s (redirect_ended outcome) =
      rw (redirect-IsForward s (wait_bounded outcome)) (IsForward-self s.snapshot.owner_epoch)
  step-IsForward s (sign_out_ended (ok tt)) = IsForward-none s.snapshot.owner_epoch
  step-IsForward s (sign_out_ended (throw e)) = IsForward-self s.snapshot.owner_epoch
  step-IsForward s error_cleared = IsForward-self s.snapshot.owner_epoch

-- A verified epoch is accepted exactly if it is a safe natural number, the session's owner is the
-- one it is of, and no greater epoch of that owner is known; then mutations are allowed with it, and
-- otherwise nothing changes.
pub accept_verified_owner_epoch-accepts_iff :
    (s : Session) (id : String) (value : Number)
    → (((accept_verified_owner_epoch s id value).1 ≡ true) ↔ (
        (n : ℕ) × (safe_natural? value ≡ some n)
        × (is_owner s.snapshot.owner id ≡ true)
        × (is_below n (accepted_epoch s.snapshot.owner_epoch id) ≡ false)
        × ((accept_verified_owner_epoch s id value).0.snapshot.owner_epoch
            ≡ some (record { owner_id = id; value = n }))
        × ((accept_verified_owner_epoch s id value).0.snapshot.can_publish_mutations ≡ true)))
      × ((accept_verified_owner_epoch s id value).1 ≡ false
          → (accept_verified_owner_epoch s id value).0 ≡ s)
unfolding accept_verified_owner_epoch accept_epoch
accept_verified_owner_epoch-accepts_iff s id value = elim (Option-cases (safe_natural? value)) [
  | inl bad ↦ ground arith
  | inr (n, e) ↦ ground arith
]
