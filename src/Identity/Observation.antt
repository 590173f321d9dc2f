-- ===== src/Identity/Observation.antt =====
-- `start` and `stop` of the session, and what the observation that `start` begins calls: the timer
-- of the first owner, `onOwner` before and after it has loaded the owner's epoch, `onOwnerError`;
-- and `acceptVerifiedOwnerEpoch`.
use flash_card.Prelude.{
  ℕ, ◌+◌, Bool, true, false, not, ◌&&◌, ◌||◌, Option, none, some, ◌∷◌, String, Outcome, ok, throw,
  is_some, ltb, ◌==◌, if◌then◌else◌,
}
use flash_card.Prelude.Number.{Number, safe_natural?}
use flash_card.Identity.CloudError.{Texts, Thrown}
use flash_card.Identity.Session.{
  IdentityOwner, OwnerEpoch, loading, anonymous, authenticated, Session, is_loading,
  owner_timeout_error, message_or, owner_epoch_failure_message, null_failure, publish_anonymous,
  is_owner, accepted_epoch,
}

unfoldable pub stop : Session → Session
stop s = record s {
  observation_generation = s.observation_generation + 1;
  owner_publication = s.owner_publication + 1;
  timer = none;
  observing = false;
}

-- `start` up to its call of `observeOwner`.
unfoldable pub begin_observation : Session → Session
unfolding stop publish_anonymous
begin_observation s =
    let stopped = stop s in
    if not s.available then publish_anonymous stopped none else record stopped {
      snapshot = record s.snapshot { status = loading; error = none };
      timer = some stopped.observation_generation;
    }

unfoldable pub owner_timer_fires : Session → (observation : ℕ) → Session
unfolding publish_anonymous
owner_timer_fires s observation =
    let fired = record s { timer = none } in
    if not (observation == s.observation_generation)
    then s
    else if not (is_some s.snapshot.owner) && is_loading s.snapshot.status
    then publish_anonymous fired (some owner_timeout_error)
    else fired

unfoldable pub on_owner_error : Session → (observation : ℕ) → Thrown → Session
unfolding message_or
on_owner_error s observation e =
    if not (observation == s.observation_generation) then s else record s {
      timer = none;
      owner_publication = s.owner_publication + 1;
      snapshot = record s.snapshot {
        status = if is_some s.snapshot.owner then authenticated else anonymous;
        owner_epoch = none;
        can_publish_mutations = false;
        error = some (message_or "Could not restore your cloud session." e);
      };
    }

-- What `observeOwner` came to. The callbacks may be called before.
unfoldable pub observed : Session → (observation : ℕ) → Outcome Thrown (Unit {0}) → Session
observed s observation (ok tt) = record s { observing = true }
observed s observation (throw e) = record (on_owner_error s observation e) { observing = false }

-- A load of the epoch that waits: who asked for it.
pub record Load : Type 0 where
  pub observation : ℕ
  pub publication : ℕ
  pub owner : IdentityOwner

-- `onOwner` up to its `await`.
unfoldable pub on_owner : Session → (observation : ℕ) → Option IdentityOwner → Session × Option Load
unfolding publish_anonymous
on_owner s observation none = if not (observation == s.observation_generation) then (s, none) else (
  publish_anonymous (record s { timer = none; owner_publication = s.owner_publication + 1 }) none,
  none,
)
on_owner s observation (some o) =
    if not (observation == s.observation_generation) then (s, none) else (
      record s {
        timer = none;
        owner_publication = s.owner_publication + 1;
        snapshot =
            if is_owner s.snapshot.owner o.id
            then record s.snapshot { status = authenticated; owner = some o; error = none }
            else record s.snapshot {
              status = authenticated;
              owner = some o;
              owner_epoch = none;
              can_publish_mutations = false;
              error = none;
            };
      },
      some (record { observation = observation; publication = s.owner_publication + 1; owner = o }),
    )

abbrev pub is_stale : Session → Load → Bool
is_stale s load =
    not (load.observation == s.observation_generation)
    || not (load.publication == s.owner_publication)

-- `acceptedEpoch !== null && refreshedEpoch < acceptedEpoch`
abbrev pub is_below : ℕ → Option ℕ → Bool
is_below epoch none = false
is_below epoch (some known) = ltb epoch known

unfoldable pub publish_failed_epoch : Session → IdentityOwner → String → Session
publish_failed_epoch s o message = record s {
  snapshot = record s.snapshot {
    status = authenticated;
    owner = some o;
    owner_epoch = none;
    can_publish_mutations = false;
    error = some message;
  };
}

unfoldable pub publish_epoch : Session → IdentityOwner → ℕ → Session
publish_epoch s o epoch =
    let known : OwnerEpoch = record { owner_id = o.id; value = epoch } in
    record s {
      cached = known ∷ s.cached;
      snapshot = record s.snapshot {
        status = authenticated;
        owner = some o;
        owner_epoch = some known;
        can_publish_mutations = true;
        error = none;
      };
    }

module _ (texts : Texts) where
  -- A load that was answered and whose number is an epoch, or is none.
  unfoldable pub finish_load : Session → IdentityOwner → Option ℕ → Session
  unfolding owner_epoch_failure_message
  finish_load s o none = publish_failed_epoch s o (owner_epoch_failure_message texts null_failure)
  finish_load s o (some epoch) =
      if is_below epoch (accepted_epoch s.snapshot.owner_epoch o.id)
      then s
      else publish_epoch s o epoch

  unfoldable pub finish_load_with : Session → IdentityOwner → Outcome Thrown Number → Session
  unfolding owner_epoch_failure_message
  finish_load_with s o (ok answer) = finish_load s o (safe_natural? answer)
  finish_load_with s o (throw e) = publish_failed_epoch s o (owner_epoch_failure_message texts e)

  -- `onOwner` from its `await` on.
  unfoldable pub settle_epoch : Session → Load → Outcome Thrown Number → Session
  settle_epoch s load answer = if is_stale s load then s else finish_load_with s load.owner answer

unfoldable pub accept_epoch : Session → String → ℕ → Session × Bool
accept_epoch s owner_id epoch =
    let known : OwnerEpoch = record { owner_id = owner_id; value = epoch } in
    if not (is_owner s.snapshot.owner owner_id)
      || is_below epoch (accepted_epoch s.snapshot.owner_epoch owner_id)
    then (s, false)
    else (
      record s {
        cached = known ∷ s.cached;
        snapshot = record s.snapshot {
          owner_epoch = some known;
          can_publish_mutations = true;
          error = none;
        };
      },
      true,
    )

unfoldable pub accept_verified_owner_epoch : Session → String → Number → Session × Bool
accept_verified_owner_epoch s owner_id value = elim (safe_natural? value) [
  | none ↦ (s, false)
  | some epoch ↦ accept_epoch s owner_id epoch
]
