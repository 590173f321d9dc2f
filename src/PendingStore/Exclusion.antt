-- ===== src/PendingStore/Exclusion.antt =====
-- The flush lease of src/lib/pendingOperationStore.ts under calls by several tabs.
use flash_card.Prelude.{
  ℕ, ◌+◌, ◌≤◌, ◌<◌, ◌≡◌, ◌≢◌, ◌↔◌, ◌⊎◌, inl, inr, Bool, true, false, Option, none, some, List, [],
  ◌∷◌, String, All, arith, Option-cases,
}
use flash_card.Prelude.Text.{text_discrete}
use flash_card.Prelude.Keyed
use flash_card.PendingStore.Lease.{
  PendingFlushLease, Leases, lease_of, acquire_stored_pending_flush_lease,
  renew_stored_pending_flush_lease, assert_stored_pending_flush_lease,
  release_stored_pending_flush_lease,
}

-- After an acquisition that succeeds, the token is held until the lease expires, and no other is.
pub acquire-holds :
    (leases : Leases) (user_id token other : String) (now duration_ms later : ℕ) (force : Bool)
    {lease : PendingFlushLease}
    → (acquire_stored_pending_flush_lease leases user_id token now duration_ms force).1 ≡ some lease
    → (assert_stored_pending_flush_lease
          (acquire_stored_pending_flush_lease leases user_id token now duration_ms force).0
          user_id
          other
          later
        ≡ true)
      ↔ ((other ≡ token) × (later < now + duration_ms))
unfolding acquire_stored_pending_flush_lease assert_stored_pending_flush_lease
acquire-holds leases user_id token other now duration_ms later force {lease} h = ground (
  arith,
  Keyed.get-put_self text_discrete user_id
      (record { token = token; expires_at = now + duration_ms }) leases,
)

-- An acquisition is refused exactly while another lease runs and it does not force its way.
pub acquire-refused_iff :
    (leases : Leases) (user_id token : String) (now duration_ms : ℕ) (force : Bool)
    → ((acquire_stored_pending_flush_lease leases user_id token now duration_ms force).1 ≡ none) ↔ (
        (lease : PendingFlushLease) × (lease_of user_id leases ≡ some lease)
        × (now < lease.expires_at)
        × (force ≡ false))
unfolding acquire_stored_pending_flush_lease
acquire-refused_iff leases user_id token now duration_ms force =
    elim (Option-cases (lease_of user_id leases)) [
      | inl free ↦ (λ h. absurd (ground arith), λ h. ground arith)
      | inr (lease, taken) ↦ (λ h. (lease, taken, ground arith, ground arith), λ h. ground arith)
    ]

-- What tabs call, for one user or another.
pub data Call : Type 0 where
  acquire : (user_id token : String) (now duration_ms : ℕ) (force : Bool) → Call
  renew : (user_id token : String) (now duration_ms : ℕ) → Call
  check : (user_id token : String) (now : ℕ) → Call
  release : (user_id token : String) → Call

pub data Reply : Type 0 where
  lease : Option PendingFlushLease → Reply
  holds : Bool → Reply
  done : Reply

unfoldable pub step : Leases → Call → Leases × Reply
step leases (acquire user_id token now duration_ms force) =
    let (leases', got) =
      acquire_stored_pending_flush_lease leases user_id token now duration_ms force in
    (leases', lease got)
step leases (renew user_id token now duration_ms) =
    let (leases', got) = renew_stored_pending_flush_lease leases user_id token now duration_ms in
    (leases', lease got)
step leases (check user_id token now) =
    (leases, holds (assert_stored_pending_flush_lease leases user_id token now))
step leases (release user_id token) =
    (release_stored_pending_flush_lease leases user_id token, done)

unfoldable pub run : Leases → List Call → Leases
run leases [] = leases
run leases (call ∷ calls) = run (step leases call).0 calls

-- A call of another tab while the lease of `user_id` runs. It is for another user, or a check, or it
-- acquires without force at a time before the expiry, or it renews or releases with another token.
abbrev pub IsForeign : String → PendingFlushLease → Call → Type 0
IsForeign user_id held (acquire user token now duration_ms force) =
    (user ≢ user_id) ⊎ ((now < held.expires_at) × (force ≡ false))
IsForeign user_id held (renew user token now duration_ms) = (user ≢ user_id) ⊎ (token ≢ held.token)
IsForeign user_id held (check user token now) = Unit
IsForeign user_id held (release user token) = (user ≢ user_id) ⊎ (token ≢ held.token)

step-keeps :
    (leases : Leases) (user_id : String) (held : PendingFlushLease) (call : Call)
    → lease_of user_id leases ≡ some held
    → IsForeign user_id held call
    → lease_of user_id (step leases call).0 ≡ some held
unfolding step
step-keeps leases user_id held (acquire user token now duration_ms force) h f =
    unfold acquire_stored_pending_flush_lease in
    ground (
      arith,
      Keyed.get-put text_discrete user user_id
          (record { token = token; expires_at = now + duration_ms }) leases,
    )
step-keeps leases user_id held (renew user token now duration_ms) h f =
    unfold renew_stored_pending_flush_lease in
    ground (
      arith,
      Keyed.get-put text_discrete user user_id
          (record { token = token; expires_at = now + duration_ms }) leases,
    )
step-keeps leases user_id held (check user token now) h f = h
step-keeps leases user_id held (release user token) h f =
    unfold release_stored_pending_flush_lease in
    ground (arith, Keyed.get-remove text_discrete user user_id leases)

-- The lease of a user stands until it expires under any calls, in any order and number, of which
-- those for that user are as other tabs make them: no acquisition is forced, each acquisition is at a
-- time before the expiry, and each renewal and each release has another token than the lease. Checks
-- and the calls for other users are free. After them, the check of a token succeeds exactly if the
-- token is that of the lease and the time is before the expiry.
pub lease_excludes :
    (leases : Leases) (user_id : String) (held : PendingFlushLease) (calls : List Call)
    (token : String) (now : ℕ)
    → lease_of user_id leases ≡ some held
    → All (IsForeign user_id held) calls
    → (assert_stored_pending_flush_lease (run leases calls) user_id token now ≡ true)
      ↔ ((token ≡ held.token) × (now < held.expires_at))
unfolding run
lease_excludes leases user_id held [] token now h f =
    unfold assert_stored_pending_flush_lease in ground arith
lease_excludes leases user_id held (call ∷ calls) token now h f =
    lease_excludes (step leases call).0 user_id held calls token now
      (step-keeps leases user_id held call h f.0) f.1

-- The holder renews before the expiry: the lease then runs for the new duration from that time, and
-- a renewal at or after the expiry is refused and changes nothing.
pub renew_by_holder :
    (leases : Leases) (user_id : String) (held : PendingFlushLease) (now duration_ms : ℕ)
    → lease_of user_id leases ≡ some held
    → let after = renew_stored_pending_flush_lease leases user_id held.token now duration_ms in
      (now < held.expires_at
        → lease_of user_id after.0
          ≡ some (record { token = held.token; expires_at = now + duration_ms }))
      × (held.expires_at ≤ now → after ≡ (leases, none))
unfolding renew_stored_pending_flush_lease
renew_by_holder leases user_id held now duration_ms h = (
  λ live. ground (
    arith,
    Keyed.get-put_self text_discrete user_id
        (record { token = held.token; expires_at = now + duration_ms }) leases,
  ),
  λ dead. ground arith,
)
