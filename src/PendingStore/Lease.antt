-- ===== src/PendingStore/Lease.antt =====
-- src/lib/pendingOperationStore.ts: the flush lease of a user. Each operation is one IndexedDB
-- transaction, so it is one step on the stored leases; an aborted transaction changes nothing.
-- Clocks and durations are natural numbers of milliseconds.
use flash_card.Prelude.{
  ℕ, ◌+◌, Bool, false, not, ◌&&◌, ◌||◌, Option, none, some, List, String, ltb, same, if◌then◌else◌,
}
use flash_card.Prelude.Text.{text_discrete}
use flash_card.Prelude.Keyed

pub record PendingFlushLease : Type 0 where
  pub token : String
  pub expires_at : ℕ

-- The object store of leases, by user.
abbrev pub Leases : Type 0
Leases = List (String × PendingFlushLease)

abbrev pub lease_of : String → Leases → Option PendingFlushLease
lease_of = Keyed.get text_discrete

grant : Leases → String → String → ℕ → Leases × Option PendingFlushLease
grant leases user_id token expires_at =
    let lease : PendingFlushLease = record { token = token; expires_at = expires_at } in
    (Keyed.put text_discrete user_id lease leases, some lease)

-- `existing && existing.expiresAt > now`
abbrev is_live : Option PendingFlushLease → ℕ → Bool
is_live none now = false
is_live (some lease) now = ltb now lease.expires_at

-- `lease?.token === token`
abbrev is_held_by : Option PendingFlushLease → String → Bool
is_held_by none token = false
is_held_by (some lease) token = same text_discrete lease.token token

unfoldable pub acquire_stored_pending_flush_lease :
    Leases → String → String → ℕ → ℕ → Bool → Leases × Option PendingFlushLease
unfolding grant
acquire_stored_pending_flush_lease leases user_id token now duration_ms force =
    if is_live (lease_of user_id leases) now && not force
    then (leases, none)
    else grant leases user_id token (now + duration_ms)

unfoldable pub renew_stored_pending_flush_lease :
    Leases → String → String → ℕ → ℕ → Leases × Option PendingFlushLease
unfolding grant
renew_stored_pending_flush_lease leases user_id token now duration_ms =
    let existing = lease_of user_id leases in
    if not (is_held_by existing token) || not (is_live existing now)
    then (leases, none)
    else grant leases user_id token (now + duration_ms)

unfoldable pub assert_stored_pending_flush_lease : Leases → String → String → ℕ → Bool
assert_stored_pending_flush_lease leases user_id token now =
    let lease = lease_of user_id leases in is_held_by lease token && is_live lease now

unfoldable pub release_stored_pending_flush_lease : Leases → String → String → Leases
release_stored_pending_flush_lease leases user_id token =
    if is_held_by (lease_of user_id leases) token
    then Keyed.remove text_discrete user_id leases
    else leases
