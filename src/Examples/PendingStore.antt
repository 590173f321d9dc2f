-- ===== src/Examples/PendingStore.antt =====
-- The flush lease of one user, with another tab about.
use flash_card.Prelude.{
  ◌<◌, ◌≡◌, ◌↔◌, refl, inl, inr, true, false, some, List, [], ◌∷◌, String, arith,
}
use flash_card.Prelude.Keyed
use flash_card.Prelude.Text.{text_discrete, texts_differ}
use flash_card.PendingStore.Lease.{
  PendingFlushLease, Leases, lease_of, acquire_stored_pending_flush_lease,
  assert_stored_pending_flush_lease,
}
use flash_card.PendingStore.Exclusion.{Call, acquire, renew, release, run, lease_excludes}

abbrev tab1 : String
tab1 = "tab1"

abbrev tab2 : String
tab2 = "tab2"

abbrev held : PendingFlushLease
held = record { token = tab1; expires_at = 600 }

abbrev leases : Leases
leases = ("ann", held) ∷ []

standing : lease_of "ann" leases ≡ some held
unfolding Keyed.get text_discrete
standing = refl

taken : (acquire_stored_pending_flush_lease [] "ann" tab1 100 500 false).1 ≡ some held
unfolding acquire_stored_pending_flush_lease Keyed.get text_discrete
taken = refl

-- Another tab tries to take, renew and release the lease, and takes that of another user.
abbrev calls : List Call
calls =
    acquire "ann" tab2 200 500 false
    ∷ renew "ann" tab2 300 500
    ∷ release "ann" tab2
    ∷ acquire "bob" tab2 700 500 true
    ∷ []

lease_excludes_example :
    (assert_stored_pending_flush_lease (run leases calls) "ann" tab2 400 ≡ true)
    ↔ ((tab2 ≡ held.token) × (400 < held.expires_at))
lease_excludes_example = lease_excludes leases "ann" held calls tab2 400 standing (
  inr (omega arith, refl),
  (
    inr (texts_differ tab2 tab1 refl),
    (inr (texts_differ tab2 tab1 refl), (inl (texts_differ "bob" "ann" refl), tt)),
  ),
)
