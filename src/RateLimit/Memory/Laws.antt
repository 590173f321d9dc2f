-- ===== src/RateLimit/Memory/Laws.antt =====
-- The memory store of functions/src/rateLimiter.ts: its bound, the budget that a call names, and the
-- other budgets.
use flash_card.Prelude.{
  ℕ, ◌≤◌, ◌≡◌, ◌≢◌, refl, inl, inr, true, false, not, ◌&&◌, none, some, [], ◌∷◌, String, Outcome,
  ok, throw, length, leb, arith, Option-cases, Bool-cases, if◌then◌else◌,
}
use flash_card.Prelude.Number.{Number, nat}
use flash_card.Prelude.Text.{text_discrete}
use flash_card.Prelude.Keyed
use flash_card.Prelude.Keyed.{IsDistinct}
use flash_card.RateLimit.{Window, RateLimitDecision, Error, is_expired, evaluate_rate_limit}
use flash_card.RateLimit.Memory.{
  States, lookup_state, current_state, purge, make_room, settle, consume_key,
}

-- The map is bounded by its capacity and holds each key once.
pub record IsBounded (capacity : ℕ) (states : States) : Type 0 where
  pub fits : length states ≤ capacity
  pub distinct : IsDistinct text_discrete states

length-purge-le : (now : ℕ) (states : States) → length (purge now states) ≤ length states
unfolding purge
length-purge-le now [] = omega arith
length-purge-le now ((key, w) ∷ states) = ground (arith, length-purge-le now states)

get-purge-none :
    (now : ℕ) (key : String) (states : States)
    → lookup_state key states ≡ none
    → lookup_state key (purge now states) ≡ none
unfolding purge Keyed.get
get-purge-none now key [] h = refl
get-purge-none now key ((j, w) ∷ states) h = ground (arith, get-purge-none now key states)

purge-IsDistinct :
    (now : ℕ) (states : States)
    → IsDistinct text_discrete states
    → IsDistinct text_discrete (purge now states)
unfolding purge
purge-IsDistinct now [] d = tt
purge-IsDistinct now ((j, w) ∷ states) d =
    ground (arith, purge-IsDistinct now states, get-purge-none now j states)

-- An entry survives the purge exactly if it has not expired.
get-purge-some :
    (now : ℕ) (key : String) (w : Window) (states : States)
    → IsDistinct text_discrete states
    → lookup_state key states ≡ some w
    → lookup_state key (purge now states) ≡ (if is_expired now w then none else some w)
unfolding purge Keyed.get
get-purge-some now key w [] d h = cc
get-purge-some now key w ((j, v) ∷ states) d h =
    ground (arith, get-purge-some now key w states, get-purge-none now j states)

make_room-IsBounded :
    (capacity now : ℕ) (key : String) (states : States)
    → IsBounded capacity states
    → IsBounded capacity (make_room capacity now key states)
unfolding make_room
make_room-IsBounded capacity now key states b =
    ground (arith, length-purge-le now states, purge-IsDistinct now states)

settle-IsBounded :
    (capacity : ℕ) (key : String) (states : States) (d : Outcome Error RateLimitDecision)
    → IsBounded capacity states
    → (not (Keyed.has text_discrete key states) && leb capacity (length states)) ≡ false
    → IsBounded capacity (settle key states d).0
unfolding settle
settle-IsBounded capacity key states (throw e) b room = b
settle-IsBounded capacity key states (ok d) b room = ground (
  arith,
  Keyed.length-put text_discrete key d.state states,
  Keyed.put-IsDistinct text_discrete key d.state states,
)

-- The store never holds more entries than its capacity, nor a budget twice, whatever the call is
-- and also when it throws.
pub consume_key-IsBounded :
    (capacity : ℕ) (states : States) (key : String) (maximum : Number) (now : ℕ)
    → IsBounded capacity states
    → IsBounded capacity (consume_key capacity states key maximum now).0
unfolding consume_key
consume_key-IsBounded capacity states key maximum now b =
    let room = make_room capacity now key states in
    let bounded : IsBounded capacity room = make_room-IsBounded capacity now key states b in
    elim (Bool-cases (not (Keyed.has text_discrete key room) && leb capacity (length room))) [
      | inl full ↦ rw (full, consume_key) bounded
      | inr free ↦
          rw (free, consume_key)
            (settle-IsBounded capacity key room
              (evaluate_rate_limit (current_state key room) (nat now) maximum) bounded free)
    ]

get-make_room_self :
    (capacity now : ℕ) (key : String) (states : States)
    → lookup_state key (make_room capacity now key states) ≡ lookup_state key states
unfolding make_room
get-make_room_self capacity now key states = elim (Option-cases (lookup_state key states)) [
  | inl absent ↦ ground (arith, get-purge-none now key states)
  | inr (w, present) ↦ ground arith
]

get-make_room_ne :
    (capacity now : ℕ) (key j : String) (w : Window) (states : States)
    → IsDistinct text_discrete states
    → lookup_state j states ≡ some w
    → is_expired now w ≡ false
    → lookup_state j (make_room capacity now key states) ≡ some w
unfolding make_room
get-make_room_ne capacity now key j w states d h live =
    ground (arith, get-purge-some now j w states)

get-settle_ne :
    (key j : String) (states : States) (d : Outcome Error RateLimitDecision)
    → key ≢ j
    → lookup_state j (settle key states d).0 ≡ lookup_state j states
unfolding settle
get-settle_ne key j states (throw e) n = refl
get-settle_ne key j states (ok d) n =
    ground (arith, Keyed.get-put_ne text_discrete key j d.state states)

-- A call forgets no other budget whose window is still open.
pub consume_key_keeps :
    (capacity : ℕ) (states : States) (key j : String) (maximum : Number) (now : ℕ) (w : Window)
    → IsBounded capacity states
    → key ≢ j
    → lookup_state j states ≡ some w
    → is_expired now w ≡ false
    → lookup_state j (consume_key capacity states key maximum now).0 ≡ some w
unfolding consume_key
consume_key_keeps capacity states key j maximum now w b n h live = ground (
  arith,
  get-make_room_ne capacity now key j w states b.distinct h live,
  get-settle_ne key j (make_room capacity now key states) (
      evaluate_rate_limit (current_state key (make_room capacity now key states)) (nat now)
        maximum),
)

-- What `evaluateRateLimit` decides from the stored window, if any.
abbrev pub decision : States → String → Number → ℕ → Outcome Error RateLimitDecision
decision states key maximum now = evaluate_rate_limit (current_state key states) (nat now) maximum

settle-charges :
    (key : String) (states : States) (d : Outcome Error RateLimitDecision)
    → (settle key states d).1 ≡ ok tt
    → (made : RateLimitDecision) × (d ≡ ok made)
      × (made.allowed ≡ true)
      × (lookup_state key (settle key states d).0 ≡ some made.state)
unfolding settle
settle-charges key states (throw e) h = absurd (ground arith)
settle-charges key states (ok d) h =
    (d, refl, ground arith, ground (arith, Keyed.get-put_self text_discrete key d.state states))

current_state-make_room :
    (capacity now : ℕ) (key : String) (states : States)
    → current_state key (make_room capacity now key states) ≡ current_state key states
unfolding current_state
current_state-make_room capacity now key states =
    rw (get-make_room_self capacity now key states, current_state)

-- A call that returns was admitted by the decision on the stored window, and stores the decided
-- window.
pub consume_key-charges :
    (capacity : ℕ) (states : States) (key : String) (maximum : Number) (now : ℕ)
    → (consume_key capacity states key maximum now).1 ≡ ok tt
    → (d : RateLimitDecision) × (decision states key maximum now ≡ ok d)
      × (d.allowed ≡ true)
      × (lookup_state key (consume_key capacity states key maximum now).0 ≡ some d.state)
unfolding consume_key
consume_key-charges capacity states key maximum now h =
    let room = make_room capacity now key states in
    elim (Bool-cases (not (Keyed.has text_discrete key room) && leb capacity (length room))) [
      | inl full ↦ absurd (ground arith)
      | inr free ↦
          rw (free, consume_key)
            (rw (← current_state-make_room capacity now key states)
              (settle-charges key room (decision room key maximum now) (ground arith)))
    ]

settle-refuses :
    (key : String) (states : States) (d : Outcome Error RateLimitDecision) {e : Error}
    → (settle key states d).1 ≡ throw e
    → (settle key states d).0 ≡ states
unfolding settle
settle-refuses key states d h = ground arith

-- A call that throws leaves the window of its own budget as it was.
pub consume_key-refuses :
    (capacity : ℕ) (states : States) (key : String) (maximum : Number) (now : ℕ) {e : Error}
    → (consume_key capacity states key maximum now).1 ≡ throw e
    → lookup_state key (consume_key capacity states key maximum now).0 ≡ lookup_state key states
unfolding consume_key
consume_key-refuses capacity states key maximum now {e} h =
    let room = make_room capacity now key states in
    ground (
      arith,
      get-make_room_self capacity now key states,
      settle-refuses key room (decision room key maximum now) {e = e},
    )
