-- ===== src/Practice/Lifecycle.antt =====
-- `createPracticeSessionLifecycle`: its variables as a record, its closures as functions on it.
-- A `Symbol` is the next of a counter. `prepare` is two steps, up to its `await` and from there on,
-- so that other calls may come between; `onStart` is taken to touch none of this state.
use flash_card.Prelude.{
  ℕ, ◌+◌, Bool, true, false, not, ◌&&◌, ◌||◌, Option, none, some, List, [], String, same, includes,
  ◌==◌, if◌then◌else◌,
}
use flash_card.Prelude.Text.{text_discrete}

pub data PracticeActivity : Type 0 where
  study quiz spelling story matching shadowing : PracticeActivity

pub record Preparation : Type 0 where
  pub id : ℕ
  pub activity : PracticeActivity
  pub session_token : ℕ

pub record Active : Type 0 where
  pub activity : PracticeActivity
  pub session_token : ℕ

pub record Lifecycle : Type 0 where
  pub owner_id : Option String
  pub generation : ℕ
  pub preparation : Option Preparation
  pub active : Option Active
  pub pending_review_ids : List String
  pub reviewed_card_ids : List String
  pub skipped_card_ids : List String
  pub failed_card_ids : List String
  pub review_token : ℕ
  pub next_symbol : ℕ

unfoldable pub create_practice_session_lifecycle : Option String → Lifecycle
create_practice_session_lifecycle initial_owner_id = record {
  owner_id = initial_owner_id;
  generation = 0;
  preparation = none;
  active = none;
  pending_review_ids = [];
  reviewed_card_ids = [];
  skipped_card_ids = [];
  failed_card_ids = [];
  review_token = 0;
  next_symbol = 0;
}

abbrev pub is_current : Lifecycle → ℕ → Bool
is_current s session_token = session_token == s.generation

abbrev pub is_same_activity : PracticeActivity → PracticeActivity → Bool
is_same_activity study study = true
is_same_activity quiz quiz = true
is_same_activity spelling spelling = true
is_same_activity story story = true
is_same_activity matching matching = true
is_same_activity shadowing shadowing = true
is_same_activity _ _ = false

abbrev pub is_study : PracticeActivity → Bool
is_study study = true
is_study _ = false

abbrev pub member : List String → String → Bool
member = includes text_discrete

unfoldable pub reset_review_authority : Lifecycle → Lifecycle
reset_review_authority s = record s {
  review_token = s.review_token + 1;
  pending_review_ids = [];
  reviewed_card_ids = [];
  skipped_card_ids = [];
  failed_card_ids = [];
}

unfoldable pub reset : Lifecycle → Lifecycle
unfolding reset_review_authority
reset s = reset_review_authority (record s { preparation = none; active = none })

same_owner : Option String → Option String → Bool
same_owner none none = true
same_owner (some a) (some b) = same text_discrete a b
same_owner _ _ = false

unfoldable pub replace_owner : Lifecycle → Option String → Lifecycle
unfolding same_owner
replace_owner s next_owner_id =
    if same_owner s.owner_id next_owner_id
    then s
    else reset (record s { owner_id = next_owner_id; generation = s.generation + 1 })

-- `preparation?.sessionToken === generation`
abbrev pub is_busy : Lifecycle → Bool
is_busy s = elim s.preparation [ none ↦ false | some p ↦ p.session_token == s.generation ]

-- `preparation?.id === current.id`
abbrev pub is_preparing : Lifecycle → Preparation → Bool
is_preparing s current = elim s.preparation [ none ↦ false | some p ↦ p.id == current.id ]

-- `prepare` up to its `await`; `none` is the status 'busy'.
unfoldable pub start_preparation : Lifecycle → PracticeActivity → Lifecycle × Option Preparation
start_preparation s activity =
    let current : Preparation = record {
      id = s.next_symbol;
      activity = activity;
      session_token = s.generation;
    } in
    if is_busy s
    then (s, none)
    else (record s { preparation = some current; next_symbol = s.next_symbol + 1 }, some current)

-- What the awaited operation came to.
pub data Settlement (T : Type 0) : Type 0 where
  fulfilled : T → Settlement T
  rejected : Settlement T

pub data PreparationResult (T : Type 0) : Type 0 where
  ready : (session_token : ℕ) → T → PreparationResult T
  stale : PreparationResult T
  failed : (session_token : ℕ) → PreparationResult T

abbrev settled_result : {T : Type 0} → Preparation → Settlement T → PreparationResult T
settled_result current (fulfilled value) = ready current.session_token value
settled_result current rejected = failed current.session_token

-- `prepare` from its `await` on, with the `finally`.
unfoldable pub finish_preparation :
    {T : Type 0} → Lifecycle → Preparation → Settlement T → Lifecycle × PreparationResult T
finish_preparation s current outcome = (
  if is_preparing s current then record s { preparation = none } else s,
  if not (is_current s current.session_token) || not (is_preparing s current)
      then stale
      else settled_result current outcome,
)

unfoldable pub activate : Lifecycle → PracticeActivity → ℕ → Lifecycle × Bool
activate s activity session_token =
    let playing = record s {
      active = some (record { activity = activity; session_token = session_token });
    } in
    if not (is_current s session_token)
    then (s, false)
    else (if is_study activity then reset_review_authority playing else playing, true)

unfoldable pub is_active : Lifecycle → PracticeActivity → Bool
is_active s activity = elim s.active [
  | none ↦ false
  | some a ↦ is_same_activity a.activity activity && is_current s a.session_token
]

clear_one : Lifecycle → PracticeActivity → Lifecycle
clear_one s activity = record s {
  preparation = elim s.preparation [
    | none ↦ none
    | some p ↦ if is_same_activity p.activity activity then none else some p
  ];
  active = elim s.active [
    | none ↦ none
    | some a ↦ if is_same_activity a.activity activity then none else some a
  ];
}

unfoldable pub clear : Lifecycle → Option PracticeActivity → Lifecycle
unfolding clear_one reset_review_authority
clear s none = reset_review_authority (record s { preparation = none; active = none })
clear s (some activity) =
    if is_study activity
    then reset_review_authority (clear_one s activity)
    else clear_one s activity
