-- ===== src/Listen/Interaction.antt =====
-- `ListenMvpInteractionState` and its reducer, under actions that may come late.
use flash_card.Prelude.{
  ℕ, ◌+◌, ◌≤◌, ◌<◌, ◌≡◌, refl, Bool, true, false, not, ◌&&◌, Option, none, some, List, [], ◌∷◌,
  String, ltb, ◌==◌, if◌then◌else◌, arith,
}

pub data ListenMvpPlaybackRate : Type 0 where
  three_quarters one : ListenMvpPlaybackRate

pub data ListenMvpSaveState : Type 0 where
  idle saving saved failed : ListenMvpSaveState

pub record ListenMvpInteractionState : Type 0 where
  pub playback_rate : ListenMvpPlaybackRate
  pub captions_visible : Bool
  pub active_cue_id : Option String
  pub selected_answer : Option String
  pub save_state : ListenMvpSaveState
  pub save_request_id : ℕ

pub data ListenMvpInteractionAction : Type 0 where
  set_playback_rate : ListenMvpPlaybackRate → ListenMvpInteractionAction
  toggle_captions : ListenMvpInteractionAction
  set_cue : Option String → ListenMvpInteractionAction
  select_answer : String → ListenMvpInteractionAction
  reset : (initial_cue_id : Option String) → ListenMvpInteractionAction
  save_start save_success save_failed : (request_id : ℕ) → ListenMvpInteractionAction

unfoldable pub create_listen_mvp_interaction_state : Option String → ℕ → ListenMvpInteractionState
create_listen_mvp_interaction_state initial_cue_id save_request_id = record {
  playback_rate = one;
  captions_visible = true;
  active_cue_id = initial_cue_id;
  selected_answer = none;
  save_state = idle;
  save_request_id = save_request_id;
}

abbrev pub is_saving : ListenMvpSaveState → Bool
is_saving saving = true
is_saving _ = false

-- `action.requestId === state.saveRequestId && state.saveState === 'saving'`
abbrev pub is_awaited : ListenMvpInteractionState → ℕ → Bool
is_awaited s request_id = request_id == s.save_request_id && is_saving s.save_state

unfoldable pub reduce_listen_mvp_interaction_state :
    ListenMvpInteractionState → ListenMvpInteractionAction → ListenMvpInteractionState
unfolding create_listen_mvp_interaction_state
reduce_listen_mvp_interaction_state s (set_playback_rate rate) = record s { playback_rate = rate }
reduce_listen_mvp_interaction_state s toggle_captions = record s {
  captions_visible = not s.captions_visible;
}
reduce_listen_mvp_interaction_state s (set_cue cue_id) = record s { active_cue_id = cue_id }
reduce_listen_mvp_interaction_state s (select_answer answer) = record s {
  selected_answer = some answer;
}
reduce_listen_mvp_interaction_state s (reset initial_cue_id) =
    create_listen_mvp_interaction_state initial_cue_id (s.save_request_id + 1)
reduce_listen_mvp_interaction_state s (save_start request_id) =
    if ltb s.save_request_id request_id && not (is_saving s.save_state)
    then record s { save_state = saving; save_request_id = request_id }
    else s
reduce_listen_mvp_interaction_state s (save_success request_id) =
    if is_awaited s request_id then record s { save_state = saved } else s
reduce_listen_mvp_interaction_state s (save_failed request_id) =
    if is_awaited s request_id then record s { save_state = failed } else s

unfoldable pub run :
    ListenMvpInteractionState → List ListenMvpInteractionAction → ListenMvpInteractionState
run s [] = s
run s (action ∷ actions) = run (reduce_listen_mvp_interaction_state s action) actions

save_request_id-le :
    (s : ListenMvpInteractionState) (actions : List ListenMvpInteractionAction)
    → s.save_request_id ≤ (run s actions).save_request_id
unfolding run
save_request_id-le s [] = omega arith
save_request_id-le s (action ∷ actions) =
    omega (
      arith,
      one s action,
      save_request_id-le (reduce_listen_mvp_interaction_state s action) actions,
    )
  where
    one :
        (t : ListenMvpInteractionState) (a : ListenMvpInteractionAction)
        → t.save_request_id ≤ (reduce_listen_mvp_interaction_state t a).save_request_id
    one t (set_playback_rate rate) = unfold reduce_listen_mvp_interaction_state in omega arith
    one t toggle_captions = unfold reduce_listen_mvp_interaction_state in omega arith
    one t (set_cue cue_id) = unfold reduce_listen_mvp_interaction_state in omega arith
    one t (select_answer answer) = unfold reduce_listen_mvp_interaction_state in omega arith
    one t (reset initial_cue_id) =
        unfold reduce_listen_mvp_interaction_state create_listen_mvp_interaction_state in
        omega arith
    one t (save_start request_id) = unfold reduce_listen_mvp_interaction_state in ground arith
    one t (save_success request_id) = unfold reduce_listen_mvp_interaction_state in ground arith
    one t (save_failed request_id) = unfold reduce_listen_mvp_interaction_state in ground arith

-- After a reset, whatever happens next, the end of a save that was started before it changes
-- nothing, and neither can that request start again.
pub reset_is_final :
    (s : ListenMvpInteractionState) (initial_cue_id : Option String)
    (actions : List ListenMvpInteractionAction) (request_id : ℕ)
    → request_id ≤ s.save_request_id
    → let t = run s (reset initial_cue_id ∷ actions) in
      (reduce_listen_mvp_interaction_state t (save_success request_id) ≡ t)
      × (reduce_listen_mvp_interaction_state t (save_failed request_id) ≡ t)
      × (reduce_listen_mvp_interaction_state t (save_start request_id) ≡ t)
unfolding run
reset_is_final s initial_cue_id actions request_id le =
    let start = reduce_listen_mvp_interaction_state s (reset initial_cue_id) in
    let t = run start actions in
    let first : start.save_request_id ≡ s.save_request_id + 1 =
      unfold reduce_listen_mvp_interaction_state create_listen_mvp_interaction_state in refl in
    let later : request_id < t.save_request_id =
      omega (arith, save_request_id-le start actions, first) in
    (
      unfold reduce_listen_mvp_interaction_state in ground (arith, later),
      unfold reduce_listen_mvp_interaction_state in ground (arith, later),
      unfold reduce_listen_mvp_interaction_state in ground (arith, later),
    )
