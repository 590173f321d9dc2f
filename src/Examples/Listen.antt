-- ===== src/Examples/Listen.antt =====
-- A listening lesson on small inputs, and the budget of one vocabulary action.
use flash_card.Prelude.{◌≡◌, true, none, List, [], ◌∷◌, String, arith}
use flash_card.Listen.Interaction.{
  ListenMvpInteractionState, ListenMvpInteractionAction, one, saving, toggle_captions, save_start,
  save_success, save_failed, reset, reduce_listen_mvp_interaction_state, run, reset_is_final,
}

abbrev saving_third : ListenMvpInteractionState
saving_third = record {
  playback_rate = one;
  captions_visible = true;
  active_cue_id = none;
  selected_answer = none;
  save_state = saving;
  save_request_id = 3;
}

abbrev later : List ListenMvpInteractionAction
later = toggle_captions ∷ save_start 5 ∷ []

reset_is_final_example :
    let t = run saving_third (reset none ∷ later) in
    (reduce_listen_mvp_interaction_state t (save_success 3) ≡ t)
    × (reduce_listen_mvp_interaction_state t (save_failed 3) ≡ t)
    × (reduce_listen_mvp_interaction_state t (save_start 3) ≡ t)
reset_is_final_example = reset_is_final saving_third none later 3 (omega arith)

abbrev heard : List String
heard = "dog" ∷ "cat" ∷ "dog" ∷ []
