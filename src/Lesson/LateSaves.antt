-- ===== src/Lesson/LateSaves.antt =====
-- Saves of `createDailySessionController` that end in a later session.
use flash_card.Prelude.{
  ◌+◌, ◌≡◌, ◌≤◌, ◌<◌, inl, inr, ap, Bool, true, false, Option, none, some, List, [], ◌∷◌,
  Option-cases, Outcome-cases, arith,
}
use flash_card.Prelude.Text.{text_discrete}
use flash_card.Prelude.Keyed.{get}
use flash_card.Lesson.State.{
  Engine, TextPlatform, LessonState, LessonInput, create_lesson_state, request_guidance, submit,
  introduction_choice, continue_guided,
}
use flash_card.Lesson.Controller.{
  ReviewOutcome, stale_session, Sent, Controller, forget, receive_outcome, settle_save,
}
use flash_card.Lesson.Calls.{
  Call, start_called, introduction_chosen, guidance_requested, guided_continued, answer_submitted,
  rate_called, retry_called, close_called, save_ended, start, started, choose_introduction,
  ask_guidance, continue_lesson, submit_answer, close, call, calls,
}
use flash_card.Lesson.Later.{
  IsLater, rate_card-IsLater, retry-IsLater, settle-IsLater, apply_action-IsLater,
}

module _ {Card Exercise Answer Evaluation : Type 0}
    (engine : Engine Card Exercise Answer Evaluation) (platform : TextPlatform) where
  abbrev State : Type 0
  State = LessonState Card Exercise Evaluation

  abbrev Daily : Type 0
  Daily = Controller Card Exercise Evaluation

  new_session-IsLater :
      (sent : Sent) (c : Daily) (o : Option State)
      → sent.generation ≤ c.session_generation
      → sent.token < c.next_token
      → IsLater sent
          (record c { session_generation = c.session_generation + 1; pending = []; snapshot = o })
  unfolding get
  new_session-IsLater sent c o g t = record {
    newer = omega arith;
    unknown = λ id u h. cc;
    next = t;
  }

  started-IsLater :
      (sent : Sent) (c : Daily) (exercises : List (LessonInput Card Exercise))
      → sent.generation ≤ c.session_generation
      → sent.token < c.next_token
      → IsLater sent (started engine platform c exercises)
  unfolding started start
  started-IsLater sent c exercises g t =
      elim (Outcome-cases (create_lesson_state engine.card_id Evaluation exercises)) [
        | inl (e, h) ↦ rw (h, started, start) (new_session-IsLater sent c c.snapshot g t)
        | inr (s, h) ↦ rw (h, started, start) (new_session-IsLater sent c (some s) g t)
      ]

  call-IsLater :
      (sent : Sent) (c : Daily) (one : Call Card Exercise Answer)
      → IsLater sent c
      → IsLater sent (call engine platform c one)
  unfolding call close choose_introduction ask_guidance continue_lesson submit_answer
  call-IsLater sent c (start_called exercises) l =
      started-IsLater sent c exercises (omega (arith, l.newer)) l.next
  call-IsLater sent c (introduction_chosen choice) l = elim (Option-cases c.snapshot) [
    | inl no_lesson ↦ ground arith
    | inr (s, e) ↦
        ground (arith, apply_action-IsLater engine platform sent c s (introduction_choice choice) l)
  ]
  call-IsLater sent c guidance_requested l = elim (Option-cases c.snapshot) [
    | inl no_lesson ↦ ground arith
    | inr (s, e) ↦ ground (arith, apply_action-IsLater engine platform sent c s request_guidance l)
  ]
  call-IsLater sent c guided_continued l = elim (Option-cases c.snapshot) [
    | inl no_lesson ↦ ground arith
    | inr (s, e) ↦ ground (arith, apply_action-IsLater engine platform sent c s continue_guided l)
  ]
  call-IsLater sent c (answer_submitted answer) l = elim (Option-cases c.snapshot) [
    | inl no_lesson ↦ ground arith
    | inr (s, e) ↦ ground (arith, apply_action-IsLater engine platform sent c s (submit answer) l)
  ]
  call-IsLater sent c (rate_called rating created) l =
      rate_card-IsLater engine platform sent c rating created l
  call-IsLater sent c retry_called l = retry-IsLater engine platform sent c l
  call-IsLater sent c close_called l =
      new_session-IsLater sent c none (omega (arith, l.newer)) l.next
  call-IsLater sent c (save_ended other outcome) l =
      settle-IsLater engine platform sent c other outcome l

  calls-IsLater :
      (sent : Sent) (c : Daily) (list : List (Call Card Exercise Answer))
      → IsLater sent c
      → IsLater sent (calls engine platform c list)
  unfolding calls
  calls-IsLater sent c [] l = l
  calls-IsLater sent c (first ∷ rest) l =
      calls-IsLater sent (call engine platform c first) rest (call-IsLater sent c first l)

  receive-stale :
      (sent : Sent) (c : Daily) (outcome : ReviewOutcome)
      → IsLater sent c
      → receive_outcome engine platform c sent outcome ≡ (c, stale_session)
  unfolding receive_outcome
  receive-stale sent c outcome l = elim (Option-cases c.snapshot) [
    | inl no_lesson ↦ ground arith
    | inr (s, e) ↦ ground (arith, l.newer)
  ]

  forget-unknown : (sent : Sent) (c : Daily) → IsLater sent c → forget engine platform c sent ≡ c
  unfolding forget
  forget-unknown sent c l =
      let id = sent.review.operation_id in
      elim (Option-cases (get text_discrete id c.pending)) [
        | inl gone ↦ ground arith
        | inr (token, there) ↦ ground (arith, l.unknown id token there)
      ]

  settle-stale :
      (sent : Sent) (c : Daily) (outcome : ReviewOutcome)
      → IsLater sent c
      → settle_save engine platform c sent outcome ≡ (c, stale_session)
  unfolding settle_save
  settle-stale sent c outcome l =
      rw (receive-stale sent c outcome l) (ap (λ d. (d, stale_session)) (forget-unknown sent c l))

  -- A call that ends the session: `close`, and `start`, also where it throws.
  unfoldable pub ends_session : Call Card Exercise Answer → Bool
  ends_session (start_called exercises) = true
  ends_session close_called = true
  ends_session _ = false

  -- A save whose session and promise are no newer than the controller's, and that ends after a `start`
  -- or a `close`, whatever it came to and whatever else was called since, finds its session gone and
  -- changes nothing: neither the lesson nor the saves under way, even of the same operation.
  pub late_save_ignored :
      (c : Daily) (sent : Sent) (last : Call Card Exercise Answer)
      (list : List (Call Card Exercise Answer)) (outcome : ReviewOutcome)
      → sent.generation ≤ c.session_generation
      → sent.token < c.next_token
      → ends_session last ≡ true
      → settle_save engine platform (calls engine platform c (last ∷ list)) sent outcome
        ≡ (calls engine platform c (last ∷ list), stale_session)
  unfolding calls call close ends_session
  late_save_ignored c sent (start_called exercises) list outcome g t h =
      let here = call engine platform c (start_called exercises) in
      settle-stale sent (calls engine platform here list) outcome
        (calls-IsLater sent here list (started-IsLater sent c exercises g t))
  late_save_ignored c sent close_called list outcome g t h =
      let here = call engine platform c close_called in
      settle-stale sent (calls engine platform here list) outcome
        (calls-IsLater sent here list (new_session-IsLater sent c none g t))
  late_save_ignored c sent _ list outcome g t h = absurd (ground arith)
