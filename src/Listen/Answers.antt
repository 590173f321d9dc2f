-- ===== src/Listen/Answers.antt =====
-- `createListenMvpAnswerReporter` of listenMvpInteraction.ts. What `onEvidence` does, an error of its
-- own included, does not come back to the reporter, so the answer that is passed on stands for it.
use flash_card.Prelude.{
  ◌≡◌, refl, ap, Bool, true, false, Option, none, some, List, [], ◌∷◌, ◌++◌, String, includes, add,
  add_all, if◌then◌else◌, arith, Bool-cases, inl, inr,
}
use flash_card.Prelude.Text.{text_discrete}

-- The reported answers, and what the reporter passes on and returns.
unfoldable pub report : List String → String → List String × Option String × Bool
report reported answer =
    if includes text_discrete reported answer
    then (reported, none, false)
    else (add text_discrete answer reported, some answer, true)

unfoldable pub reset_reporter : List String → List String
reset_reporter reported = []

abbrev after : Option String → List String → List String
after none answers = answers
after (some answer) answers = answer ∷ answers

-- The answers that are passed on over a list of reports.
pub report_all : List String → List String → List String
report_all reported [] = []
report_all reported (answer ∷ answers) =
    let (reported', passed, fresh) = report reported answer in
    after passed (report_all reported' answers)

append_assoc : (xs ys zs : List String) → (xs ++ ys) ++ zs ≡ xs ++ (ys ++ zs)
append_assoc [] ys zs = refl
append_assoc (x ∷ xs) ys zs = ap (λ l. x ∷ l) (append_assoc xs ys zs)

append_nil : (xs : List String) → xs ++ [] ≡ xs
append_nil [] = refl
append_nil (x ∷ xs) = ap (λ l. x ∷ l) (append_nil xs)

-- Of any list of reports exactly the answers that were not reported before are passed on, each of
-- them once and in the order in which it first came.
pub report_all-add_all :
    (reported answers : List String)
    → reported ++ report_all reported answers ≡ add_all text_discrete reported answers
unfolding report_all report
report_all-add_all reported [] = append_nil reported
report_all-add_all reported (answer ∷ answers) =
    elim (Bool-cases (includes text_discrete reported answer)) [
      | inl known ↦ ground (arith, report_all-add_all reported answers)
      | inr fresh ↦ ground (
        arith,
        append_assoc reported (answer ∷ []) (report_all (reported ++ answer ∷ []) answers),
        report_all-add_all (reported ++ answer ∷ []) answers,
      )
    ]
