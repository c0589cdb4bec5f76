-- ===== src/Meeting/Detector.antt =====
-- The state detector of internal/infra/meeting/state_detector.go. The page is outside: `Page` answers
-- IsVisible for a selector, and stays as it is during one call.
use meeting_baa_s.Base.{
  ◌≡◌, refl, ℕ, String, Bool, true, false, Option, none, some, List, [], ◌∷◌, ◌++◌, map, Result, ok,
  err, Failure, if◌then◌else◌, ◌⊎◌, inl, inr, Option-cases, sym,
}

pub record StateRule : Type 0 where
  pub name : String
  pub any_of : List String
  -- only handed to the context of one evaluation, which IsVisible does not read
  pub evaluate_timeout : ℕ

abbrev pub Page : Type 0
Page = String → Result Bool

-- The name of the state, empty where none matches, and the error.
abbrev pub Detected : Type 0
Detected = String × Failure

-- The selectors of one rule; `none` when the loop over them ends. The context of an evaluation is
-- cancelled right behind IsVisible, so that its error is never nil when it is asked, and the error
-- that is returned is the one of the caller's context, `cancelled`.
unfoldable pub detect_rule : Page → Failure → String → List String → Option Detected
detect_rule page cancelled name [] = none
detect_rule page cancelled name (sel ∷ sels) = elim (page sel) [
  | err e ↦ detect_rule page cancelled name sels
  | ok visible ↦ if visible then some (name, none) else some ("", cancelled)
]

unfoldable pub detect_rules : Page → Failure → List StateRule → Detected
detect_rules page cancelled [] = ("", none)
detect_rules page cancelled (rule ∷ rules) =
    elim (detect_rule page cancelled rule.name rule.any_of) [
      | some found ↦ found
      | none ↦ detect_rules page cancelled rules
    ]

-- A nil page is `none`.
unfoldable pub detect : Option Page → Failure → List StateRule → Detected
detect none cancelled rules = ("", none)
detect (some page) cancelled rules = detect_rules page cancelled rules

-- All the selectors in order, each with its state.
abbrev pub all_selectors : List StateRule → List (String × String)
all_selectors [] = []
all_selectors (rule ∷ rules) = map (λ sel. (rule.name, sel)) rule.any_of ++ all_selectors rules

-- What the first selector that the page answers without an error makes of the whole list.
abbrev pub first_answer : Page → Failure → List (String × String) → Detected
first_answer page cancelled [] = ("", none)
first_answer page cancelled ((name, sel) ∷ rest) = elim (page sel) [
  | err e ↦ first_answer page cancelled rest
  | ok visible ↦ if visible then (name, none) else ("", cancelled)
]

abbrev or_detected : Option Detected → Detected → Detected
or_detected none d = d
or_detected (some found) d = found

Answer-cases : (r : Result Bool) → ((e : String) × (r ≡ err e)) ⊎ (r ≡ ok true) ⊎ (r ≡ ok false)
Answer-cases (err e) = inl (e, refl)
Answer-cases (ok true) = inr (inl refl)
Answer-cases (ok false) = inr (inr refl)

first_answer-append :
    (page : Page) (cancelled : Failure) (name : String) (sels : List String)
    (rest : List (String × String))
    → first_answer page cancelled (map (λ sel. (name, sel)) sels ++ rest)
      ≡ or_detected (detect_rule page cancelled name sels) (first_answer page cancelled rest)
unfolding detect_rule
first_answer-append page cancelled name [] rest = refl
first_answer-append page cancelled name (sel ∷ sels) rest = elim (Answer-cases (page sel)) [
  | inl (e, h) ↦ rw (h, detect_rule) (first_answer-append page cancelled name sels rest)
  | inr (inl h) ↦ rw (h, detect_rule) refl
  | inr (inr h) ↦ rw (h, detect_rule) refl
]

-- The detector never looks behind the first selector that the page answers: its answer is the state
-- of that selector where it is visible, and no state where it is not, whatever selectors follow.
detect_first :
    (page : Page) (cancelled : Failure) (rules : List StateRule)
    → detect (some page) cancelled rules ≡ first_answer page cancelled (all_selectors rules)
unfolding detect detect_rules
detect_first page cancelled [] = refl
detect_first page cancelled (rule ∷ rules) =
    rw
      (
        first_answer-append page cancelled rule.name rule.any_of (all_selectors rules),
        sym (detect_first page cancelled rules),
      )
      (elim (Option-cases (detect_rule page cancelled rule.name rule.any_of)) [
        | inl h ↦ rw (h, detect_rules) refl
        | inr (found, h) ↦ rw (h, detect_rules) refl
      ])
