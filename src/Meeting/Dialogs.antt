-- ===== src/Meeting/Dialogs.antt =====
-- The dialog observer: internal/infra/dialog/observer.go with types.go. The page is outside: `Screen`
-- holds what one cycle meets there. An event's instant is left out.
pub mod Handling
pub mod Loops
pub mod Operations
use meeting_baa_s.Base.{
  ℕ, suc, String, Bool, true, false, not, ◌&&◌, ◌||◌, ◌==◌, Option, none, some, List, [], ◌∷◌, ◌++◌,
  Result, ok, err, Failure, is_some, if◌then◌else◌,
}
use Prim.Native.String

pub data Severity : Type 0 where
  severity_info : Severity
  severity_warn : Severity
  severity_fatal : Severity

pub record Event : Type 0 where
  pub title : String
  pub body : String
  pub selector : String
  pub severity : Severity

abbrev pub Handler : Type 0
Handler = Event → Bool

pub record DialogPattern : Type 0 where
  pub name : String
  pub selector : String
  pub button_texts : List String
  pub exit_by_escape : Bool
  pub severity : Severity

abbrev by_buttons : String → String → List String → Severity → DialogPattern
by_buttons name selector texts severity = record {
  name = name;
  selector = selector;
  button_texts = texts;
  exit_by_escape = false;
  severity = severity;
}

unfoldable pub meet_dialog_patterns : List DialogPattern
meet_dialog_patterns =
    record {
      name = "people_hover_dialog";
      selector = "div[role=\"dialog\"][aria-label*=\"people in the call\" i]";
      button_texts = [];
      exit_by_escape = true;
      severity = severity_info;
    }
    ∷ by_buttons "recording_notification"
        "div[role=\"dialog\"]:has-text(\"video call is being recorded\")" ("Join now" ∷ [])
        severity_warn
    ∷ by_buttons "transcribe_notification"
        "div[role=\"dialog\"]:has-text(\"video call is being transcribed\")" ("Join now" ∷ [])
        severity_warn
    ∷ by_buttons "gemini_notification"
        "div[role=\"dialog\"]:has-text(\"Gemini\"):has-text(\"taking notes\")" ("Join now" ∷ [])
        severity_info
    ∷ by_buttons "privacy_notification" "div[role=\"dialog\"]:has-text(\"Others may see\")"
        ("Got it" ∷ "OK" ∷ "Dismiss" ∷ "Close" ∷ []) severity_info
    ∷ by_buttons "video_privacy" "div[role=\"dialog\"]:has-text(\"video differently\")"
        ("Got it" ∷ "OK" ∷ "Continue" ∷ []) severity_info
    ∷ by_buttons "background_feed" "div[role=\"dialog\"]:has-text(\"background\")"
        ("Got it" ∷ "OK" ∷ "Dismiss" ∷ []) severity_info
    ∷ record {
      name = "camera_permission";
      selector = "div[role=\"dialog\"]:has-text(\"camera\")";
      button_texts = "Allow" ∷ "Block" ∷ "Got it" ∷ "OK" ∷ "Join now" ∷ [];
      exit_by_escape = true;
      severity = severity_info;
    }
    ∷ by_buttons "generic_dismiss" "div[role=\"dialog\"]:has(button)"
        ("Join now" ∷ "Got it" ∷ "OK" ∷ "Dismiss" ∷ "Close" ∷ "Continue" ∷ []) severity_info
    ∷ []

-- What a button answers: IsVisible, and the errors of Evaluate and Click.
pub record Button : Type 0 where
  pub visible : Result Bool
  pub evaluated : Failure
  pub clicked : Failure

-- `button` is by the selector inside the modal, `parent` the parent of the span with a text, and
-- `has_space` tells whether a text contains a space.
pub record Screen : Type 0 where
  pub modal : String → Result Bool
  pub body : String → String
  pub button : (modal candidate : String) → Button
  pub parent : (modal text : String) → Button
  pub escape : Failure
  pub has_space : String → Bool

-- What is done to the page.
pub data Act : Type 0 where
  evaluate_click : String → Act
  native_click : String → Act
  press_escape : Act

abbrev pub is_shown : Result Bool → Bool
is_shown (ok b) = b
is_shown (err e) = false

abbrev quoted : String → String → String → String
quoted before text after = String.◌++◌ before (String.◌++◌ text after)

abbrev span_selector : String → String
span_selector text = quoted "button span:has-text(\"" text "\")"

abbrev pub candidates : String → List String
candidates text =
    quoted "button:has-text(\"" text "\")"
    ∷ quoted "button:text-matches(\".*" text ".*\", \"i\")"
    ∷ span_selector text
    ∷ quoted "button[aria-label=\"" text "\" i]"
    ∷ []

-- The script's click, then the browser's: whether one went through, and what was tried.
unfoldable pub click_button : String → Button → Bool × List Act
click_button sel b =
    if not (is_some b.evaluated)
    then (true, evaluate_click sel ∷ [])
    else (not (is_some b.clicked), evaluate_click sel ∷ native_click sel ∷ [])

unfoldable pub try_candidates : Screen → String → List String → Bool × List Act
try_candidates screen modal [] = (false, [])
try_candidates screen modal (sel ∷ sels) =
    let b = screen.button modal sel in
    let (clicked, acts) = click_button sel b in
    let (later, more) = try_candidates screen modal sels in
    if not (is_shown b.visible)
    then (later, more)
    else if clicked
    then (true, acts)
    else (later, acts ++ more)

-- The parent is clicked by the script alone; the error of its IsVisible is dropped with its answer.
unfoldable pub try_parent : Screen → (modal text : String) → Bool × List Act
try_parent screen modal text =
    if screen.has_space text || not (is_shown (screen.parent modal text).visible)
    then (false, [])
    else (
      not (is_some (screen.parent modal text).evaluated),
      evaluate_click (span_selector text) ∷ [],
    )

unfoldable pub try_click_button : Screen → (modal text : String) → Bool × List Act
try_click_button screen modal text =
    let (clicked, acts) = try_candidates screen modal (candidates text) in
    let (last, more) = try_parent screen modal text in
    if clicked then (true, acts) else (last, acts ++ more)

unfoldable pub try_buttons : Screen → (modal : String) → List String → Bool × List Act
try_buttons screen modal [] = (false, [])
try_buttons screen modal (t ∷ ts) =
    let (clicked, acts) = try_click_button screen modal t in
    let (later, more) = try_buttons screen modal ts in
    if clicked then (true, acts) else (later, acts ++ more)

-- Every handler is called; one answer of true is enough.
unfoldable pub dispatch : List Handler → Event → Bool
dispatch [] ev = false
dispatch (h ∷ hs) ev = let rest = dispatch hs ev in if h ev then true else rest

abbrev pub event_of : Screen → DialogPattern → Event
event_of screen pat = record {
  title = pat.name;
  body = screen.body pat.selector;
  selector = pat.selector;
  severity = pat.severity;
}

abbrev escape_acts : Bool → List Act
escape_acts true = press_escape ∷ []
escape_acts false = []

-- What is done to the page about one dialog that is visible.
unfoldable pub dismiss : List Handler → Screen → DialogPattern → List Act
dismiss hs screen pat =
    let auto = dispatch hs (event_of screen pat) in
    let (dismissed, acts) = try_buttons screen pat.selector pat.button_texts in
    acts ++ escape_acts (not dismissed && (pat.exit_by_escape || auto))

-- The first visible pattern's name, the events for the handlers, and what was done to the page.
unfoldable pub dismiss_patterns :
    List Handler → Screen → List DialogPattern → String × List Event × List Act
dismiss_patterns hs screen [] = ("", [], [])
dismiss_patterns hs screen (pat ∷ pats) =
    let rest = dismiss_patterns hs screen pats in
    if is_shown (screen.modal pat.selector)
    then (pat.name, event_of screen pat ∷ [], dismiss hs screen pat)
    else rest

abbrev pub dismiss_once : List Handler → Screen → String × List Event × List Act
dismiss_once hs screen = dismiss_patterns hs screen meet_dialog_patterns
