-- ===== src/Meeting/Meet.antt =====
-- The Google Meet provider: internal/infra/meeting/meet/join.go with the rules of state_config.go, the
-- selectors of selectors.go and FindEndMeeting of provider.go. The page is outside: `Dom` answers the
-- calls of a locator during one step of the flow.
pub mod Admission
pub mod Naming
pub mod Observing
pub mod Opening
pub mod Sessions
use meeting_baa_s.Base.{
  ℕ, zero, suc, ◌+◌, ◌-◌, ◌*◌, ◌^◌, String, Bool, true, false, ◌&&◌, Option, none, some, List, [],
  ◌∷◌, Result, ok, err, Failure, ltb, str_eq, if◌then◌else◌,
}
use meeting_baa_s.Meeting.Detector.{StateRule, detect}

abbrev pub sel_name_input : String
sel_name_input = "input[type=\"text\"][aria-label=\"Your name\"]"

abbrev pub sel_name_input_fallback : String
sel_name_input_fallback = "input[placeholder*=\"name\"]"

abbrev pub sel_ask_to_join_button : String
sel_ask_to_join_button = "button[jsname=\"Qx7uuf\"]"

abbrev pub sel_ask_to_join_button_text : String
sel_ask_to_join_button_text = "text=Ask to join"

abbrev pub sel_join_now_button : String
sel_join_now_button = "button[jsname=\"A5il2e\"]"

abbrev pub sel_leave_call_button : String
sel_leave_call_button = "button[aria-label=\"Leave call\"]"

abbrev pub sel_cam_toggle_button : String
sel_cam_toggle_button = "button[aria-label*=\"camera\"]"

abbrev pub sel_removed_from_call_text : String
sel_removed_from_call_text = "text=You've been removed from the meeting"

abbrev pub sel_meeting_ended_text : String
sel_meeting_ended_text = "text=This meeting has ended"

abbrev pub sel_login_required_text : String
sel_login_required_text = "text=Sign in to your Google Account"

abbrev pub sel_lobby_denied_text : String
sel_lobby_denied_text = "text=Someone in the meeting has to let you in"

abbrev rule : String → List String → StateRule
rule name any_of = record { name = name; any_of = any_of; evaluate_timeout = 1000000000 }

unfoldable pub meet_state_config : List StateRule
meet_state_config =
    rule "removed" (sel_removed_from_call_text ∷ sel_meeting_ended_text ∷ [])
    ∷ rule "login_required" (sel_login_required_text ∷ [])
    ∷ rule "lobby_denied" (sel_lobby_denied_text ∷ [])
    ∷ rule "in_call" (sel_leave_call_button ∷ [])
    ∷ rule "lobby_open"
        (sel_ask_to_join_button ∷ sel_ask_to_join_button_text ∷ sel_join_now_button ∷ [])
    ∷ []

-- What the page answers by selector: IsVisible, Count, and the errors of Fill and Click.
pub record Dom : Type 0 where
  pub is_visible : String → Result Bool
  pub count : String → ℕ
  pub fill : String → Failure
  pub click : String → Failure

-- A call that changes the page, whatever it returned.
pub data Act : Type 0 where
  clicked : (selector : String) → Act
  filled : (selector text : String) → Act

-- `visible, _ := loc.IsVisible()`: false where it fails.
abbrev pub seen : Result Bool → Bool
seen (ok b) = b
seen (err e) = false

abbrev succeeds : Failure → Bool
succeeds none = true
succeeds (some e) = false

-- The first visible button whose click succeeds ends the loop. The calls stand latest first.
unfoldable pub click_first : Dom → List String → List Act → List Act
click_first dom [] acts = acts
click_first dom (sel ∷ sels) acts =
    if seen (dom.is_visible sel)
    then (if succeeds (dom.click sel)
        then clicked sel ∷ acts
        else click_first dom sels (clicked sel ∷ acts))
    else click_first dom sels acts

unfoldable pub click_join_button : Dom → List Act → List Act
click_join_button dom =
    click_first dom
      (sel_ask_to_join_button ∷ sel_join_now_button ∷ sel_ask_to_join_button_text ∷ [])

abbrev click_if : Bool → String → List Act → List Act
click_if b sel acts = if b then clicked sel ∷ acts else acts

unfoldable pub dismiss_popups : Dom → List Act → List Act
dismiss_popups dom acts =
    let dismiss : String = "button:has-text(\"Dismiss\")" in
    let got_it : String = "button:has-text(\"Got it\")" in
    click_if (seen (dom.is_visible got_it)) got_it
      (click_if (seen (dom.is_visible dismiss)) dismiss acts)

-- The one text that the join flow clicks.
unfoldable pub click_text_button : Dom → List Act → List Act
click_text_button dom acts =
    let sel : String = "span:has-text(\"Use without an account\")" in
    click_if (ltb 0 (dom.count sel)) sel acts

unfoldable pub toggle_button : Dom → String → List Act → List Act
toggle_button dom sel acts = click_if (seen (dom.is_visible sel)) sel acts

-- `1<<(attempt-5)` seconds from the fifth attempt on, eight at most.
unfoldable pub name_backoff : ℕ → ℕ
name_backoff attempt =
    if ltb attempt 5
    then 500000000
    else (let wait = 2 ^ (attempt - 5) * 1000000000 in
        if ltb 8000000000 wait then 8000000000 else wait)

pub record Typed : Type 0 where
  pub error : Failure
  pub acts : List Act
  -- the sleeps behind the attempts, latest first
  pub waits : List ℕ

abbrev typed : Failure → List Act → List ℕ → Typed
typed e acts waits = record { error = e; acts = acts; waits = waits }

-- One of the two selectors: whether it was filled, and the calls.
abbrev try_fill : Dom → String → String → List Act → Bool × List Act
try_fill dom name sel acts =
    if ltb 0 (dom.count sel)
    then (succeeds (dom.fill sel), filled sel name ∷ acts)
    else (false, acts)

-- `doms attempt` is the page of that attempt; `left` of ten are still to come.
unfoldable pub type_name_loop :
    (doms : ℕ → Dom) → String → (left attempt : ℕ) → List Act → List ℕ → Typed
type_name_loop doms name zero attempt acts waits =
    typed (some "meet: failed to type bot name after 10 attempts") acts waits
type_name_loop doms name (suc left) attempt acts waits =
    let (first, acts1) = try_fill (doms attempt) name sel_name_input acts in
    let (second, acts2) = try_fill (doms attempt) name sel_name_input_fallback acts1 in
    elim first [
      | true ↦ typed none acts1 waits
      | false ↦ elim second [
        | true ↦ typed none acts2 waits
        | false ↦ type_name_loop doms name left (suc attempt) acts2 (name_backoff attempt ∷ waits)
      ]
    ]

unfoldable pub type_bot_name_with_retry : (doms : ℕ → Dom) → String → List Act → Typed
type_bot_name_with_retry doms name acts = type_name_loop doms name 10 1 acts []

pub record JoinOptions : Type 0 where
  pub bot_name : String
  -- whether the two callbacks are set
  pub cancel_check : Bool
  pub on_join_success : Bool

-- One round of the loop: the context's error, the answer of CancelCheck, the page, and the context's
-- error when the detector asks for it.
pub record Round : Type 0 where
  pub context : Failure
  pub cancelled : Bool
  pub dom : Dom
  pub detected_context : Failure

-- What JoinMeeting returned, and whether it called OnJoinSuccess.
pub record Joined : Type 0 where
  pub error : Failure
  pub success : Bool
  pub acts : List Act

abbrev joined : Failure → Bool → List Act → Joined
joined e success acts = record { error = e; success = success; acts = acts }

abbrev pub bot_not_accepted : String
bot_not_accepted = "bot not accepted"

-- What a state that is detected decides; `none` goes round again.
unfoldable pub decide : JoinOptions → String → List Act → Option Joined
decide opts state acts =
    if str_eq state "in_call"
    then some (joined none opts.on_join_success acts)
    else if str_eq state "removed"
    then some (joined (some bot_not_accepted) false acts)
    else if str_eq state "lobby_denied"
    then some (joined (some bot_not_accepted) false acts)
    else if str_eq state "login_required"
    then some (joined (some "login required") false acts)
    else none

abbrev pub detected_state : Round → String
detected_state r = (detect (some r.dom.is_visible) r.detected_context meet_state_config).0

-- `none` while it still polls when the rounds end.
unfoldable pub await_admission : JoinOptions → List Round → List Act → Option Joined
await_admission opts [] acts = none
await_admission opts (r ∷ rs) acts = elim r.context [
  | some e ↦ some (joined (some e) false acts)
  | none ↦
      if opts.cancel_check && r.cancelled
      then some (joined (some bot_not_accepted) false acts)
      else elim (decide opts (detected_state r) acts) [
        | some j ↦ some j
        | none ↦ await_admission opts rs (click_join_button r.dom acts)
      ]
]

-- What the flow meets before its loop: the page at each step, and CancelCheck before the click.
pub record Lobby : Type 0 where
  pub popups : Dom
  pub account : Dom
  pub names : ℕ → Dom
  pub camera : Dom
  pub join : Dom
  pub cancelled : Bool
  pub rounds : List Round

unfoldable pub join_meeting : JoinOptions → Option Lobby → Option Joined
join_meeting opts none = some (joined (some "meet: nil page") false [])
join_meeting opts (some l) =
    let acts1 = click_text_button l.account (dismiss_popups l.popups []) in
    let acts2 = (type_bot_name_with_retry l.names opts.bot_name acts1).acts in
    let acts3 = toggle_button l.camera sel_cam_toggle_button acts2 in
    if opts.cancel_check && l.cancelled
    then some (joined (some bot_not_accepted) false acts3)
    else await_admission opts l.rounds (click_join_button l.join acts3)

-- The answer and the error of FindEndMeeting.
unfoldable pub find_end_meeting : Dom → Failure → Result Bool
find_end_meeting dom cancelled =
    let (state, e) = detect (some dom.is_visible) cancelled meet_state_config in
    elim e [ some m ↦ err m | none ↦ ok (str_eq state "removed") ]
