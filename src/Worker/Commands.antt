-- ===== src/Worker/Commands.antt =====
-- The commands of the Redis channel: the loop of subscribeBotCommands of internal/app/botworker.go.
-- A message is what its JSON decodes to, with the clock when it is taken.
use meeting_baa_s.Base.{
  ◌≡◌, refl, ap, ◌∙◌, inl, inr, ℕ, String, Bool, true, false, not, ◌&&◌, List, [], ◌∷◌, Result, ok,
  err, str_eq, if◌then◌else◌, Bool-cases,
}
use meeting_baa_s.Bot.Types.{StateType}
use meeting_baa_s.Bot.Context.{MeetingContext, set_paused}
use meeting_baa_s.Bot.World.{Request, cmd_pause, cmd_resume, cmd_chat, cmd_unknown}
use meeting_baa_s.Bot.Requests.{serve, serve_request}

pub record Command : Type 0 where
  pub action : String
  pub text : String

-- A chat without a page or a text does nothing.
unfoldable pub request_of : (at : ℕ) → (page : Bool) → Command → List Request
request_of at page c =
    if str_eq c.action "pause"
    then cmd_pause at ∷ []
    else if str_eq c.action "resume"
    then cmd_resume at ∷ []
    else if str_eq c.action "chat"
    then (if page && not (str_eq c.text "") then cmd_chat c.text ∷ [] else [])
    else cmd_unknown c.action ∷ []

abbrev pub Message : Type 0
Message = ℕ × Result Command

-- A payload that cannot be decoded is passed over.
unfoldable pub take_command : StateType → (page : Bool) → Message → MeetingContext → MeetingContext
take_command current page (at, err e) mc = mc
take_command current page (at, ok c) mc = serve current (request_of at page c) mc

unfoldable pub take_commands :
    StateType → (page : Bool) → List Message → MeetingContext → MeetingContext
take_commands current page [] mc = mc
take_commands current page (m ∷ ms) mc =
    take_commands current page ms (take_command current page m mc)

-- What the last pause or resume asked for.
abbrev pub wanted : Result Command → Bool → Bool
wanted (err e) flag = flag
wanted (ok c) flag =
    if str_eq c.action "pause" then true else if str_eq c.action "resume" then false else flag

abbrev pub last_wanted : List Message → Bool → Bool
last_wanted [] flag = flag
last_wanted (m ∷ ms) flag = last_wanted ms (wanted m.1 flag)

abbrev Follows : Result Command → MeetingContext → MeetingContext → Type 0
Follows m before after =
    (after.is_paused ≡ wanted m before.is_paused)
    × (after.end_reason ≡ before.end_reason)
    × (after.has_error ≡ before.has_error)

set_paused-fields :
    (flag : Bool) (t : ℕ) (mc : MeetingContext)
    → let after = set_paused flag t mc in
      (after.is_paused ≡ flag)
      × (after.end_reason ≡ mc.end_reason)
      × (after.has_error ≡ mc.has_error)
unfolding set_paused
set_paused-fields flag t mc = elim (Bool-cases (flag && not mc.is_paused)) [
  | inl e ↦ rw e (refl, refl, refl)
  | inr e ↦ elim (Bool-cases (not flag && mc.is_paused)) [
    | inl f ↦ rw (e, f) (refl, refl, refl)
    | inr f ↦ rw (e, f) (refl, refl, refl)
  ]
]

take_command-Follows :
    (current : StateType) (page : Bool) (m : Message) (mc : MeetingContext)
    → Follows m.1 mc (take_command current page m mc)
unfolding take_command request_of serve serve_request
take_command-Follows current page (at, err e) mc = (refl, refl, refl)
take_command-Follows current page (at, ok c) mc = elim (Bool-cases (str_eq c.action "pause")) [
  | inl p ↦ rw (p, request_of) (set_paused-fields true at mc)
  | inr p ↦ elim (Bool-cases (str_eq c.action "resume")) [
    | inl r ↦ rw (p, r, request_of) (set_paused-fields false at mc)
    | inr r ↦ elim (Bool-cases (str_eq c.action "chat")) [
      | inr h ↦ rw (p, r, h, request_of) (refl, refl, refl)
      | inl h ↦ elim (Bool-cases (page && not (str_eq c.text ""))) [
        | inl g ↦ rw (p, r, h, g, request_of) (refl, refl, refl)
        | inr g ↦ rw (p, r, h, g, request_of) (refl, refl, refl)
      ]
    ]
  ]
]

-- Whatever arrives on the channel, and in whichever state the bot is, it is paused afterwards just
-- where the last pause or resume asked for it, or it was before and there was none; no message gives
-- the session a reason to end or an error.
pub take_commands-Follows :
    (current : StateType) (page : Bool) (ms : List Message) (mc : MeetingContext)
    → let after = take_commands current page ms mc in
      (after.is_paused ≡ last_wanted ms mc.is_paused)
      × (after.end_reason ≡ mc.end_reason)
      × (after.has_error ≡ mc.has_error)
unfolding take_commands
take_commands-Follows current page [] mc = (refl, refl, refl)
take_commands-Follows current page (m ∷ ms) mc =
    let (p, r, e) = take_command-Follows current page m mc in
    let (p', r', e') = take_commands-Follows current page ms (take_command current page m mc) in
    (p' ∙ ap (last_wanted ms) p, r' ∙ r, e' ∙ e)
