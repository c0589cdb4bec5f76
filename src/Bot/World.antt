-- ===== src/Bot/World.antt =====
-- What one run of the bot sees and does. The collaborators of internal/usecase/bot/states (browser
-- driver, meeting provider, recorder, uploader, webhook sender) are outside the states: `Script`
-- holds what they answer to one `Execute`, and `World.log` which of them were called. A script also
-- holds what other goroutines ask of the shared context while the state runs.
use meeting_baa_s.Base.{ℕ, String, Bool, Option, List, ◌∷◌, Result, Failure, []}
use meeting_baa_s.Bot.Types.{StateType, EndReason}
use meeting_baa_s.Bot.Context.{Provider, MeetingContext, BotConfig, new_context}

-- What the control plane of the bot-worker may be asked for: the HTTP server's stop, pause and
-- resume, and the commands of the Redis channel. `at` is the clock when the request is served.
pub data Request : Type 0 where
  http_stop : Request
  http_pause http_resume cmd_pause cmd_resume : (at : ℕ) → Request
  cmd_chat : (text : String) → Request
  cmd_unknown : (action : String) → Request

-- One round of a polling loop: what is asked before it, and what it reads. `end_meeting` is the
-- answer of FindEndMeeting, and `during` what is asked while that call waits for the page.
pub record Tick : Type 0 where
  pub cancelled : Bool
  pub now : ℕ
  pub before : List Request
  pub active : List String
  pub all : List String
  pub end_meeting : Result Bool
  pub during : List Request

pub record Script : Type 0 where
  -- the clock when the state begins to record
  pub now : ℕ
  pub before : List Request
  pub during : List Request
  -- the n-th Launch of the browser, and the sleep behind it
  pub launch : ℕ → Failure
  pub backoff : ℕ → Failure
  pub open_page : Failure
  -- whether JoinMeeting called OnJoinSuccess, what it returned, whether its context had expired
  pub join_success : Bool
  pub join_meeting : Failure
  pub join_expired : Bool
  pub recorder_start : Failure
  pub recorder_resume : Failure
  pub ticks : List Tick

-- A call of a collaborator, with what it returned where the session rests on it.
pub data Effect : Type 0 where
  launch : (attempts : ℕ) (failed : Failure) → Effect
  recorder_start : (failed : Failure) → Effect
  open_page : (link : String) → Effect
  join_meeting : (timeout : ℕ) → Effect
  attach_hook recorder_stop recorder_pause recorder_resume : Effect
  close_meeting upload close_browser : Effect
  send_complete : (reason : Option EndReason) → Effect
  send_error : (reason : Option EndReason) (message : String) → Effect

-- The latest call stands first.
pub record World : Type 0 where
  pub mc : MeetingContext
  pub log : List Effect

-- `Dependencies` of registry.go: which collaborators are wired (`true` is non-nil), and what
-- meeting.ParseURL answers: the provider and the meeting's link.
pub record Dependencies : Type 0 where
  pub parse_url : String → Result (Provider × String)
  pub recorder : Bool
  pub uploader : Bool
  pub webhooker : Bool
  pub page_hooks : List Bool
  pub speakers : Bool

abbrev pub emit : Effect → World → World
emit e w = record w { log = e ∷ w.log }

abbrev pub with_mc : MeetingContext → World → World
with_mc mc w = record w { mc = mc }

-- `Execute`: the next state or an error, and what it left behind; `none` while it still polls when
-- the script ends.
abbrev pub Handler : Type 0
Handler = Script → World → Option (Result StateType × World)

-- Before the first state.
abbrev pub new_world : BotConfig → World
new_world cfg = record { mc = new_context cfg; log = [] }
