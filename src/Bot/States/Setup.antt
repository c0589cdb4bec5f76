-- ===== src/Bot/States/Setup.antt =====
-- Initialization, waiting room and in-call: internal/usecase/bot/states/initialization.go,
-- waiting_room.go and in_call.go. The provider is Meet's, as NewBotWorker wires it, whose
-- BuildMeetingLink returns the parsed link.
pub mod Attendees
pub mod Outcomes
pub mod Quiet
pub mod Reaching
use Prim.Native.String
use meeting_baa_s.Base.{
  ℕ, ◌/◌, String, Bool, true, false, not, ◌&&◌, ◌||◌, Option, none, some, List, [], ◌∷◌, Result, ok,
  err, Failure, is_positive, seconds, if◌then◌else◌,
}
use meeting_baa_s.Retry.{Options, Report, do_retry}
use meeting_baa_s.Bot.Types.{
  StateType, initialization, waiting_room, in_call, recording, cleanup, error, EndReason,
  cannot_join_meeting, invalid_meeting_url, internal, timeout_waiting, bot_not_accepted,
  exit_before_record,
}
use meeting_baa_s.Bot.Context.{Provider, MeetingContext, set_error, should_stop, set_start_time}
use meeting_baa_s.Bot.World.{
  Script, World, Dependencies, emit, with_mc, launch, open_page, join_meeting, attach_hook,
  recorder_start,
}
use meeting_baa_s.Bot.Requests.{serve}

-- `retry.Options{MaxAttempts: 3}`: every other option has its default.
abbrev launch_options : Options
launch_options = record {
  max_attempts = 3;
  initial_delay = 0;
  max_delay = 0;
  scale = none;
  is_retryable = none;
}

-- `mc.SetError(reason, msg)`, and on to the Error state.
abbrev pub fail : EndReason → String → World → StateType × World
fail reason msg w = (error, with_mc (set_error reason msg w.mc) w)

unfoldable pub after_open : Script → World → StateType × World
after_open s w = elim s.open_page [
  | some e ↦ fail cannot_join_meeting (String.◌++◌ "open page failed: " e) w
  | none ↦ (waiting_room, with_mc (record w.mc { page = true; provider = true }) w)
]

unfoldable pub after_launch : Script → String → Report → World → StateType × World
unfolding after_open
after_launch s link r w = elim r.error [
  | some e ↦ fail cannot_join_meeting (String.◌++◌ "browser launch failed: " e) w
  | none ↦
      let mc = serve initialization s.during (record w.mc { browser_driver = true }) in
      after_open s (emit (open_page link) (with_mc mc w))
]

unfoldable pub after_parse : Script → Result (Provider × String) → World → StateType × World
after_parse s (err e) w = fail invalid_meeting_url e w
after_parse s (ok (provider, link)) w =
    let r = do_retry launch_options s.launch s.backoff in
    let mc = record w.mc { config = record w.mc.config { meeting_provider = some provider } } in
    after_launch s link r (emit (launch r.calls r.error) (with_mc mc w))

unfoldable pub execute_initialization : Dependencies → Script → World → StateType × World
execute_initialization deps s w0 =
    let w = with_mc (serve initialization s.before w0.mc) w0 in
    after_parse s (deps.parse_url w.mc.config.meeting_url) w

-- How long the bot waits in the lobby: ten minutes unless the configuration says otherwise.
unfoldable pub waiting_timeout : MeetingContext → ℕ
waiting_timeout mc =
    let timeout = seconds mc.config.automatic_leave.waiting_room_timeout in
    if is_positive timeout then timeout else 600000000000

abbrev joined : Bool → MeetingContext → MeetingContext
joined true mc = record mc { first_user_joined = true }
joined false mc = mc

unfoldable pub after_join : Script → World → StateType × World
after_join s w = elim s.join_meeting [
  | none ↦ (in_call, w)
  | some e ↦
      if should_stop w.mc
      then (cleanup, w)
      else if s.join_expired
      then fail timeout_waiting "waiting room timeout exceeded" w
      else fail bot_not_accepted e w
]

unfoldable pub execute_waiting_room : Script → World → StateType × World
unfolding after_join waiting_timeout
execute_waiting_room s w0 =
    let w = with_mc (serve waiting_room s.before w0.mc) w0 in
    if not w.mc.page || not w.mc.provider
    then fail internal "waiting_room: nil page or provider" w
    else let w' = emit (join_meeting (waiting_timeout w.mc)) w in
      after_join s (with_mc (joined s.join_success (serve waiting_room s.during w'.mc)) w')

-- The hooks that are set are attached to the page; a failure is only logged.
unfoldable pub attach_hooks : List Bool → World → World
attach_hooks [] w = w
attach_hooks (hook ∷ hooks) w =
    attach_hooks hooks (if hook && w.mc.page then emit attach_hook w else w)

-- `SetStartTime(time.Now().UnixMilli())` and the speaker clock.
abbrev begin_recording : Script → World → StateType × World
begin_recording s w = (
  recording,
  with_mc (record (set_start_time (s.now / 1000000) w.mc) { last_speaker_time = s.now }) w,
)

unfoldable pub start_recorder : Dependencies → Script → World → StateType × World
start_recorder deps s w =
    if deps.recorder
    then (let w' = emit (recorder_start s.recorder_start) w in
        elim s.recorder_start [
          | some e ↦ fail internal (String.◌++◌ "failed to start recording: " e) w'
          | none ↦ begin_recording s w'
        ])
    else begin_recording s w

unfoldable pub execute_in_call : Dependencies → Script → World → StateType × World
unfolding start_recorder
execute_in_call deps s w0 =
    let w = with_mc (serve in_call s.before w0.mc) w0 in
    if should_stop w.mc
    then (
      cleanup,
      with_mc (set_error exit_before_record "Bot was stopped before recording started" w.mc) w,
    )
    else let w' = attach_hooks deps.page_hooks w in
      start_recorder deps s (with_mc (serve in_call s.during w'.mc) w')
