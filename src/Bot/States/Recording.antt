-- ===== src/Bot/States/Recording.antt =====
-- internal/usecase/bot/states/recording.go. One round of the loop takes one reading of the clock.
pub mod Attendees
pub mod Drivers
pub mod Exits
use meeting_baa_s.Bot.Polling.{Poll, leave, again, poll, into_world}
use meeting_baa_s.Base.{
  ℕ, zero, suc, ◌-◌, String, Bool, true, false, not, ◌&&◌, ◌||◌, Option, none, some, List, [], ◌∷◌,
  Result, ok, err, any, ltb, leb, ◌==◌, str_eq, is_positive, seconds, if◌then◌else◌,
}
use meeting_baa_s.Bot.Types.{
  StateType, recording, paused, cleanup, EndReason, bot_removed, no_attendees, no_speaker,
  all_participants_left, recording_timeout, api_request,
}
use meeting_baa_s.Bot.Context.{MeetingContext, set_end_reason, should_stop}
use meeting_baa_s.Bot.World.{Tick, Script, World, Dependencies, with_mc}
use meeting_baa_s.Bot.Requests.{serve}

abbrev pub max_recording_duration : ℕ
max_recording_duration = 14400000000000

abbrev pub first_user_grace_period : ℕ
first_user_grace_period = 30000000000

-- A name that is set and is not the bot's.
abbrev pub is_other : String → String → Bool
is_other bot_name n = not (str_eq n "") && not (str_eq n bot_name)

unfoldable pub other_count : String → List String → ℕ
other_count bot_name [] = 0
other_count bot_name (n ∷ names) =
    let rest = other_count bot_name names in if is_other bot_name n then suc rest else rest

abbrev set_attendees : ℕ → MeetingContext → MeetingContext
set_attendees n mc = record mc {
  attendees_count = n;
  first_user_joined = ltb 0 n || mc.first_user_joined;
}

abbrev set_speaking : Bool → ℕ → MeetingContext → MeetingContext
set_speaking true now mc = record mc { last_speaker_time = now; no_speaker_detected_time = 0 }
set_speaking false now mc =
    if mc.no_speaker_detected_time == 0 && mc.first_user_joined
    then record mc { no_speaker_detected_time = now }
    else mc

unfoldable pub update_attendees : Dependencies → Tick → MeetingContext → MeetingContext
update_attendees deps t mc =
    let name = mc.config.bot_name in
    if deps.speakers
    then set_speaking (any (is_other name) t.active) t.now
        (set_attendees (other_count name t.all) mc)
    else mc

-- `recordStart` and the clock come first; the answer is the reason to leave, if there is one.
unfoldable pub check_no_speaker : ℕ → ℕ → MeetingContext → Option EndReason
check_no_speaker start now mc =
    let timeout = seconds mc.config.automatic_leave.silence_timeout in
    if not (is_positive timeout)
    then none
    else if not mc.first_user_joined
    then none
    else if mc.no_speaker_detected_time == 0
    then none
    else if leb timeout (now - mc.no_speaker_detected_time)
    then (if ltb (now - start) first_user_grace_period then none else some no_speaker)
    else none

unfoldable pub check_no_one_joined : ℕ → ℕ → MeetingContext → Option EndReason
check_no_one_joined start now mc =
    let timeout = seconds mc.config.automatic_leave.noone_joined_timeout in
    if not (is_positive timeout)
    then none
    else if mc.first_user_joined
    then none
    else if leb timeout (now - start)
    then some no_attendees
    else none

abbrev alone_timeout : MeetingContext → ℕ
alone_timeout mc =
    let timeout = seconds mc.config.automatic_leave.noone_joined_timeout in
    if is_positive timeout then timeout else 60000000000

unfoldable pub check_alone_in_meeting : ℕ → ℕ → MeetingContext → Option EndReason
check_alone_in_meeting start now mc =
    if not mc.first_user_joined
    then none
    else if ltb 0 mc.attendees_count
    then none
    else if ltb (now - start) first_user_grace_period
    then none
    else if mc.no_speaker_detected_time == 0
    then none
    else if leb (alone_timeout mc) (now - mc.no_speaker_detected_time)
    then some all_participants_left
    else none

abbrev or_else : Option EndReason → Option EndReason → Option EndReason
or_else none second = second
or_else (some r) second = some r

abbrev finish : Option EndReason → MeetingContext → Poll
finish none mc = again mc
finish (some reason) mc = leave cleanup (set_end_reason reason mc)

-- The reason of the first of three tests that fires.
unfoldable pub first_reason : ℕ → ℕ → MeetingContext → Option EndReason
first_reason start now mc =
    or_else (check_no_speaker start now mc)
      (or_else (check_no_one_joined start now mc) (check_alone_in_meeting start now mc))

-- Steps 7 to 9 of a round.
unfoldable pub check_timeouts : ℕ → ℕ → MeetingContext → Poll
check_timeouts start now mc = finish (first_reason start now mc) mc

abbrev pub removed : Result Bool → Bool
removed (ok b) = b
removed (err e) = false

-- Step 6, and the steps behind it. What is asked during FindEndMeeting is served before it
-- answers; without a page it is not called.
unfoldable pub check_meeting : ℕ → Tick → MeetingContext → Poll
check_meeting start t mc =
    if mc.provider && mc.page
    then (let mc' = serve recording t.during mc in
        if removed t.end_meeting
        then leave cleanup (set_end_reason bot_removed mc')
        else check_timeouts start t.now mc')
    else check_timeouts start t.now mc

unfoldable pub poll_once : Dependencies → ℕ → Tick → MeetingContext → Poll
poll_once deps start t mc0 =
    let mc = serve recording t.before mc0 in
    if t.cancelled
    then leave cleanup (set_end_reason api_request mc)
    else if should_stop mc
    then leave cleanup mc
    else if mc.is_paused
    then leave paused mc
    else if leb max_recording_duration (t.now - start)
    then leave cleanup (set_end_reason recording_timeout mc)
    else check_meeting start t (update_attendees deps t mc)

unfoldable pub execute_recording : Dependencies → Script → World → Option (StateType × World)
execute_recording deps s w =
    into_world w (poll (poll_once deps s.now) s.ticks (serve recording s.before w.mc))
