-- ===== src/Bot/States/Recording/Attendees.antt =====
-- Whom the recording state takes for an attendee.
use meeting_baa_s.Base.{ℕ, ◌-◌, ◌≡◌, refl, true, false, none, some, List, arith, leb, ◌&&◌}
use meeting_baa_s.Bot.Types.{StateType, EndReason, api_request, recording_timeout, bot_removed}
use meeting_baa_s.Bot.Context.{MeetingContext, set_end_reason, should_stop}
use meeting_baa_s.Bot.World.{Tick, Script, World, Dependencies, Request}
use meeting_baa_s.Bot.Requests.{serve}
use meeting_baa_s.Bot.Requests.Rules.{serve-SameSession, blames_attendees, serve-blames_attendees}
use meeting_baa_s.Bot.Types.{recording}
use meeting_baa_s.Bot.Polling.{Poll}
use meeting_baa_s.Bot.Polling.Rules.{Leaves, left, Leaves-if, poll_rule, into_world-eq-some}
use meeting_baa_s.Bot.States.Recording.{
  poll_once, check_meeting, check_timeouts, first_reason, update_attendees, check_no_speaker,
  check_no_one_joined, check_alone_in_meeting, removed, max_recording_duration, execute_recording,
}
use meeting_baa_s.Bot.States.Recording.Exits.{Leaves-finish}

-- Someone is taken to have joined, and the lack of attendees has not been given as a reason.
abbrev pub IsAttended : MeetingContext → Type 0
IsAttended mc = (mc.first_user_joined ≡ true) × (blames_attendees mc.end_reason ≡ false)

serve-IsAttended :
    (rs : List Request) (mc : MeetingContext) → IsAttended mc → IsAttended (serve recording rs mc)
serve-IsAttended rs mc h = (
  rw (serve-SameSession recording rs mc).first_user_joined h.0,
  serve-blames_attendees recording rs mc h.1,
)

update_attendees-IsAttended :
    (deps : Dependencies) (t : Tick) (mc : MeetingContext)
    → IsAttended mc
    → IsAttended (update_attendees deps t mc)
unfolding update_attendees
update_attendees-IsAttended deps t mc h = ground arith

no_one_joined_off :
    (start now : ℕ) (mc : MeetingContext)
    → mc.first_user_joined ≡ true
    → check_no_one_joined start now mc ≡ none
unfolding check_no_one_joined
no_one_joined_off start now mc h = ground arith

first_reason-blames :
    (start now : ℕ) (mc : MeetingContext) (r : EndReason)
    → mc.first_user_joined ≡ true
    → first_reason start now mc ≡ some r
    → blames_attendees (some r) ≡ false
unfolding first_reason check_no_speaker check_alone_in_meeting
first_reason-blames start now mc r h e = ground (arith, no_one_joined_off start now mc)

abbrev LeavesAttended : Poll → Type 0
LeavesAttended = Leaves (λ n mc. IsAttended mc) IsAttended

set_end_reason-IsAttended :
    (r : EndReason) (mc : MeetingContext)
    → blames_attendees (some r) ≡ false
    → IsAttended mc
    → IsAttended (set_end_reason r mc)
unfolding set_end_reason
set_end_reason-IsAttended r mc e h = (h.0, e)

check_timeouts-IsAttended :
    (start now : ℕ) (mc : MeetingContext)
    → IsAttended mc
    → LeavesAttended (check_timeouts start now mc)
unfolding check_timeouts
check_timeouts-IsAttended start now mc h =
    Leaves-finish (λ n m. IsAttended m) IsAttended (first_reason start now mc) mc
      (λ r e. set_end_reason-IsAttended r mc (first_reason-blames start now mc r h.0 e) h) h

check_meeting-IsAttended :
    (start : ℕ) (t : Tick) (mc : MeetingContext)
    → IsAttended mc
    → LeavesAttended (check_meeting start t mc)
unfolding check_meeting
check_meeting-IsAttended start t mc h =
    let mc' = serve recording t.during mc in
    let h' = serve-IsAttended t.during mc h in
    Leaves-if (mc.provider && mc.page)
      (λ e.
        Leaves-if (removed t.end_meeting)
          (λ f. left (set_end_reason-IsAttended bot_removed mc' refl h'))
          (λ f. check_timeouts-IsAttended start t.now mc' h'))
      (λ e. check_timeouts-IsAttended start t.now mc h)

poll_once-IsAttended :
    (deps : Dependencies) (start : ℕ) (t : Tick) (mc : MeetingContext)
    → IsAttended mc
    → LeavesAttended (poll_once deps start t mc)
unfolding poll_once
poll_once-IsAttended deps start t mc0 h0 =
    let mc = serve recording t.before mc0 in
    let h = serve-IsAttended t.before mc0 h0 in
    Leaves-if t.cancelled (λ e. left (set_end_reason-IsAttended api_request mc refl h))
      λ a.
        Leaves-if (should_stop mc) (λ e. left h)
          λ b.
            Leaves-if mc.is_paused (λ e. left h)
              λ c.
                Leaves-if (leb max_recording_duration (t.now - start))
                  (λ e. left (set_end_reason-IsAttended recording_timeout mc refl h))
                  λ d.
                    check_meeting-IsAttended start t (update_attendees deps t mc)
                      (update_attendees-IsAttended deps t mc h)

-- Once someone is taken to have joined, the recording state never ends the session for lack of
-- attendees.
pub execute_recording-IsAttended :
    (deps : Dependencies) (s : Script) (w : World) {next : StateType} {w' : World}
    → execute_recording deps s w ≡ some (next, w')
    → IsAttended w.mc
    → IsAttended w'.mc
unfolding execute_recording
execute_recording-IsAttended deps s w {next} {w'} h i =
    let (mc, found, same) = into_world-eq-some w _ h in
    rw same (
      poll_rule (poll_once deps s.now) (λ n m. IsAttended m) IsAttended
        (poll_once-IsAttended deps s.now) s.ticks (serve recording s.before w.mc) next mc
        (serve-IsAttended s.before w.mc i) found)
