-- ===== src/Bot/States/Recording/Drivers.antt =====
-- The recording state, recording.go, keeps the context's driver.
use meeting_baa_s.Base.{◌≡◌, ℕ, ◌-◌, Bool, some, List, arith, leb, ◌&&◌}
use meeting_baa_s.Bot.Types.{StateType, EndReason, recording}
use meeting_baa_s.Bot.Context.{MeetingContext, set_end_reason, should_stop}
use meeting_baa_s.Bot.World.{Script, Tick, World, Dependencies, Request}
use meeting_baa_s.Bot.Requests.{serve}
use meeting_baa_s.Bot.Requests.Rules.{serve-SameSession}
use meeting_baa_s.Bot.Polling.{Poll}
use meeting_baa_s.Bot.Polling.Rules.{Leaves, left, Leaves-if, poll_rule, into_world-eq-some}
use meeting_baa_s.Bot.States.Recording.{
  poll_once, check_meeting, check_timeouts, first_reason, update_attendees, removed,
  max_recording_duration, execute_recording,
}
use meeting_baa_s.Bot.States.Recording.Exits.{Leaves-finish}

-- The context's driver.
abbrev pub Drives : Bool → MeetingContext → Type 0
Drives b mc = mc.browser_driver ≡ b

module _ (b : Bool) where
  pub serve-Drives :
      (c : StateType) (rs : List Request) (mc : MeetingContext)
      → Drives b mc
      → Drives b (serve c rs mc)
  serve-Drives c rs mc h = rw (serve-SameSession c rs mc).browser_driver h

  pub set_end_reason-Drives :
      (r : EndReason) (mc : MeetingContext) → Drives b mc → Drives b (set_end_reason r mc)
  unfolding set_end_reason
  set_end_reason-Drives r mc h = h

  update_attendees-Drives :
      (deps : Dependencies) (t : Tick) (mc : MeetingContext)
      → Drives b mc
      → Drives b (update_attendees deps t mc)
  unfolding update_attendees
  update_attendees-Drives deps t mc h = ground arith

  abbrev Keeps : Poll → Type 0
  Keeps = Leaves (λ n mc. Drives b mc) (Drives b)

  check_timeouts-Keeps :
      (start now : ℕ) (mc : MeetingContext) → Drives b mc → Keeps (check_timeouts start now mc)
  unfolding check_timeouts
  check_timeouts-Keeps start now mc h =
      Leaves-finish (λ n m. Drives b m) (Drives b) (first_reason start now mc) mc
        (λ r e. set_end_reason-Drives r mc h) h

  check_meeting-Keeps :
      (start : ℕ) (t : Tick) (mc : MeetingContext) → Drives b mc → Keeps (check_meeting start t mc)
  unfolding check_meeting
  check_meeting-Keeps start t mc h =
      let mc' = serve recording t.during mc in
      let h' = serve-Drives recording t.during mc h in
      Leaves-if (mc.provider && mc.page)
        (λ e.
          Leaves-if (removed t.end_meeting) (λ f. left (set_end_reason-Drives _ mc' h'))
            (λ f. check_timeouts-Keeps start t.now mc' h'))
        (λ e. check_timeouts-Keeps start t.now mc h)

  poll_once-Keeps :
      (deps : Dependencies) (start : ℕ) (t : Tick) (mc : MeetingContext)
      → Drives b mc
      → Keeps (poll_once deps start t mc)
  unfolding poll_once
  poll_once-Keeps deps start t mc0 h0 =
      let mc = serve recording t.before mc0 in
      let h = serve-Drives recording t.before mc0 h0 in
      Leaves-if t.cancelled (λ e. left (set_end_reason-Drives _ mc h))
        λ a.
          Leaves-if (should_stop mc) (λ e. left h)
            λ c.
              Leaves-if mc.is_paused (λ e. left h)
                λ d.
                  Leaves-if (leb max_recording_duration (t.now - start))
                    (λ e. left (set_end_reason-Drives _ mc h))
                    λ e.
                      check_meeting-Keeps start t (update_attendees deps t mc)
                        (update_attendees-Drives deps t mc h)

  pub execute_recording-Drives :
      (deps : Dependencies) (s : Script) (w : World) (next : StateType) (w' : World)
      → execute_recording deps s w ≡ some (next, w')
      → Drives b w.mc
      → Drives b w'.mc
  unfolding execute_recording
  execute_recording-Drives deps s w next w' h i =
      let (mc, found, same) = into_world-eq-some w _ h in
      rw same (
        poll_rule (poll_once deps s.now) (λ n m. Drives b m) (Drives b) (poll_once-Keeps deps s.now)
          s.ticks (serve recording s.before w.mc) next mc (serve-Drives recording s.before w.mc i)
          found)
