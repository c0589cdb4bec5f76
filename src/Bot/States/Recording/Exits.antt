-- ===== src/Bot/States/Recording/Exits.antt =====
-- How the polling loops of the recording and the paused state are left.
use meeting_baa_s.Bot.Polling.Rules.{
  Leaves, left, stays, Leaves-if, poll_rule, poll_total, into_world-eq-some,
}
use meeting_baa_s.Bot.Polling.{Poll}
use meeting_baa_s.Base.{
  ℕ, ◌-◌, ◌≡◌, refl, ◌⊎◌, inl, inr, Bool, true, Option, none, some, arith, leb, any, is_some, ◌&&◌,
}
use meeting_baa_s.Bot.Types.{StateType, recording, paused, cleanup, EndReason}
use meeting_baa_s.Bot.Context.{MeetingContext, set_end_reason, should_stop}
use meeting_baa_s.Bot.World.{Tick, Script, World, Dependencies, with_mc}
use meeting_baa_s.Bot.Requests.{serve}
use meeting_baa_s.Bot.States.Recording.{
  Poll, poll_once, check_meeting, check_timeouts, update_attendees, max_recording_duration,
  execute_recording, finish, removed, first_reason,
}

-- The loop goes to Cleanup with an end reason, or to Paused without one and with the flag set.
abbrev pub IsExit : StateType → MeetingContext → Type 0
IsExit next mc =
    ((next ≡ cleanup) × (is_some mc.end_reason ≡ true))
    ⊎ ((next ≡ paused) × (mc.is_paused ≡ true) × (mc.end_reason ≡ none))

module _ (P : StateType → MeetingContext → Type 0) (Q : MeetingContext → Type 0) where
  pub Leaves-finish :
      (o : Option EndReason) (mc : MeetingContext)
      → ((r : EndReason) → o ≡ some r → P cleanup (set_end_reason r mc))
      → Q mc
      → Leaves P Q (finish o mc)
  Leaves-finish none mc f q = stays q
  Leaves-finish (some r) mc f q = left (f r refl)

pub set_end_reason-IsExit :
    (r : EndReason) (mc : MeetingContext) → IsExit cleanup (set_end_reason r mc)
unfolding set_end_reason
set_end_reason-IsExit r mc = inl (refl, refl)

abbrev pub LeavesWell : Poll → Type 0
LeavesWell = Leaves IsExit (λ mc. Unit {0})

check_timeouts-LeavesWell :
    (start now : ℕ) (mc : MeetingContext) → LeavesWell (check_timeouts start now mc)
unfolding check_timeouts
check_timeouts-LeavesWell start now mc =
    Leaves-finish IsExit (λ m. Unit {0}) (first_reason start now mc) mc
      (λ r e. set_end_reason-IsExit r mc) tt

check_meeting-LeavesWell :
    (start : ℕ) (t : Tick) (mc : MeetingContext) → LeavesWell (check_meeting start t mc)
unfolding check_meeting
check_meeting-LeavesWell start t mc =
    Leaves-if (mc.provider && mc.page)
      (λ e.
        Leaves-if (removed t.end_meeting) (λ f. left (set_end_reason-IsExit _ _))
          (λ f. check_timeouts-LeavesWell start t.now (serve recording t.during mc)))
      (λ e. check_timeouts-LeavesWell start t.now mc)

poll_once-LeavesWell :
    (deps : Dependencies) (start : ℕ) (t : Tick) (mc : MeetingContext)
    → LeavesWell (poll_once deps start t mc)
unfolding poll_once should_stop
poll_once-LeavesWell deps start t mc0 =
    let mc = serve recording t.before mc0 in
    Leaves-if t.cancelled (λ e. left (set_end_reason-IsExit _ mc))
      λ a.
        Leaves-if (should_stop mc) (λ e. left (inl (refl, e)))
          λ b.
            Leaves-if mc.is_paused (λ e. left (inr (refl, e, ground arith)))
              λ c.
                Leaves-if (leb max_recording_duration (t.now - start))
                  (λ e. left (set_end_reason-IsExit _ mc))
                  λ d. check_meeting-LeavesWell start t (update_attendees deps t mc)

-- The recording state is left for Cleanup with an end reason set, or for Paused while the pause
-- flag is set and no stop was requested; it calls no collaborator that changes the session.
pub execute_recording-IsExit :
    (deps : Dependencies) (s : Script) (w : World) {next : StateType} {w' : World}
    → execute_recording deps s w ≡ some (next, w')
    → IsExit next w'.mc × (w'.log ≡ w.log)
unfolding execute_recording
execute_recording-IsExit deps s w {next} {w'} h =
    let (mc, found, same) = into_world-eq-some w _ h in
    rw same (
      poll_rule (poll_once deps s.now) IsExit (λ m. Unit {0})
          (λ t m i. poll_once-LeavesWell deps s.now t m) s.ticks (serve recording s.before w.mc)
          next mc tt found,
      refl,
    )

-- A round at whose clock the recording has lasted four hours.
abbrev pub is_overdue : ℕ → Tick → Bool
is_overdue start t = leb max_recording_duration (t.now - start)

poll_once-overdue :
    (deps : Dependencies) (start : ℕ) (t : Tick) (mc : MeetingContext)
    → is_overdue start t ≡ true
    → Leaves (λ n m. Unit {0}) (λ m. ⊥) (poll_once deps start t mc)
unfolding poll_once
poll_once-overdue deps start t mc0 h =
    let mc = serve recording t.before mc0 in
    Leaves-if t.cancelled (λ e. left tt)
      λ a.
        Leaves-if (should_stop mc) (λ e. left tt)
          λ b.
            Leaves-if mc.is_paused (λ e. left tt)
              λ c.
                Leaves-if (leb max_recording_duration (t.now - start)) (λ e. left tt)
                  (λ e. cc (h, e))

-- The recording state returns once the clock of a round is four hours behind its beginning,
-- whatever is asked, read and answered before.
pub execute_recording_total :
    (deps : Dependencies) (s : Script) (w : World)
    → any (is_overdue s.now) s.ticks ≡ true
    → (r : StateType × World) × (execute_recording deps s w ≡ some r)
unfolding execute_recording
execute_recording_total deps s w h =
    let ((next, mc), found) =
      poll_total (poll_once deps s.now) (is_overdue s.now)
        (λ t m e. poll_once-overdue deps s.now t m e) s.ticks (serve recording s.before w.mc) h in
    ((next, with_mc mc w), rw found)

-- The recording state calls none of the collaborators that the log holds.
pub log-execute_recording :
    (deps : Dependencies) (s : Script) (w : World) {next : StateType} {w' : World}
    → execute_recording deps s w ≡ some (next, w')
    → w'.log ≡ w.log
unfolding execute_recording
log-execute_recording deps s w h = let (mc, found, same) = into_world-eq-some w _ h in rw same refl
