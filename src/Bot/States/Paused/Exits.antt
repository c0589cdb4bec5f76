-- ===== src/Bot/States/Paused/Exits.antt =====
-- How the paused state is left.
use meeting_baa_s.Base.{
  ◌≡◌, refl, ◌⊎◌, inl, inr, true, false, not, none, some, is_some, List, arith,
}
use meeting_baa_s.Bot.Types.{StateType, paused, resuming, cleanup, api_request}
use meeting_baa_s.Bot.Context.{MeetingContext, set_end_reason, should_stop}
use meeting_baa_s.Bot.World.{Tick, Script, World, Dependencies, Request}
use meeting_baa_s.Bot.Requests.{serve}
use meeting_baa_s.Bot.Polling.{poll}
use meeting_baa_s.Bot.Polling.Rules.{Leaves, left, stays, Leaves-if, poll_rule, into_world-eq-some}
use meeting_baa_s.Bot.States.Paused.{wait_once, execute_paused, enter, pause_recorder}

-- To Cleanup with an end reason, or to Resuming without one and with the flag cleared.
abbrev pub IsExit : StateType → MeetingContext → Type 0
IsExit next mc =
    ((next ≡ cleanup) × (is_some mc.end_reason ≡ true))
    ⊎ ((next ≡ resuming) × (mc.is_paused ≡ false) × (mc.end_reason ≡ none))

log-enter :
    (deps : Dependencies) (s : Script) (w : World)
    → (enter deps s w).log ≡ (pause_recorder deps w).log
log-enter deps s w = ground arith

mc-enter :
    (deps : Dependencies) (s : Script) (w : World)
    → (enter deps s w).mc ≡ serve paused s.before w.mc
mc-enter deps s w = ground arith

wait_once-IsExit : (t : Tick) (mc : MeetingContext) → Leaves IsExit (λ m. Unit {0}) (wait_once t mc)
unfolding wait_once set_end_reason should_stop
wait_once-IsExit t mc0 =
    let mc = serve paused t.before mc0 in
    Leaves-if t.cancelled (λ e. left (inl (refl, refl)))
      λ a.
        Leaves-if (should_stop mc) (λ e. left (inl (refl, e)))
          λ b.
            Leaves-if (not mc.is_paused) (λ e. left (inr (refl, ground arith, ground arith)))
              λ c. stays tt

-- The paused state is left for Cleanup with an end reason set, or for Resuming once the pause flag
-- is cleared and no stop was requested; it pauses the recorder, where there is one, and calls
-- nothing else.
pub execute_paused-IsExit :
    (deps : Dependencies) (s : Script) (w : World) {next : StateType} {w' : World}
    → execute_paused deps s w ≡ some (next, w')
    → IsExit next w'.mc × (w'.log ≡ (pause_recorder deps w).log)
unfolding execute_paused
execute_paused-IsExit deps s w {next} {w'} h =
    let v = enter deps s w in
    let (mc, found, same) = into_world-eq-some v (poll wait_once s.ticks v.mc) h in
    rw same (
      poll_rule wait_once IsExit (λ m. Unit {0}) (λ t m i. wait_once-IsExit t m) s.ticks v.mc next
          mc tt found,
      log-enter deps s w,
    )

module _ (I : MeetingContext → Type 0)
    (serve_keeps : (rs : List Request) (mc : MeetingContext) → I mc → I (serve paused rs mc))
    (stop_keeps : (mc : MeetingContext) → I mc → I (set_end_reason api_request mc)) where
  wait_once_keeps : (t : Tick) (mc : MeetingContext) → I mc → Leaves (λ n m. I m) I (wait_once t mc)
  unfolding wait_once
  wait_once_keeps t mc0 i0 =
      let mc = serve paused t.before mc0 in
      let i = serve_keeps t.before mc0 i0 in
      Leaves-if t.cancelled (λ e. left (stop_keeps mc i))
        λ a.
          Leaves-if (should_stop mc) (λ e. left i)
            λ b. Leaves-if (not mc.is_paused) (λ e. left i) λ c. stays i

  -- What requests and the end reason keep, the paused state keeps.
  pub execute_paused_keeps :
      (deps : Dependencies) (s : Script) (w : World) {next : StateType} {w' : World}
      → execute_paused deps s w ≡ some (next, w')
      → I w.mc
      → I w'.mc
  unfolding execute_paused
  execute_paused_keeps deps s w {next} {w'} h i =
      let v = enter deps s w in
      let (mc, found, same) = into_world-eq-some v (poll wait_once s.ticks v.mc) h in
      rw same (
        poll_rule wait_once (λ n m. I m) I wait_once_keeps s.ticks v.mc next mc
          (rw (mc-enter deps s w) (serve_keeps s.before w.mc i)) found)
