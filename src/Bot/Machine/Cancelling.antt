-- ===== src/Bot/Machine/Cancelling.antt =====
-- What cancelling the context of `Run` skips.
use meeting_baa_s.Base.{
  ◌≡◌, refl, ap, ◌∙◌, ◌≢◌, true, false, some, List, [], ◌∷◌, arith, any, inl, inr,
}
use meeting_baa_s.Bot.Types.{
  StateType, initialization, waiting_room, in_call, recording, paused, resuming, cleanup, error,
  terminated,
}
use meeting_baa_s.Bot.Context.{BotConfig}
use meeting_baa_s.Bot.World.{Script, World, Dependencies, new_world}
use meeting_baa_s.Bot.States.{build_state_map}
use meeting_baa_s.Bot.States.Setup.{execute_initialization, execute_waiting_room, execute_in_call}
use meeting_baa_s.Bot.States.Recording.Exits.{log-execute_recording}
use meeting_baa_s.Bot.States.Paused.{execute_resuming}
use meeting_baa_s.Bot.States.Paused.Exits.{execute_paused-IsExit}
use meeting_baa_s.Bot.States.Closing.{execute_cleanup, execute_error, execute_terminated}
use meeting_baa_s.Bot.States.Setup.Quiet.{
  is_closing, IsQuiet, after_parse-IsQuiet, waiting_room-IsQuiet, in_call-IsQuiet,
}
use meeting_baa_s.Bot.Machine.{Machine, Round, finished, running, stop, new_machine, run, step}
use meeting_baa_s.Bot.Machine.Steps.{execute, some_pair, step_at, step_split}

abbrev pub QuietBefore : StateType → World → Type 0
QuietBefore c w = c ≢ terminated → IsQuiet w

pub execute-QuietBefore :
    (deps : Dependencies) (c : StateType) (s : Script) (w : World) (next : StateType) (w' : World)
    → execute deps c s w ≡ some (next, w')
    → IsQuiet w
    → QuietBefore next w'
execute-QuietBefore deps initialization s w next w' h q =
    some_pair QuietBefore (execute_initialization deps s w) next w' h
      (unfold execute_initialization in λ t. after_parse-IsQuiet s _ _ q)
execute-QuietBefore deps waiting_room s w next w' h q =
    some_pair QuietBefore (execute_waiting_room s w) next w' h (λ t. waiting_room-IsQuiet s w q)
execute-QuietBefore deps in_call s w next w' h q =
    some_pair QuietBefore (execute_in_call deps s w) next w' h (λ t. in_call-IsQuiet deps s w q)
execute-QuietBefore deps recording s w next w' h q = λ t. rw (log-execute_recording deps s w h) q
execute-QuietBefore deps paused s w next w' h q =
    λ t. rw (execute_paused-IsExit deps s w h).1 (ground arith)
execute-QuietBefore deps resuming s w next w' h q =
    some_pair QuietBefore (execute_resuming deps s w) next w' h
      (unfold execute_resuming in ground arith)
execute-QuietBefore deps cleanup s w next w' h q =
    some_pair QuietBefore (execute_cleanup deps s w) next w' h
      (unfold execute_cleanup in λ t. absurd (t refl))
execute-QuietBefore deps error s w next w' h q =
    some_pair QuietBefore (execute_error deps s w) next w' h (unfold execute_error in ground arith)
execute-QuietBefore deps terminated s w next w' h q =
    some_pair QuietBefore (execute_terminated s w) next w' h
      (unfold execute_terminated in ground arith)

module _ (deps : Dependencies) where
  step_running :
      (m : Machine) (r : Round) (m' : Machine)
      → step (build_state_map deps) r m ≡ stop (running m')
      → (m' ≡ m) × (m.current ≢ terminated)
  unfolding step build_state_map
  step_running m r m' h = ground arith

  running-QuietBefore :
      (rs : List Round) (m m' : Machine)
      → run (build_state_map deps) rs m ≡ running m'
      → QuietBefore m.current m.world
      → IsQuiet m'.world × (m'.current ≢ terminated)
  unfolding run
  running-QuietBefore [] m m' h q = ground arith
  running-QuietBefore (r ∷ rs) m m' h q = elim (step_split deps m r) [
    | inl (n, e) ↦
        let (t, live, x) = step_at deps m.current m.world r n e in
        running-QuietBefore rs n m' (rw (e, run) at h)
          (execute-QuietBefore deps m.current r.script m.world n.current n.world x (q t))
    | inr (res, e) ↦
        let (same, t) = step_running m r m' (e ∙ ap stop (rw (e, run) at h)) in
        (rw same (q t), rw same t)
  ]

  step-cancelled :
      (m : Machine) (r : Round)
      → r.cancelled ≡ true
      → m.current ≢ terminated
      → step (build_state_map deps) r m ≡ stop (finished (record m { current = terminated }))
  unfolding step
  step-cancelled m r c t = ground arith

-- Wherever a session is before its end, a context that is cancelled when the next state would begin
-- ends the run at once, with nothing of Cleanup done: the recorder is not stopped, nothing is
-- uploaded, no completion webhook is sent and the browser is not closed.
pub run_cancelled :
    (deps : Dependencies) (cfg : BotConfig) (rounds : List Round) (m : Machine) (r : Round)
    → run (build_state_map deps) rounds (new_machine (new_world cfg)) ≡ running m
    → r.cancelled ≡ true
    → (run (build_state_map deps) (r ∷ []) m ≡ finished (record m { current = terminated }))
      × (any is_closing m.world.log ≡ false)
unfolding new_machine run
run_cancelled deps cfg rounds m r e c =
    let (quiet, t) =
      running-QuietBefore deps rounds (new_machine (new_world cfg)) m e (λ x. refl) in
    (rw (run, step-cancelled deps m r c t) refl, quiet)
