-- ===== src/Bot/Machine/Launched.antt =====
-- What the context knows of the browser, and what became of it.
use meeting_baa_s.Base.{
  ◌≡◌, refl, ℕ, Bool, true, false, none, some, List, [], ◌∷◌, String, Result, ok, err, arith, any,
}
use meeting_baa_s.Retry.{Report}
use meeting_baa_s.Bot.Types.{
  StateType, initialization, waiting_room, in_call, recording, paused, resuming, cleanup, error,
  terminated,
}
use meeting_baa_s.Bot.Context.{Provider, set_error, set_start_time}
use meeting_baa_s.Bot.World.{Script, World, Dependencies, Effect, Request, launch, with_mc}
use meeting_baa_s.Bot.Requests.{serve}
use meeting_baa_s.Bot.Requests.Rules.{serve-SameSession}
use meeting_baa_s.Bot.States.Setup.{
  execute_initialization, execute_waiting_room, execute_in_call, attach_hooks, after_parse,
  after_launch, after_open, after_join, start_recorder,
}
use meeting_baa_s.Bot.States.Recording.Exits.{log-execute_recording}
use meeting_baa_s.Bot.States.Paused.{execute_resuming}
use meeting_baa_s.Bot.States.Paused.Exits.{execute_paused-IsExit, execute_paused_keeps}
use meeting_baa_s.Bot.States.Recording.Drivers.{
  Drives, serve-Drives, set_end_reason-Drives, execute_recording-Drives,
}
use meeting_baa_s.Bot.States.Closing.{execute_cleanup, execute_error, execute_terminated}
use meeting_baa_s.Bot.Machine.Steps.{execute, some_pair}

-- A launch that returned no error.
abbrev pub is_launched : Effect → Bool
is_launched (launch attempts none) = true
is_launched _ = false

-- The context has a driver exactly where one was launched.
abbrev pub IsTracked : World → Type 0
IsTracked w = any is_launched w.log ≡ w.mc.browser_driver

attach_hooks-IsTracked :
    (hooks : List Bool) (w : World) → IsTracked w → IsTracked (attach_hooks hooks w)
unfolding attach_hooks
attach_hooks-IsTracked [] w q = q
attach_hooks-IsTracked (hook ∷ hooks) w q = attach_hooks-IsTracked hooks _ (ground arith)

with-IsTracked :
    (c : StateType) (rs : List Request) (w : World)
    → IsTracked w
    → IsTracked (with_mc (serve c rs w.mc) w)
with-IsTracked c rs w q = rw (serve-SameSession c rs w.mc).browser_driver q

launch-IsTracked :
    (s : Script) (link : String) (r : Report) (calls : ℕ) (w : World)
    → IsTracked w
    → IsTracked (after_launch s link r (record w { log = launch calls r.error ∷ w.log })).1
unfolding after_launch after_open set_error
launch-IsTracked s link r calls w q =
    ground
      (arith, serve-SameSession initialization s.during (record w.mc { browser_driver = true }))

parse-IsTracked :
    (s : Script) (p : Result (Provider × String)) (w : World)
    → IsTracked w
    → IsTracked (after_parse s p w).1
unfolding after_parse set_error
parse-IsTracked s (err e) w q = q
parse-IsTracked s (ok (provider, link)) w q = launch-IsTracked s link _ _ _ q

waiting_room-IsTracked :
    (s : Script) (w : World) → IsTracked w → IsTracked (execute_waiting_room s w).1
unfolding execute_waiting_room after_join set_error
waiting_room-IsTracked s w q =
    let v = serve waiting_room s.before w.mc in
    ground (
      arith,
      serve-SameSession waiting_room s.before w.mc,
      serve-SameSession waiting_room s.during v,
    )

start_recorder-IsTracked :
    (deps : Dependencies) (s : Script) (w : World)
    → IsTracked w
    → IsTracked (start_recorder deps s w).1
unfolding start_recorder set_error set_start_time
start_recorder-IsTracked deps s w q = ground arith

in_call-IsTracked :
    (deps : Dependencies) (s : Script) (w : World)
    → IsTracked w
    → IsTracked (execute_in_call deps s w).1
unfolding execute_in_call set_error
in_call-IsTracked deps s w q =
    let v = with_mc (serve in_call s.before w.mc) w in
    let q0 : IsTracked v = with-IsTracked in_call s.before w q in
    let v' = attach_hooks deps.page_hooks v in
    let q1 : IsTracked v' = attach_hooks-IsTracked deps.page_hooks v q0 in
    ground (
      arith,
      q0,
      start_recorder-IsTracked deps s (with_mc (serve in_call s.during v'.mc) v')
          (with-IsTracked in_call s.during v' q1),
    )

resuming-IsTracked :
    (deps : Dependencies) (s : Script) (w : World)
    → IsTracked w
    → IsTracked (execute_resuming deps s w).1
unfolding execute_resuming set_error
resuming-IsTracked deps s w q = ground (arith, serve-SameSession resuming s.before w.mc)

error-IsTracked :
    (deps : Dependencies) (s : Script) (w : World)
    → IsTracked w
    → IsTracked (execute_error deps s w).1
unfolding execute_error
error-IsTracked deps s w q = ground (arith, serve-SameSession error s.before w.mc)

cleanup-IsTracked :
    (deps : Dependencies) (s : Script) (w : World)
    → IsTracked w
    → IsTracked (execute_cleanup deps s w).1
unfolding execute_cleanup
cleanup-IsTracked deps s w q =
    let v = serve cleanup s.before w.mc in
    ground (arith, serve-SameSession cleanup s.before w.mc, serve-SameSession cleanup s.during v)

pub execute-IsTracked :
    (deps : Dependencies) (c : StateType) (s : Script) (w : World) (next : StateType) (w' : World)
    → execute deps c s w ≡ some (next, w')
    → IsTracked w
    → IsTracked w'
execute-IsTracked deps initialization s w next w' h q =
    some_pair (λ n. IsTracked) (execute_initialization deps s w) next w' h
      (unfold execute_initialization in
        parse-IsTracked s _ _ (with-IsTracked initialization s.before w q))
execute-IsTracked deps waiting_room s w next w' h q =
    some_pair (λ n. IsTracked) (execute_waiting_room s w) next w' h (waiting_room-IsTracked s w q)
execute-IsTracked deps in_call s w next w' h q =
    some_pair (λ n. IsTracked) (execute_in_call deps s w) next w' h (in_call-IsTracked deps s w q)
execute-IsTracked deps recording s w next w' h q =
    rw (log-execute_recording deps s w h)
      (rw (execute_recording-Drives w.mc.browser_driver deps s w next w' h refl) q)
execute-IsTracked deps paused s w next w' h q =
    let same =
      execute_paused_keeps (Drives w.mc.browser_driver)
        (λ rs mc. serve-Drives w.mc.browser_driver paused rs mc)
        (λ mc. set_end_reason-Drives w.mc.browser_driver _ mc) deps s w h refl in
    rw ((execute_paused-IsExit deps s w h).1, same) (ground (arith, q))
execute-IsTracked deps resuming s w next w' h q =
    some_pair (λ n. IsTracked) (execute_resuming deps s w) next w' h (resuming-IsTracked deps s w q)
execute-IsTracked deps cleanup s w next w' h q =
    some_pair (λ n. IsTracked) (execute_cleanup deps s w) next w' h (cleanup-IsTracked deps s w q)
execute-IsTracked deps error s w next w' h q =
    some_pair (λ n. IsTracked) (execute_error deps s w) next w' h (error-IsTracked deps s w q)
execute-IsTracked deps terminated s w next w' h q =
    some_pair (λ n. IsTracked) (execute_terminated s w) next w' h (unfold execute_terminated in q)
