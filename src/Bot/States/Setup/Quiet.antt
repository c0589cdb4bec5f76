-- ===== src/Bot/States/Setup/Quiet.antt =====
-- The states before the recording close nothing.
use meeting_baa_s.Base.{◌≡◌, Bool, true, false, List, [], ◌∷◌, arith, any, String, Result, ok, err}
use meeting_baa_s.Retry.{Report}
use meeting_baa_s.Bot.Types.{in_call}
use meeting_baa_s.Bot.Context.{Provider}
use meeting_baa_s.Bot.World.{
  Script, World, Dependencies, Effect, recorder_stop, close_meeting, upload, send_complete,
  close_browser, with_mc,
}
use meeting_baa_s.Bot.Requests.{serve}
use meeting_baa_s.Bot.States.Setup.{
  execute_waiting_room, execute_in_call, attach_hooks, after_launch, after_parse, after_open,
  after_join, start_recorder,
}

-- The calls that only Cleanup makes.
abbrev pub is_closing : Effect → Bool
is_closing recorder_stop = true
is_closing close_meeting = true
is_closing upload = true
is_closing (send_complete reason) = true
is_closing close_browser = true
is_closing _ = false

abbrev pub IsQuiet : World → Type 0
IsQuiet w = any is_closing w.log ≡ false

pub attach_hooks-IsQuiet :
    (hooks : List Bool) (w : World) → IsQuiet w → IsQuiet (attach_hooks hooks w)
unfolding attach_hooks
attach_hooks-IsQuiet [] w q = q
attach_hooks-IsQuiet (hook ∷ hooks) w q = attach_hooks-IsQuiet hooks _ (ground arith)

after_launch-IsQuiet :
    (s : Script) (link : String) (r : Report) (w : World)
    → IsQuiet w
    → IsQuiet (after_launch s link r w).1
unfolding after_launch after_open
after_launch-IsQuiet s link r w q = ground arith

pub after_parse-IsQuiet :
    (s : Script) (p : Result (Provider × String)) (w : World)
    → IsQuiet w
    → IsQuiet (after_parse s p w).1
unfolding after_parse
after_parse-IsQuiet s (err e) w q = q
after_parse-IsQuiet s (ok (provider, link)) w q = after_launch-IsQuiet s link _ _ q

start_recorder-IsQuiet :
    (deps : Dependencies) (s : Script) (w : World) → IsQuiet w → IsQuiet (start_recorder deps s w).1
unfolding start_recorder
start_recorder-IsQuiet deps s w q = ground arith

pub waiting_room-IsQuiet :
    (s : Script) (w : World) → IsQuiet w → IsQuiet (execute_waiting_room s w).1
unfolding execute_waiting_room after_join
waiting_room-IsQuiet s w q = ground arith

pub in_call-IsQuiet :
    (deps : Dependencies) (s : Script) (w : World)
    → IsQuiet w
    → IsQuiet (execute_in_call deps s w).1
unfolding execute_in_call
in_call-IsQuiet deps s w q =
    let v = with_mc (serve in_call s.before w.mc) w in
    let v' = attach_hooks deps.page_hooks v in
    ground (
      arith,
      attach_hooks-IsQuiet deps.page_hooks v q,
      start_recorder-IsQuiet deps s (with_mc (serve in_call s.during v'.mc) v')
          (attach_hooks-IsQuiet deps.page_hooks v q),
    )
