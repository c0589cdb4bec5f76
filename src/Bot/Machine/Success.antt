-- ===== src/Bot/Machine/Success.antt =====
-- What a session that counts as successful has done.
use meeting_baa_s.Base.{
  ◌≡◌, refl, ◌≢◌, Bool, true, false, none, some, List, [], ◌∷◌, String, Result, ok, err, arith, any,
  All, ◌⊎◌, inl, inr,
}
use meeting_baa_s.Retry.{Report}
use meeting_baa_s.Bot.Types.{
  StateType, initialization, waiting_room, in_call, recording, paused, resuming, cleanup, error,
  terminated,
}
use meeting_baa_s.Bot.Context.{
  Provider, BotConfig, MeetingContext, new_context, set_end_reason, set_error, set_paused,
  should_stop,
}
use meeting_baa_s.Bot.World.{
  Script, World, Dependencies, Effect, recorder_start, new_world, with_mc, Request, http_stop,
}
use meeting_baa_s.Bot.Requests.{serve, serve_request, is_pre_recording, request_stop}
use meeting_baa_s.Bot.Requests.Rules.{serve_rule}
use meeting_baa_s.Bot.States.{build_state_map}
use meeting_baa_s.Bot.States.Setup.{
  execute_initialization, execute_waiting_room, execute_in_call, after_parse, after_launch,
  after_open, after_join, start_recorder,
}
use meeting_baa_s.Bot.States.Recording.Exits.{log-execute_recording, execute_recording-IsExit}
use meeting_baa_s.Bot.States.Paused.{execute_resuming}
use meeting_baa_s.Bot.States.Paused.Exits.{execute_paused-IsExit}
use meeting_baa_s.Bot.States.Closing.{execute_cleanup, execute_error}
use meeting_baa_s.Bot.Machine.{Machine, Round, finished, new_machine, run, was_recording_successful}
use meeting_baa_s.Bot.Machine.Steps.{execute, run_ends, run_keeps, some_pair}

abbrev pub is_recorder_start : Effect → Bool
is_recorder_start (recorder_start failed) = true
is_recorder_start _ = false

-- A Start that returned no error.
abbrev pub is_started : Effect → Bool
is_started (recorder_start none) = true
is_started _ = false

pub start-called :
    (log : List Effect) → any is_recorder_start log ≡ false → any is_started log ≡ false
start-called [] h = refl
start-called (recorder_start e ∷ log) h = ground (arith, h)
start-called (_ ∷ log) h = ground (arith, start-called log h)

abbrev pub IsStarted : World → Type 0
IsStarted w = any is_started w.log ≡ true

-- No end reason has been given without an error.
abbrev IsUnended : MeetingContext → Type 0
IsUnended mc = (mc.has_error ≡ true) ⊎ (mc.end_reason ≡ none)

request-IsUnended :
    (c : StateType) (r : Request) (mc : MeetingContext)
    → is_pre_recording c ≡ true
    → IsUnended mc
    → IsUnended (serve_request c r mc)
unfolding serve_request request_stop set_end_reason set_error set_paused
request-IsUnended c http_stop mc p h = ground arith
request-IsUnended c _ mc p h = ground arith

request-has_error :
    (c : StateType) (r : Request) (mc : MeetingContext)
    → mc.has_error ≡ true
    → (serve_request c r mc).has_error ≡ true
unfolding serve_request request_stop set_end_reason set_error set_paused
request-has_error c http_stop mc h = ground arith
request-has_error c _ mc h = ground arith

serve-IsUnended :
    (c : StateType) (rs : List Request) (mc : MeetingContext)
    → is_pre_recording c ≡ true
    → IsUnended mc
    → IsUnended (serve c rs mc)
serve-IsUnended c rs mc p = serve_rule IsUnended c (λ r m h. request-IsUnended c r m p h) rs mc

serve-has_error :
    (c : StateType) (rs : List Request) (mc : MeetingContext)
    → mc.has_error ≡ true
    → (serve c rs mc).has_error ≡ true
serve-has_error c rs mc =
    serve_rule (λ m. m.has_error ≡ true) c (λ r m h. request-has_error c r m h) rs mc

-- What holds in each state of a session with a recorder.
abbrev Progress : StateType → World → Type 0
Progress initialization w = IsUnended w.mc
Progress waiting_room w = IsUnended w.mc
Progress in_call w = IsUnended w.mc
Progress recording w = IsStarted w
Progress paused w = IsStarted w
Progress resuming w = IsStarted w
Progress terminated w = IsUnended w.mc ⊎ IsStarted w
Progress _ w = (w.mc.has_error ≡ true) ⊎ IsStarted w

launch-Progress :
    (s : Script) (link : String) (r : Report) (w : World)
    → IsUnended w.mc
    → Progress (after_launch s link r w).0 (after_launch s link r w).1
unfolding after_launch after_open set_error
launch-Progress s link r w h =
    ground
      (arith, serve-IsUnended initialization s.during (record w.mc { browser_driver = true }) refl)

parse-Progress :
    (s : Script) (o : Result (Provider × String)) (w : World)
    → IsUnended w.mc
    → Progress (after_parse s o w).0 (after_parse s o w).1
unfolding after_parse set_error
parse-Progress s (err e) w h = inl refl
parse-Progress s (ok (provider, link)) w h = launch-Progress s link _ _ h

initialization-Progress :
    (deps : Dependencies) (s : Script) (w : World)
    → IsUnended w.mc
    → Progress (execute_initialization deps s w).0 (execute_initialization deps s w).1
unfolding execute_initialization
initialization-Progress deps s w h =
    parse-Progress s (deps.parse_url (serve initialization s.before w.mc).config.meeting_url)
      (with_mc (serve initialization s.before w.mc) w)
      (serve-IsUnended initialization s.before w.mc refl h)

waiting_room-Progress :
    (s : Script) (w : World)
    → IsUnended w.mc
    → Progress (execute_waiting_room s w).0 (execute_waiting_room s w).1
unfolding execute_waiting_room after_join set_error should_stop
waiting_room-Progress s w h =
    let mc = serve waiting_room s.before w.mc in
    ground (
      arith,
      serve-IsUnended waiting_room s.before w.mc refl h,
      serve-IsUnended waiting_room s.during mc refl,
    )

in_call-Progress :
    (deps : Dependencies) (s : Script) (w : World)
    → deps.recorder ≡ true
    → Progress (execute_in_call deps s w).0 (execute_in_call deps s w).1
unfolding execute_in_call start_recorder set_error
in_call-Progress deps s w r = ground arith

error-Progress :
    (deps : Dependencies) (s : Script) (w : World)
    → (w.mc.has_error ≡ true) ⊎ IsStarted w
    → ((execute_error deps s w).1.mc.has_error ≡ true) ⊎ IsStarted (execute_error deps s w).1
unfolding execute_error
error-Progress deps s w h = ground (arith, serve-has_error error s.before w.mc)

cleanup-Progress :
    (deps : Dependencies) (s : Script) (w : World)
    → (w.mc.has_error ≡ true) ⊎ IsStarted w
    → ((execute_cleanup deps s w).1.mc.has_error ≡ true) ⊎ IsStarted (execute_cleanup deps s w).1
unfolding execute_cleanup
cleanup-Progress deps s w h = ground (
  arith,
  serve-has_error cleanup s.before w.mc,
  serve-has_error cleanup s.during (serve cleanup s.before w.mc),
)

resuming-Progress :
    (deps : Dependencies) (s : Script) (w : World)
    → IsStarted w
    → Progress (execute_resuming deps s w).0 (execute_resuming deps s w).1
unfolding execute_resuming set_error
resuming-Progress deps s w p = ground arith

ended : (w : World) → (w.mc.has_error ≡ true) ⊎ IsStarted w → IsUnended w.mc ⊎ IsStarted w
ended w (inl e) = inl (inl e)
ended w (inr e) = inr e

execute-Progress :
    (deps : Dependencies) (c : StateType) (s : Script) (w : World) (next : StateType) (w' : World)
    → deps.recorder ≡ true
    → c ≢ terminated
    → execute deps c s w ≡ some (next, w')
    → Progress c w
    → Progress next w'
execute-Progress deps initialization s w next w' r t h p =
    some_pair Progress (execute_initialization deps s w) next w' h
      (initialization-Progress deps s w p)
execute-Progress deps waiting_room s w next w' r t h p =
    some_pair Progress (execute_waiting_room s w) next w' h (waiting_room-Progress s w p)
execute-Progress deps in_call s w next w' r t h p =
    some_pair Progress (execute_in_call deps s w) next w' h (in_call-Progress deps s w r)
execute-Progress deps recording s w next w' r t h p = elim (execute_recording-IsExit deps s w h).0 [
  | inl (e, x) ↦ rw e (inr (rw (log-execute_recording deps s w h) p))
  | inr (e, x, y) ↦ rw e (rw (log-execute_recording deps s w h) p)
]
execute-Progress deps paused s w next w' r t h p =
    let started : IsStarted w' = rw (execute_paused-IsExit deps s w h).1 (ground arith) in
    elim (execute_paused-IsExit deps s w h).0 [
      | inl (e, x) ↦ rw e (inr started)
      | inr (e, x, y) ↦ rw e started
    ]
execute-Progress deps resuming s w next w' r t h p =
    some_pair Progress (execute_resuming deps s w) next w' h (resuming-Progress deps s w p)
execute-Progress deps cleanup s w next w' r t h p =
    some_pair Progress (execute_cleanup deps s w) next w' h
      (unfold execute_cleanup in ended (execute_cleanup deps s w).1 (cleanup-Progress deps s w p))
execute-Progress deps error s w next w' r t h p =
    some_pair Progress (execute_error deps s w) next w' h
      (unfold execute_error in error-Progress deps s w p)
execute-Progress deps terminated s w next w' r t h p = absurd (t refl)

cancelled-Progress : (c : StateType) (w : World) → Progress c w → Progress terminated w
cancelled-Progress c w p = ground arith

unsuccessful :
    (m : Machine) → IsUnended m.world.mc → was_recording_successful m ≡ true → IsStarted m.world
unfolding was_recording_successful
unsuccessful m u h = ground arith

All-rounds : (rounds : List Round) → All (λ r. Unit {0}) rounds
All-rounds [] = tt
All-rounds (r ∷ rounds) = (tt, All-rounds rounds)

-- In a session that counts as successful, with a recorder wired, a Start of the recorder returned
-- without an error: whatever is
-- asked of it and wherever its context is cancelled, no session that ends before the recording
-- counts as one.
pub run-IsStarted :
    (deps : Dependencies) (cfg : BotConfig) (rounds : List Round) (m : Machine)
    → deps.recorder ≡ true
    → run (build_state_map deps) rounds (new_machine (new_world cfg)) ≡ finished m
    → was_recording_successful m ≡ true
    → IsStarted m.world
unfolding new_machine new_context
run-IsStarted deps cfg rounds m r e h =
    let start = new_machine (new_world cfg) in
    let p =
      run_keeps deps (λ r'. Unit {0}) Progress
        (λ c r' w n w' g t x. execute-Progress deps c r'.script w n w' r t x)
        (λ c r' w g z. cancelled-Progress c w) rounds start m (All-rounds rounds) e (inr refl) in
    elim (rw (run_ends deps rounds start m e) at p) [
      | inl u ↦ unsuccessful m u h
      | inr started ↦ started
    ]
