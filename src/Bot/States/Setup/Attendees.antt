-- ===== src/Bot/States/Setup/Attendees.antt =====
-- The states before the recording, and the mark that someone has joined.
use meeting_baa_s.Base.{
  ◌≡◌, refl, Bool, true, false, none, some, String, List, [], ◌∷◌, Result, ok, err, arith, ◌∙◌,
  if◌then◌else◌,
}
use meeting_baa_s.Retry.{do_retry, Report}
use meeting_baa_s.Bot.Types.{initialization, waiting_room, in_call}
use meeting_baa_s.Bot.Context.{Provider, set_error, should_stop, set_start_time}
use meeting_baa_s.Bot.World.{Script, World, Dependencies, with_mc, emit, launch, attach_hook}
use meeting_baa_s.Bot.Requests.{serve}
use meeting_baa_s.Bot.Requests.Rules.{serve-SameSession, blames_attendees, serve-blames_attendees}
use meeting_baa_s.Bot.States.Setup.{
  execute_initialization, execute_waiting_room, execute_in_call, after_launch, attach_hooks,
  after_parse, launch_options,
}

-- A lack of attendees has not been given as a reason.
abbrev pub IsBlameless : World → Type 0
IsBlameless w = blames_attendees w.mc.end_reason ≡ false

after_launch-IsBlameless :
    (s : Script) (link : String) (r : Report) (w : World)
    → IsBlameless w
    → IsBlameless (after_launch s link r w).1
unfolding after_launch set_error
after_launch-IsBlameless s link r w h =
    ground (
      arith,
      serve-blames_attendees initialization s.during (record w.mc { browser_driver = true }),
    )

after_parse-IsBlameless :
    (s : Script) (o : Result (Provider × String)) (w : World)
    → IsBlameless w
    → IsBlameless (after_parse s o w).1
unfolding after_parse set_error
after_parse-IsBlameless s (err e) w h = refl
after_parse-IsBlameless s (ok (provider, link)) w h =
    after_launch-IsBlameless s link (do_retry launch_options s.launch s.backoff)
      (emit
        (launch (do_retry launch_options s.launch s.backoff).calls
          (do_retry launch_options s.launch s.backoff).error)
        (with_mc (record w.mc { config = record w.mc.config { meeting_provider = some provider } })
          w))
      h

pub execute_initialization-IsBlameless :
    (deps : Dependencies) (s : Script) (w : World)
    → IsBlameless w
    → IsBlameless (execute_initialization deps s w).1
unfolding execute_initialization
execute_initialization-IsBlameless deps s w h =
    after_parse-IsBlameless s
      (deps.parse_url (serve initialization s.before w.mc).config.meeting_url)
      (with_mc (serve initialization s.before w.mc) w)
      (serve-blames_attendees initialization s.before w.mc h)

pub execute_waiting_room-IsBlameless :
    (s : Script) (w : World) → IsBlameless w → IsBlameless (execute_waiting_room s w).1
unfolding execute_waiting_room set_error should_stop
execute_waiting_room-IsBlameless s w h =
    let mc = serve waiting_room s.before w.mc in
    ground (
      arith,
      serve-blames_attendees waiting_room s.before w.mc,
      serve-blames_attendees waiting_room s.during mc,
    )

-- When the meeting is joined, and the provider reports so, someone is taken to have joined.
pub execute_waiting_room-joined :
    (s : Script) (w : World)
    → (s.join_meeting ≡ none → s.join_success ≡ true)
    → (execute_waiting_room s w).0 ≡ in_call
    → (execute_waiting_room s w).1.mc.first_user_joined ≡ true
unfolding execute_waiting_room set_error should_stop
execute_waiting_room-joined s w h e = ground arith

pub attach_hooks-mc : (hooks : List Bool) (w : World) → (attach_hooks hooks w).mc ≡ w.mc
unfolding attach_hooks
attach_hooks-mc [] w = refl
attach_hooks-mc (true ∷ hooks) w =
    attach_hooks-mc hooks (if w.mc.page then emit attach_hook w else w) ∙ ground arith
attach_hooks-mc (false ∷ hooks) w = attach_hooks-mc hooks w

pub execute_in_call-IsBlameless :
    (deps : Dependencies) (s : Script) (w : World)
    → IsBlameless w
    → IsBlameless (execute_in_call deps s w).1
unfolding execute_in_call set_error should_stop set_start_time
execute_in_call-IsBlameless deps s w h =
    let mc = serve in_call s.before w.mc in
    ground (
      arith,
      serve-blames_attendees in_call s.before w.mc,
      attach_hooks-mc deps.page_hooks (with_mc mc w),
      serve-blames_attendees in_call s.during mc,
    )

-- The mark that someone has joined stays.
pub execute_in_call-joined :
    (deps : Dependencies) (s : Script) (w : World)
    → w.mc.first_user_joined ≡ true
    → (execute_in_call deps s w).1.mc.first_user_joined ≡ true
unfolding execute_in_call set_error should_stop set_start_time
execute_in_call-joined deps s w h =
    let mc = serve in_call s.before w.mc in
    ground (
      arith,
      serve-SameSession in_call s.before w.mc,
      attach_hooks-mc deps.page_hooks (with_mc mc w),
      serve-SameSession in_call s.during mc,
    )
