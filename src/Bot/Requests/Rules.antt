-- ===== src/Bot/Requests/Rules.antt =====
-- What every request keeps, a list of requests keeps.
use meeting_baa_s.Base.{◌≡◌, refl, Bool, true, false, List, [], ◌∷◌, Option, some, arith}
use meeting_baa_s.Bot.Types.{StateType, EndReason, no_attendees}
use meeting_baa_s.Bot.Context.{MeetingContext, set_end_reason, set_error, set_paused}
use meeting_baa_s.Bot.World.{Request, http_stop, http_pause}
use meeting_baa_s.Bot.Requests.{serve_request, serve}

pub serve_rule :
    (I : MeetingContext → Type 0) (current : StateType)
    → ((r : Request) (mc : MeetingContext) → I mc → I (serve_request current r mc))
    → (rs : List Request) (mc : MeetingContext) → I mc
    → I (serve current rs mc)
unfolding serve
serve_rule I current keep [] mc i = i
serve_rule I current keep (r ∷ rs) mc i =
    serve_rule I current keep rs (serve_request current r mc) (keep r mc i)

-- What no request touches.
pub record SameSession (mc mc' : MeetingContext) : Type 0 where
  pub config : mc'.config ≡ mc.config
  pub provider : mc'.provider ≡ mc.provider
  pub page : mc'.page ≡ mc.page
  pub browser_driver : mc'.browser_driver ≡ mc.browser_driver
  pub start_time : mc'.start_time ≡ mc.start_time
  pub first_user_joined : mc'.first_user_joined ≡ mc.first_user_joined
  pub no_speaker_detected_time : mc'.no_speaker_detected_time ≡ mc.no_speaker_detected_time

request-SameSession :
    (current : StateType) (mc : MeetingContext) (r : Request) (mc' : MeetingContext)
    → SameSession mc mc'
    → SameSession mc (serve_request current r mc')
unfolding serve_request set_end_reason set_error set_paused
request-SameSession current mc (http_stop) mc' h = ground arith
request-SameSession current mc (http_pause t) mc' h = ground arith
request-SameSession current mc _ mc' h = ground arith

pub serve-SameSession :
    (current : StateType) (rs : List Request) (mc : MeetingContext)
    → SameSession mc (serve current rs mc)
serve-SameSession current rs mc =
    serve_rule (SameSession mc) current (request-SameSession current mc) rs mc (record {
      config = refl;
      provider = refl;
      page = refl;
      browser_driver = refl;
      start_time = refl;
      first_user_joined = refl;
      no_speaker_detected_time = refl;
    })

-- The reason that only the recording loop gives.
abbrev pub blames_attendees : Option EndReason → Bool
blames_attendees (some no_attendees) = true
blames_attendees _ = false

request-blames_attendees :
    (current : StateType) (r : Request) (mc : MeetingContext)
    → blames_attendees mc.end_reason ≡ false
    → blames_attendees (serve_request current r mc).end_reason ≡ false
unfolding serve_request set_end_reason set_error set_paused
request-blames_attendees current http_stop mc h = ground arith
request-blames_attendees current _ mc h = ground arith

pub serve-blames_attendees :
    (current : StateType) (rs : List Request) (mc : MeetingContext)
    → blames_attendees mc.end_reason ≡ false
    → blames_attendees (serve current rs mc).end_reason ≡ false
serve-blames_attendees current rs mc =
    serve_rule (λ m. blames_attendees m.end_reason ≡ false) current
      (request-blames_attendees current) rs mc
