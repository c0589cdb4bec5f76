-- ===== src/Tests/Samples.antt =====
-- The sessions that the examples run.
use meeting_baa_s.Base.{ℕ, true, false, Option, none, some, List, [], ◌∷◌, ok}
use meeting_baa_s.Bot.Types.{terminated}
use meeting_baa_s.Bot.Context.{meet, BotConfig, MeetingContext}
use meeting_baa_s.Bot.World.{Request, http_stop, Tick, Script, World, Dependencies, new_world}
use meeting_baa_s.Bot.Machine.{Machine, Round}

abbrev pub config : BotConfig
config = record {
  meeting_url = "https://meet.google.com/abc-defg-hij";
  meeting_provider = none;
  bot_name = "Notetaker";
  automatic_leave = record {
    waiting_room_timeout = 600;
    noone_joined_timeout = 120;
    silence_timeout = 300;
  };
}

abbrev pub deps : Dependencies
deps = record {
  parse_url = λ url. ok (meet, url);
  recorder = true;
  uploader = true;
  webhooker = true;
  page_hooks = true ∷ [];
  speakers = true;
}

abbrev pub tick : ℕ → List Request → Tick
tick now before = record {
  cancelled = false;
  now = now;
  before = before;
  active = "Ada" ∷ [];
  all = "Ada" ∷ "Notetaker" ∷ [];
  end_meeting = ok false;
  during = [];
}

abbrev pub script : List Tick → Script
script ticks = record {
  now = 1000000000;
  before = [];
  during = [];
  launch = λ n. none;
  backoff = λ n. none;
  open_page = none;
  join_success = true;
  join_meeting = none;
  join_expired = false;
  recorder_start = none;
  recorder_resume = none;
  ticks = ticks;
}

abbrev pub round : List Tick → Round
round ticks = record { cancelled = false; script = script ticks }

-- The bot joins, records two rounds and is stopped over HTTP.
abbrev pub rounds : List Round
rounds =
    round []
    ∷ round []
    ∷ round []
    ∷ round (tick 2000000000 [] ∷ tick 3000000000 (http_stop ∷ []) ∷ [])
    ∷ round []
    ∷ []

abbrev pub joining : List Round
joining = round [] ∷ round [] ∷ round [] ∷ []

-- The context of a recording that Ada attends.
abbrev pub attended : MeetingContext
attended = record {
  config = config;
  provider = true;
  browser_driver = true;
  page = true;
  start_time = 1000;
  last_speaker_time = 1000000000;
  no_speaker_detected_time = 0;
  attendees_count = 1;
  first_user_joined = true;
  is_paused = false;
  pause_start_time = 0;
  total_pause_duration = 0;
  end_reason = none;
  error_message = "";
  has_error = false;
}

abbrev pub in_meeting : World
in_meeting = record { mc = attended; log = [] }

abbrev pub machine_of : Option Machine → Machine
machine_of none = record { current = terminated; world = new_world config }
machine_of (some m) = m
