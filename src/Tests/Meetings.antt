-- ===== src/Tests/Meetings.antt =====
-- URLs of meetings, and the observer of dialogs.
use meeting_baa_s.Base.{◌≡◌, refl, ◌⊎◌, String, true, none, some, [], ◌∷◌, str_eq, if◌then◌else◌}
use text.Mathlib.Text.{starts_with}
use meeting_baa_s.Meeting.Urls.{
  Library, no_info, provider_meet, provider_teams, provider_zoom, provider_of_host, detect_provider,
  parser_of, parse_url, registered,
}
use meeting_baa_s.Meeting.Urls.Registry.{parse_url-cases}

abbrev teams_url : String
teams_url = "https://teams.microsoft.com/l/meetup-join/19:abc@thread.v2/0?context=x"

-- Go's functions at that URL.
abbrev go : Library
go = record {
  trim_space = λ s. s;
  to_lower = λ s. s;
  contains = starts_with;
  fields = λ s. s ∷ [];
  unescape = λ s. s;
  parse = λ s. some (record {
    host = "teams.microsoft.com";
    hostname = "teams.microsoft.com";
    path = "/l/meetup-join/19:abc@thread.v2/0";
    query = λ key. if str_eq key "context" then "x" else "";
  });
  query_unescape = λ s. some s;
  query_escape = λ s. s;
  std_decode = λ s. none;
  url_decode = λ s. none;
  raw_decode = λ s. none;
  unmarshal_coords = λ s. none;
  marshal_context = λ tid oid. tid;
  after_first = λ s sep. none;
  match_meet_code = λ s. none;
  match_meetup_join = λ s. none;
  match_meet_number = λ s. none;
  match_password = λ s. none;
}

parse_url-cases_example :
    ((provider_teams ≡ provider_meet)
      × (starts_with no_info.meeting_id "https://meet.google.com/" ≡ true))
    ⊎ (((provider_teams ≡ provider_teams) ⊎ (provider_teams ≡ provider_zoom)) × (no_info ≡ no_info))
unfolding parse_url registered parser_of detect_provider provider_of_host
parse_url-cases_example = parse_url-cases go teams_url provider_teams no_info refl
