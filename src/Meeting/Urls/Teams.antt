-- ===== src/Meeting/Urls/Teams.antt =====
-- The parser of Teams URLs: internal/infra/meeting/teams/url_parser.go.
use text.Mathlib.Text.{starts_with}
use meeting_baa_s.Base.{
  String, Bool, not, ◌&&◌, Option, none, some, Result, ok, err, str_eq, if◌then◌else◌,
}
use meeting_baa_s.Meeting.Urls.{Library, Url, Coords, MeetingInfo, join_two}

abbrev pub anon : String
anon = "anon=true"

-- The link that a code and a password give.
abbrev anonymous_meeting : String → Option String → MeetingInfo
anonymous_meeting code none = record {
  meeting_id = join_two "https://teams.live.com/meet/" (join_two code "?anon=true");
  password = "";
}
anonymous_meeting code (some password) = record {
  meeting_id =
      join_two "https://teams.live.com/meet/"
        (join_two code (join_two "?p=" (join_two password "&anon=true")));
  password = password;
}

abbrev unless_empty : String → Option String
unless_empty s = if str_eq s "" then none else some s

-- `anon=true` is appended, unless it is there.
unfoldable pub append_anon_param : Library → String → String
append_anon_param lib raw =
    if lib.contains raw anon
    then raw
    else if lib.contains raw "?"
    then join_two raw "&anon=true"
    else join_two raw "?anon=true"

abbrev pub v2_link : String → String → String → String
v2_link thread message context =
    join_two "https://teams.microsoft.com/v2/?meetingjoin=true#/l/meetup-join/" (
      join_two thread
        (join_two "/" (join_two message (join_two "?context=" (join_two context "&anon=true")))))

unfoldable pub transform_teams_link : Library → String → String
transform_teams_link lib raw = elim (lib.match_meetup_join raw) [
  | none ↦ append_anon_param lib raw
  | some m ↦ v2_link m.0 m.1 m.2
]

-- Standard base64, then the alphabet of URLs, then without padding.
abbrev decode_coords : Library → String → Option String
decode_coords lib coords = elim (lib.std_decode coords) [
  | some d ↦ some d
  | none ↦ elim (lib.url_decode coords) [ some d ↦ some d | none ↦ lib.raw_decode coords ]
]

abbrev password_of : Url → Coords → String
password_of u c = if str_eq c.passcode "" then u.query "p" else c.passcode

abbrev has_thread : Coords → Bool
has_thread c =
    not (str_eq c.conversation_id "") && not (str_eq c.tenant_id "") && not (str_eq c.message_id "")

abbrev coords_info : Library → Url → Coords → Result MeetingInfo
coords_info lib u c =
    if not (str_eq c.meeting_code "")
    then ok (anonymous_meeting c.meeting_code (unless_empty (password_of u c)))
    else if has_thread c
    then ok (record {
      meeting_id =
          v2_link c.conversation_id c.message_id
            (lib.query_escape (lib.marshal_context c.tenant_id c.organizer_id));
      password = "";
    })
    else err "Invalid Teams light-meetings URL: insufficient coords data"

unfoldable pub parse_light_meetings_url : Library → Url → Result MeetingInfo
parse_light_meetings_url lib u =
    if str_eq (u.query "coords") ""
    then err "Invalid Teams light-meetings URL: missing coords"
    else elim (decode_coords lib (u.query "coords")) [
      | none ↦ err "Invalid Teams light-meetings URL: bad coords encoding"
      | some decoded ↦ elim (lib.unmarshal_coords decoded) [
        | none ↦ err "Invalid Teams light-meetings URL: bad coords JSON"
        | some c ↦ coords_info lib u c
      ]
    ]

abbrev launched : Option String → Option String → Result MeetingInfo
launched none password = err "Invalid Teams launcher URL"
launched (some code) password = ok (anonymous_meeting code password)

-- `raw` is the cleaned text. What follows the first "/meet/" of the path is the code.
unfoldable pub parse_teams_live_url : Library → Url → (raw : String) → Result MeetingInfo
parse_teams_live_url lib u raw =
    if starts_with u.path "/dl/launcher/"
    then (if str_eq (u.query "url") ""
        then err "Invalid Teams launcher URL"
        else launched (lib.match_meet_number (u.query "url")) (lib.match_password (u.query "url")))
    else if lib.contains u.path "/light-meetings/launch"
    then parse_light_meetings_url lib u
    else elim (lib.after_first u.path "/meet/") [
      | none ↦ err "Invalid Teams live URL format"
      | some code ↦
          if str_eq code ""
          then err "Invalid Teams live URL format"
          else ok (record { meeting_id = raw; password = u.query "p" })
    ]

unfoldable pub parse_teams_microsoft_url : Library → Url → (raw : String) → Result MeetingInfo
parse_teams_microsoft_url lib u raw =
    if lib.contains raw "/v2/?meetingjoin=true"
    then ok (record { meeting_id = raw; password = "" })
    else if lib.contains u.path "/light-meetings/launch"
    then parse_light_meetings_url lib u
    else ok (record { meeting_id = transform_teams_link lib raw; password = "" })

abbrev unwrapped : Library → String → String
unwrapped lib clean =
    if starts_with clean "https://www.google.com/url"
    then elim (lib.parse clean) [
      | none ↦ clean
      | some u ↦ if str_eq (u.query "q") "" then clean else u.query "q"
    ]
    else clean

abbrev decoded : Library → String → String
decoded lib clean =
    if starts_with clean "https%3A"
    then elim (lib.query_unescape clean) [ none ↦ clean | some d ↦ d ]
    else clean

abbrev by_host : Library → Url → String → Result MeetingInfo
by_host lib u clean =
    let host = lib.to_lower u.hostname in
    if lib.contains host "teams.live.com"
    then parse_teams_live_url lib u clean
    else if lib.contains host "teams.microsoft.com"
    then parse_teams_microsoft_url lib u clean
    else err "Invalid Teams URL: unsupported host"

unfoldable pub parse_teams_url : Library → String → Result MeetingInfo
parse_teams_url lib raw =
    let trimmed = lib.trim_space raw in
    let clean = decoded lib (unwrapped lib (lib.unescape trimmed)) in
    if str_eq trimmed ""
    then err "Invalid Teams URL: empty"
    else elim (lib.parse clean) [ none ↦ err "Invalid Teams URL" | some u ↦ by_host lib u clean ]
