-- ===== src/Meeting/Urls.antt =====
-- The URLs of meetings: internal/infra/meeting/detect_provider.go, url_parser.go and the parser of
-- meet/url_parser.go. Go's strings, net/url, regexp, encoding/base64 and encoding/json are outside,
-- but for the slices of bytes.
pub mod Links
pub mod Registry
pub mod Teams
use text.Mathlib.Text.{starts_with}
use Prim.Native.String.{len, slice}
use meeting_baa_s.Base.{
  ℕ, ◌-◌, String, Bool, true, false, ◌&&◌, ◌||◌, Option, none, some, List, [], ◌∷◌, Result, ok, err,
  leb, str_eq, if◌then◌else◌,
}
use Prim.Native.String

-- What url.Parse gives of a URL; `query` is `Query().Get`.
pub record Url : Type 0 where
  pub host : String
  pub hostname : String
  pub path : String
  pub query : String → String

-- The JSON of `coords`, decoded.
pub record Coords : Type 0 where
  pub meeting_code : String
  pub passcode : String
  pub conversation_id : String
  pub tenant_id : String
  pub message_id : String
  pub organizer_id : String

-- `unescape` is the replacer of the three escaped characters, `fields` is strings.Fields; the last
-- six are FindStringSubmatch of the regular expressions, the submatches of a match alone.
pub record Library : Type 0 where
  pub trim_space : String → String
  pub to_lower : String → String
  pub contains : String → String → Bool
  pub fields : String → List String
  pub unescape : String → String
  pub parse : String → Option Url
  pub query_unescape : String → Option String
  pub query_escape : String → String
  pub std_decode : String → Option String
  pub url_decode : String → Option String
  pub raw_decode : String → Option String
  pub unmarshal_coords : String → Option Coords
  pub marshal_context : (tid oid : String) → String
  pub after_first : String → String → Option String
  pub match_meet_code : String → Option (String × String)
  pub match_meetup_join : String → Option (String × String × String)
  pub match_meet_number : String → Option String
  pub match_password : String → Option String

pub record MeetingInfo : Type 0 where
  pub meeting_id : String
  pub password : String

abbrev pub no_info : MeetingInfo
no_info = record { meeting_id = ""; password = "" }

abbrev pub join_two : String → String → String
join_two = String.◌++◌

-- The texts of config.MeetingProvider.
abbrev pub provider_meet : String
provider_meet = "Meet"

abbrev pub provider_teams : String
provider_teams = "Teams"

abbrev pub provider_zoom : String
provider_zoom = "Zoom"

abbrev pub invalid_url : String
invalid_url = "invalid meeting url"

unfoldable pub provider_of_host : Library → String → Result String
provider_of_host lib host =
    if lib.contains host "meet.google.com"
    then ok provider_meet
    else if lib.contains host "teams.microsoft.com" || lib.contains host "teams.live.com"
    then ok provider_teams
    else if lib.contains host "zoom.us" || lib.contains host "zoom.com.cn"
    then ok provider_zoom
    else err invalid_url

unfoldable pub detect_provider : Library → String → Result String
detect_provider lib raw =
    let trimmed = lib.trim_space raw in
    if str_eq trimmed "" then err invalid_url else elim (lib.parse trimmed) [
      | none ↦ err invalid_url
      | some u ↦
          if str_eq u.host "" then err invalid_url else provider_of_host lib (lib.to_lower u.host)
    ]

-- The text between the quotes, where it has both.
unfoldable pub strip_quotes : String → String
strip_quotes s =
    if leb 2 (len s) && starts_with s "\"" && str_eq (slice s (len s - 1) (len s)) "\""
    then slice s 1 (len s - 1)
    else s

abbrev pub first_containing : Library → String → List String → String
first_containing lib part [] = ""
first_containing lib part (t ∷ ts) =
    let rest = first_containing lib part ts in if lib.contains t part then t else rest

-- What is looked for in the text: its quotes stripped, its escapes undone, its scheme given.
abbrev pub candidate : Library → String → String
candidate lib clean =
    let plain = lib.unescape (strip_quotes clean) in
    let whole = if starts_with plain "meet." then join_two "https://" plain else plain in
    first_containing lib "meet.google.com" (lib.fields whole)

unfoldable pub parse_meet_url : Library → String → Result MeetingInfo
parse_meet_url lib raw =
    let clean = lib.trim_space raw in
    if str_eq clean ""
    then err "Invalid Google Meet URL format: empty"
    else if str_eq (candidate lib clean) ""
    then err "Invalid Google Meet URL format: no meet.google.com host"
    else elim (lib.match_meet_code (candidate lib clean)) [
      | none ↦ err "Invalid Google Meet URL format"
      | some m ↦ ok (record {
        meeting_id = join_two "https://meet.google.com/" (join_two m.0 m.1);
        password = "";
      })
    ]

-- The registry, the parser registered last first.
abbrev pub Parsers : Type 0
Parsers = List (String × (Library → String → Result MeetingInfo))

abbrev pub register : String → (Library → String → Result MeetingInfo) → Parsers → Parsers
register p fn parsers = (p, fn) ∷ parsers

unfoldable pub parser_of : String → Parsers → Option (Library → String → Result MeetingInfo)
parser_of p [] = none
parser_of p ((name, fn) ∷ parsers) =
    let rest = parser_of p parsers in if str_eq name p then some fn else rest

unfoldable pub parse_url : Library → Parsers → String → Result (String × MeetingInfo)
parse_url lib parsers raw = elim (detect_provider lib raw) [
  | err e ↦ err e
  | ok provider ↦ elim (parser_of provider parsers) [
    | none ↦ ok (provider, no_info)
    | some fn ↦ elim (fn lib raw) [ err e ↦ err e | ok info ↦ ok (provider, info) ]
  ]
]

-- The init of the package meet, the only one of the parsers that a program of this repository
-- imports.
unfoldable pub registered : Parsers
registered = register provider_meet parse_meet_url []
