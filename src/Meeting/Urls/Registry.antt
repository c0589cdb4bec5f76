-- ===== src/Meeting/Urls/Registry.antt =====
-- What the registry of the worker makes of a URL.
use text.Mathlib.Text.{starts_with}
use text.Mathlib.TextEquality.{starts_with_iff}
use meeting_baa_s.Base.{
  ◌≡◌, sym, ap, ◌∙◌, ◌⊎◌, inl, inr, String, true, ok, str_eq, arith, Bool-cases, Option-cases,
  Result-cases,
}
use meeting_baa_s.Meeting.Urls.{
  Library, MeetingInfo, no_info, provider_meet, provider_teams, provider_zoom, detect_provider,
  provider_of_host, candidate, parse_meet_url, parser_of, parse_url, registered, join_two,
}

detect_provider-cases :
    (lib : Library) (raw provider : String)
    → detect_provider lib raw ≡ ok provider
    → (provider ≡ provider_meet) ⊎ (provider ≡ provider_teams) ⊎ (provider ≡ provider_zoom)
unfolding detect_provider provider_of_host
detect_provider-cases lib raw provider h = elim (Bool-cases (str_eq (lib.trim_space raw) "")) [
  | inl e ↦ absurd (ground (arith, rw e at h))
  | inr e ↦ elim (Option-cases (lib.parse (lib.trim_space raw))) [
    | inl f ↦ absurd (ground (arith, rw (e, f) at h))
    | inr (u, f) ↦ (let found = rw (e, f) at h in ground arith)
  ]
]

parse_meet_url-host :
    (lib : Library) (raw : String) (info : MeetingInfo)
    → parse_meet_url lib raw ≡ ok info
    → starts_with info.meeting_id "https://meet.google.com/" ≡ true
unfolding parse_meet_url
parse_meet_url-host lib raw info h = elim (Bool-cases (str_eq (lib.trim_space raw) "")) [
  | inl e ↦ absurd (ground (arith, rw e at h))
  | inr e ↦ elim (Bool-cases (str_eq (candidate lib (lib.trim_space raw)) "")) [
    | inl f ↦ absurd (ground (arith, rw (e, f) at h))
    | inr f ↦ elim (Option-cases (lib.match_meet_code (candidate lib (lib.trim_space raw)))) [
      | inl g ↦ absurd (ground (arith, rw (e, f, g) at h))
      | inr (m, g) ↦
          let same : join_two "https://meet.google.com/" (join_two m.0 m.1) ≡ info.meeting_id =
            ground (arith, rw (e, f, g) at h) in
          (starts_with_iff info.meeting_id "https://meet.google.com/").1 (join_two m.0 m.1, same)
    ]
  ]
]

-- A URL that the worker's registry parses without an error is either of Meet, and its link starts
-- with "https://meet.google.com/", or of Teams or Zoom, and its link and its password are empty.
pub parse_url-cases :
    (lib : Library) (raw provider : String) (info : MeetingInfo)
    → parse_url lib registered raw ≡ ok (provider, info)
    → ((provider ≡ provider_meet) × (starts_with info.meeting_id "https://meet.google.com/" ≡ true))
      ⊎ (((provider ≡ provider_teams) ⊎ (provider ≡ provider_zoom)) × (info ≡ no_info))
unfolding parse_url registered parser_of
parse_url-cases lib raw provider info h = elim (Result-cases (detect_provider lib raw)) [
  | inr (m, e) ↦ absurd (ground (arith, rw (e, parse_url) at h))
  | inl (p, e) ↦ elim (detect_provider-cases lib raw p e) [
    | inl f ↦ elim (Result-cases (parse_meet_url lib raw)) [
      | inr (m, g) ↦ absurd (ground (arith, rw (e, parse_url, f, g) at h))
      | inl (i, g) ↦
          let found = rw (e, parse_url, f, g) at h in
          let name : provider_meet ≡ provider = ground arith in
          let same : i ≡ info = ground arith in
          inl (sym name, parse_meet_url-host lib raw info (g ∙ ap ok same))
    ]
    | inr (inl f) ↦
        let found = rw (e, parse_url, f) at h in
        let name : provider_teams ≡ provider = ground arith in
        let same : no_info ≡ info = ground arith in inr (inl (sym name), sym same)
    | inr (inr f) ↦
        let found = rw (e, parse_url, f) at h in
        let name : provider_zoom ≡ provider = ground arith in
        let same : no_info ≡ info = ground arith in inr (inr (sym name), sym same)
  ]
]
