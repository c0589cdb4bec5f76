-- ===== src/Meeting/Urls/Links.antt =====
-- The links of teams.microsoft.com that the bot opens.
use meeting_baa_s.Base.{◌≡◌, refl, String, true, false, ok, Option-cases, Bool-cases, inl, inr}
use meeting_baa_s.Meeting.Urls.{Library, Url, join_two}
use meeting_baa_s.Meeting.Urls.Teams.{
  anon, append_anon_param, transform_teams_link, parse_teams_microsoft_url,
}

append_anon_param-anon :
    (lib : Library) (raw : String) → lib.contains raw anon ≡ true → append_anon_param lib raw ≡ raw
unfolding append_anon_param
append_anon_param-anon lib raw h = rw h refl

append_anon_param-there :
    (lib : Library) (raw : String)
    → ((s t : String) → lib.contains t anon ≡ true → lib.contains (join_two s t) anon ≡ true)
    → lib.contains "?anon=true" anon ≡ true
    → lib.contains "&anon=true" anon ≡ true
    → lib.contains (append_anon_param lib raw) anon ≡ true
unfolding append_anon_param
append_anon_param-there lib raw within first next = elim (Bool-cases (lib.contains raw anon)) [
  | inl e ↦ rw e e
  | inr e ↦ elim (Bool-cases (lib.contains raw "?")) [
    | inl f ↦ rw (e, f) (within raw "&anon=true" next)
    | inr f ↦ rw (e, f) (within raw "?anon=true" first)
  ]
]

transform_teams_link-anon :
    (lib : Library) (raw : String)
    → ((s t : String) → lib.contains t anon ≡ true → lib.contains (join_two s t) anon ≡ true)
    → lib.contains "?anon=true" anon ≡ true
    → lib.contains "&anon=true" anon ≡ true
    → lib.contains (transform_teams_link lib raw) anon ≡ true
unfolding transform_teams_link
transform_teams_link-anon lib raw within first next =
    elim (Option-cases (lib.match_meetup_join raw)) [
      | inl e ↦ rw (e, transform_teams_link) (append_anon_param-there lib raw within first next)
      | inr ((thread, message, context), e) ↦
          rw (e, transform_teams_link)
            (within _ _ (within _ _ (within _ _ (within _ _ (within _ _ (within _ _ next))))))
    ]

-- Where strings.Contains finds a text in what it was appended to, a link of teams.microsoft.com that
-- is neither in the new format nor of a light meeting becomes one that asks to join anonymously, and
-- appending that parameter again changes nothing.
parse_teams_microsoft_url-anon :
    (lib : Library) (u : Url) (raw : String)
    → ((s t : String) → lib.contains t anon ≡ true → lib.contains (join_two s t) anon ≡ true)
    → lib.contains "?anon=true" anon ≡ true
    → lib.contains "&anon=true" anon ≡ true
    → lib.contains raw "/v2/?meetingjoin=true" ≡ false
    → lib.contains u.path "/light-meetings/launch" ≡ false
    → (parse_teams_microsoft_url lib u raw
        ≡ ok (record { meeting_id = transform_teams_link lib raw; password = "" }))
      × (lib.contains (transform_teams_link lib raw) anon ≡ true)
      × (append_anon_param lib (transform_teams_link lib raw) ≡ transform_teams_link lib raw)
unfolding parse_teams_microsoft_url
parse_teams_microsoft_url-anon lib u raw within first next v2 light =
    let there = transform_teams_link-anon lib raw within first next in
    (rw (v2, light) refl, there, append_anon_param-anon lib (transform_teams_link lib raw) there)
