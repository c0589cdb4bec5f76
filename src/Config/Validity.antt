-- ===== src/Config/Validity.antt =====
-- When a configuration is accepted, and what validating and masking change.
use text.Mathlib.TextEquality.{eq_iff}
use meeting_baa_s.Base.{
  ◌≡◌, refl, ◌⊎◌, inl, inr, ◌≤◌, ◌<◌, String, false, none, arith, str_eq, Bool-cases, ap, ◌∙◌, sym,
  ◌↔◌,
}
use meeting_baa_s.Config.{
  BotConfig, normalise_recording_mode, canonical_mode, with_mode, validate, mask, masked_clone,
  speaker_view, audio_only,
}

-- What the rest of the bot may rely on, but for the mode.
pub record IsComplete (trim_space : String → String) (c : BotConfig) : Type 0 where
  pub meeting_url : str_eq (trim_space c.meeting_url) "" ≡ false
  pub bot_uuid : str_eq (trim_space c.bot_uuid) "" ≡ false
  pub bot_name : str_eq (trim_space c.bot_name) "" ≡ false
  pub waiting_room : c.automatic_leave.waiting_room_timeout < 9223372036854775808
  pub noone_joined : c.automatic_leave.noone_joined_timeout < 9223372036854775808
  pub silence : c.automatic_leave.silence_timeout < 9223372036854775808
  pub frequency :
      (c.streaming_audio_frequency ≡ 0)
      ⊎ ((8000 ≤ c.streaming_audio_frequency) × (c.streaming_audio_frequency ≤ 96000))

validate-IsComplete :
    (trim_space : String → String) (c : BotConfig)
    → (validate trim_space c).0 ≡ none
    → IsComplete trim_space c
unfolding validate
validate-IsComplete trim_space c h = record {
  meeting_url = ground arith;
  bot_uuid = ground arith;
  bot_name = ground arith;
  waiting_room = ground arith;
  noone_joined = ground arith;
  silence = ground arith;
  frequency = ground arith;
}

pub validate-none :
    (trim_space : String → String) (c : BotConfig)
    → IsComplete trim_space c
    → validate trim_space c ≡ (none, with_mode c)
unfolding validate
validate-none trim_space c i =
    rw (i.meeting_url, i.bot_uuid, i.bot_name)
      (let waiting_room = i.waiting_room in
        let noone_joined = i.noone_joined in
        let silence = i.silence in let frequency = i.frequency in ground arith)

canonical_mode-cases :
    (m : String)
    → (canonical_mode m ≡ speaker_view) ⊎ (canonical_mode m ≡ audio_only) ⊎ (canonical_mode m ≡ m)
unfolding normalise_recording_mode
canonical_mode-cases m = ground arith

canonical_mode-canonical_mode : (m : String) → canonical_mode (canonical_mode m) ≡ canonical_mode m
unfolding normalise_recording_mode
canonical_mode-canonical_mode m = elim (canonical_mode-cases m) [
  | inl h ↦ rw h refl
  | inr (inl h) ↦ rw h refl
  | inr (inr h) ↦ ap canonical_mode h
]

-- A configuration is accepted where its URL, id and name are not blank, no timeout is negative and
-- the audio frequency is 0 or from 8000 to 96000, and nowhere else; only the recording mode is then
-- changed.
pub validate_accepts :
    (trim_space : String → String) (c : BotConfig)
    → ((validate trim_space c).0 ≡ none ↔ IsComplete trim_space c)
      × ((validate trim_space c ≡ (none, with_mode c)) ↔ IsComplete trim_space c)
validate_accepts trim_space c =
    let accepted = validate-IsComplete trim_space c in
    (
      (accepted, λ i. ap (λ p. p.0) (validate-none trim_space c i)),
      ((λ e. accepted (ap (λ p. p.0) e)), validate-none trim_space c),
    )

with_mode-IsComplete :
    (trim_space : String → String) (c : BotConfig)
    → IsComplete trim_space c
    → IsComplete trim_space (with_mode c)
with_mode-IsComplete trim_space c i = record {
  meeting_url = i.meeting_url;
  bot_uuid = i.bot_uuid;
  bot_name = i.bot_name;
  waiting_room = i.waiting_room;
  noone_joined = i.noone_joined;
  silence = i.silence;
  frequency = i.frequency;
}

-- A configuration that Validate accepts is accepted again as it was left, and then not changed.
validate-validate :
    (trim_space : String → String) (c : BotConfig)
    → (validate trim_space c).0 ≡ none
    → validate trim_space (validate trim_space c).1 ≡ (none, (validate trim_space c).1)
validate-validate trim_space c h =
    let i = validate-IsComplete trim_space c h in
    let again = validate-none trim_space (with_mode c) (with_mode-IsComplete trim_space c i) in
    rw (validate-none trim_space c i) (
      again
      ∙ ap (λ m. (none, record c { recording_mode = m }))
          (canonical_mode-canonical_mode c.recording_mode))

-- What a log may tell of a secret: whether it is set.
abbrev pub AreAlike : String → String → Type 0
AreAlike s t = str_eq s "" ≡ str_eq t ""

mask-AreAlike : (s t : String) → AreAlike s t → mask s ≡ mask t
mask-AreAlike s t h = elim (Bool-cases (str_eq s "")) [
  | inl e ↦ rw (e, sym h ∙ e) ((eq_iff s "").0 e ∙ sym ((eq_iff t "").0 (sym h ∙ e)))
  | inr e ↦ rw (e, sym h ∙ e) refl
]

-- Two configurations that differ only in the values of secrets, each of which is set in both or in
-- neither, have the same masked clone.
pub masked_clone_hides :
    (c d : BotConfig)
    → AreAlike c.user_token d.user_token
    → AreAlike c.bots_api_key d.bots_api_key
    → AreAlike c.speech_to_text_api_key d.speech_to_text_api_key
    → AreAlike c.zoom_sdk_pwd d.zoom_sdk_pwd
    → AreAlike c.secret d.secret
    → masked_clone (record c {
      user_token = d.user_token;
      bots_api_key = d.bots_api_key;
      speech_to_text_api_key = d.speech_to_text_api_key;
      zoom_sdk_pwd = d.zoom_sdk_pwd;
      secret = d.secret;
    })
      ≡ masked_clone c
unfolding masked_clone
masked_clone_hides c d h1 h2 h3 h4 h5 =
    rw
      (
        mask-AreAlike c.user_token d.user_token h1,
        mask-AreAlike c.bots_api_key d.bots_api_key h2,
        mask-AreAlike c.speech_to_text_api_key d.speech_to_text_api_key h3,
        mask-AreAlike c.zoom_sdk_pwd d.zoom_sdk_pwd h4,
        mask-AreAlike c.secret d.secret h5,
      )
      refl
