-- ===== src/Recorder/Measured.antt =====
-- When an offset is trusted: it stands between a beep and a flash of the recording.
use meeting_baa_s.Base.{
  ◌≡◌, refl, ◌⊎◌, inl, inr, String, Bool, true, false, List, [], ◌∷◌, Bool-cases, arith,
}
use meeting_baa_s.Recorder.Offset.{
  Outside, Command, SyncOffset, zero_float, is_skipped, is_beep, first_beep, keep_best, best_from,
  Frame, detect_audio_beep, detect_video_flash, offset_of, calculate_offset,
}
use meeting_baa_s.Recorder.Finalize.{is_confident, Paths}

-- What the floating-point numbers of the source satisfy: 0 <= 0, and 0.1 is below 0.5.
pub record IsNumeric (out : Outside) : Type 0 where
  pub zero_le : out.floats.le (zero_float out) (zero_float out) ≡ true
  pub low : out.floats.le (out.floats.literal "0.5") (out.floats.literal "0.1") ≡ false

module _ (out : Outside) where
  -- An offset between a beep and a flash that are both inside the window.
  pub record IsMeasured (s : SyncOffset out) : Type 0 where
    pub audio : is_beep out (s.audio_timestamp, true) ≡ true
    pub video : is_skipped out (s.video_timestamp, true) ≡ false
    pub offset : s.offset_seconds ≡ out.floats.sub s.video_timestamp s.audio_timestamp

  first_beep-window :
      (ts : List (out.floats.F × Bool))
      → (first_beep out ts ≡ zero_float out) ⊎ (is_beep out (first_beep out ts, true) ≡ true)
  unfolding first_beep is_beep
  first_beep-window [] = inl refl
  first_beep-window ((t, true) ∷ ts) = elim (Bool-cases (is_beep out (t, true))) [
    | inl b ↦ inr (rw b b)
    | inr b ↦ rw b (first_beep-window ts)
  ]
  first_beep-window ((t, false) ∷ ts) = first_beep-window ts

  -- A time that is 0 or was read inside the window of the flash.
  abbrev IsUsable : out.floats.F → Type 0
  IsUsable t = (t ≡ zero_float out) ⊎ (is_skipped out (t, true) ≡ false)

  keep_best-IsUsable :
      (f : Frame out) (best : out.floats.F × out.floats.F)
      → IsUsable best.0
      → IsUsable (keep_best out f best).0
  unfolding keep_best is_skipped
  keep_best-IsUsable ((t, false), s) best h = h
  keep_best-IsUsable ((t, true), s) best h = elim (Bool-cases (is_skipped out (t, true))) [
    | inl k ↦ rw k h
    | inr k ↦ elim (Bool-cases (out.floats.lt best.1 s)) [
      | inl l ↦ rw (k, l) (inr k)
      | inr l ↦ rw (k, l) h
    ]
  ]

  best_from-IsUsable :
      (fs : List (Frame out)) (best : out.floats.F × out.floats.F)
      → IsUsable best.0
      → IsUsable (best_from out fs best).0
  unfolding best_from
  best_from-IsUsable [] best h = h
  best_from-IsUsable (f ∷ fs) best h =
      best_from-IsUsable fs (keep_best out f best) (keep_best-IsUsable f best h)

  module _ (paths : Paths) (n : IsNumeric out) where
    not_zero :
        (x : out.floats.F) → out.floats.le x (zero_float out) ≡ false → ¬ (x ≡ zero_float out)
    not_zero x h e = let z = n.zero_le in absurd (ground (arith, rw e at h))

    apart :
        {P : Type 0} (x : out.floats.F)
        → out.floats.le x (zero_float out) ≡ false
        → (x ≡ zero_float out) ⊎ P
        → P
    apart x h (inl e) = absurd (not_zero x h e)
    apart x h (inr p) = p

    use_window :
        (audio video : out.floats.F)
        → is_beep out (audio, true) ≡ true
        → is_skipped out (video, true) ≡ false
        → IsMeasured (record {
          audio_timestamp = audio;
          video_timestamp = video;
          offset_seconds = out.floats.sub video audio;
          confidence = out.floats.literal "0.9";
        })
    use_window audio video a v = record { audio = a; video = v; offset = refl }

    offset_of-IsMeasured :
        (audio video : out.floats.F)
        → (audio ≡ zero_float out) ⊎ (is_beep out (audio, true) ≡ true)
        → IsUsable video
        → is_confident out paths (offset_of out audio video) ≡ true
        → IsMeasured (offset_of out audio video)
    unfolding offset_of
    offset_of-IsMeasured audio video a v c =
        let l = n.low in
        let zero = zero_float out in
        elim (Bool-cases (out.floats.le audio zero)) [
          | inl m ↦ absurd (ground (arith, rw m at c))
          | inr m ↦ elim (Bool-cases (out.floats.le video zero)) [
            | inl k ↦ absurd (ground (arith, rw (m, k) at c))
            | inr k ↦ rw (m, k) (use_window audio video (apart audio m a) (apart video k v))
          ]
        ]

    pub calculate_offset-IsMeasured :
        (audio video : String) (before : List Command)
        → let s = (calculate_offset out audio video before).0 in
          is_confident out paths s ≡ true → IsMeasured s
    unfolding calculate_offset detect_audio_beep detect_video_flash
    calculate_offset-IsMeasured audio video before c =
        offset_of-IsMeasured _ _ (first_beep-window _) (best_from-IsUsable _ _ (inl refl)) c
