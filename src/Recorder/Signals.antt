-- ===== src/Recorder/Signals.antt =====
-- The signals that the offset of a recording is read from, and when its files are shifted by it.
use meeting_baa_s.Base.{
  String, ◌≡◌, refl, ap, ◌⊎◌, inl, inr, Bool, true, false, List, [], ◌∷◌, ◌++◌, All, Bool-cases,
}
use meeting_baa_s.Recorder.Offset.{
  Floats, Outside, Command, Frame, zero_float, is_skipped, keep_best, best_from, frames,
  detect_video_flash, flash_args, ffmpeg, run,
}

-- Numbers that are ordered as floating-point numbers are, without NaN: no text that matches [0-9.]+
-- is read as one.
pub record IsOrdered (f : Floats) : Type 0 where
  pub trans : (a b c : f.F) → f.lt a b ≡ true → f.lt b c ≡ true → f.lt a c ≡ true
  pub cotrans : (a b c : f.F) → f.lt a c ≡ true → f.lt a b ≡ false → f.lt b c ≡ true

module _ (out : Outside) where
  -- The frame is passed over, or its scene is below the given one.
  abbrev pub IsBelow : out.floats.F → Frame out → Type 0
  IsBelow scene (t, s) = (is_skipped out t ≡ false) → out.floats.lt s scene ≡ true

  -- The frame is passed over, or its scene is not above the given one.
  abbrev pub IsNotAbove : out.floats.F → Frame out → Type 0
  IsNotAbove scene (t, s) = (is_skipped out t ≡ false) → out.floats.lt scene s ≡ false

  -- The first of the frames in the window with the largest scene, above the one given.
  pub record IsBrightest (best : out.floats.F × out.floats.F) (floor : out.floats.F)
      (fs : List (Frame out)) : Type 0 where
    pub before : List (Frame out)
    pub after : List (Frame out)
    pub split : fs ≡ before ++ (((best.0, true), best.1) ∷ after)
    pub window : is_skipped out (best.0, true) ≡ false
    pub above : out.floats.lt floor best.1 ≡ true
    pub below : All (IsBelow best.1) before
    pub not_above : All (IsNotAbove best.1) after

  abbrev Brightest : List (Frame out) → out.floats.F × out.floats.F → Type 0
  Brightest fs best =
      (All (IsNotAbove best.1) fs × (best_from out fs best ≡ best))
      ⊎ IsBrightest (best_from out fs best) best.1 fs

  module _ (o : IsOrdered out.floats) where
    stays :
        (f : Frame out) (fs : List (Frame out)) (best : out.floats.F × out.floats.F)
        → keep_best out f best ≡ best
        → IsNotAbove best.1 f
        → Brightest fs best
        → Brightest (f ∷ fs) best
    unfolding best_from
    stays (t, s) fs best k n (inl (ns, e)) = inl ((n, ns), rw k e)
    stays (t, s) fs best k n (inr f) = inr (
        let last = best_from out fs best in
        rw k (record {
          before = (t, s) ∷ f.before;
          after = f.after;
          split = ap (λ l. (t, s) ∷ l) f.split;
          window = f.window;
          above = f.above;
          below = (λ w. o.cotrans best.1 s last.1 f.above (n w), f.below);
          not_above = f.not_above;
        }))

    moves :
        (t : out.floats.F × Bool) (s : out.floats.F) (fs : List (Frame out))
        (best : out.floats.F × out.floats.F)
        → is_skipped out t ≡ false
        → out.floats.lt best.1 s ≡ true
        → Brightest fs (t.0, s)
        → Brightest ((t, s) ∷ fs) best
    unfolding best_from keep_best is_skipped
    moves (t, false) s fs best w l h = absurd cc
    moves (t, true) s fs best w l (inl (ns, e)) = inr (
        rw (w, l, e)
          (record {
            before = [];
            after = fs;
            split = refl;
            window = w;
            above = l;
            below = tt;
            not_above = ns;
          }))
    moves (t, true) s fs best w l (inr f) = inr (
        let last = best_from out fs (t, s) in
        rw (w, l)
          (record {
            before = ((t, true), s) ∷ f.before;
            after = f.after;
            split = ap (λ r. ((t, true), s) ∷ r) f.split;
            window = f.window;
            above = o.trans best.1 s last.1 l f.above;
            below = (λ _. f.above, f.below);
            not_above = f.not_above;
          }))

    best_from-Brightest :
        (fs : List (Frame out)) (best : out.floats.F × out.floats.F) → Brightest fs best
    unfolding best_from keep_best
    best_from-Brightest [] best = inl (tt, refl)
    best_from-Brightest ((t, s) ∷ fs) best = elim (Bool-cases (is_skipped out t)) [
      | inl k ↦ stays (t, s) fs best (rw k refl) (λ w. absurd cc) (best_from-Brightest fs best)
      | inr k ↦ elim (Bool-cases (out.floats.lt best.1 s)) [
        | inl l ↦ moves t s fs best k l (best_from-Brightest fs (t.0, s))
        | inr l ↦ stays (t, s) fs best (rw (k, l) refl) (λ w. l) (best_from-Brightest fs best)
      ]
    ]

    -- Whatever frames the output of ffmpeg gives, the flash of a video is the time of the first one
    -- with the largest change of scene among those whose time was read and lies above 0.5 and below 10
    -- seconds; it is 0 where none of these has a scene above 0. The order of the numbers is a strict
    -- weak order.
    pub detect_video_flash-IsBrightest :
        (video_path : String) (before : List Command)
        → let text = (out.answer before (ffmpeg (flash_args out video_path))).0 in
          let fs =
            frames out
              (out.find_all "pts_time:([0-9.]+)" text)
              (out.find_all "scene:([0-9.]+)" text) in
          let flash = (detect_video_flash out video_path before).0 in
          (All (IsNotAbove (zero_float out)) fs × (flash ≡ zero_float out))
          ⊎ ((scene : out.floats.F) × IsBrightest (flash, scene) (zero_float out) fs)
    unfolding detect_video_flash run
    detect_video_flash-IsBrightest video_path before =
        let text = (out.answer before (ffmpeg (flash_args out video_path))).0 in
        let fs =
          frames out (out.find_all "pts_time:([0-9.]+)" text)
            (out.find_all "scene:([0-9.]+)" text) in
        let zero = zero_float out in
        elim (best_from-Brightest fs (zero, zero)) [
          | inl (n, e) ↦ inl (n, ap (λ b. b.0) e)
          | inr f ↦ inr ((best_from out fs (zero, zero)).1, f)
        ]
