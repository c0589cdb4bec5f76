-- ===== src/Tests/Recordings.antt =====
-- The browser, its pages and the files of a recording.
use meeting_baa_s.Base.{
  ◌≡◌, refl, ◌⊎◌, ◌≤◌, ◌+◌, ◌-◌, ℕ, Bool, true, false, none, some, String, List, [], ◌∷◌, ok, err,
  ltb, leb, ◌==◌, All, str_eq, arith, if◌then◌else◌,
}
use meeting_baa_s.Browser.{BrowserLaunchOptions, launch_options, new_playwright_driver}
use meeting_baa_s.Browser.Launches.{
  Operation, to_launch, to_open, to_close, operations, IsTidy, operations-IsTidy,
}
use meeting_baa_s.Meeting.Meet.Opening.{
  Attempt, open_meeting_page, open_meeting_page_with_retry, try_open, opened_count, closed_count,
  live_pages, are_frozen, open_meeting_page-IsOpened,
}
use meeting_baa_s.Recorder.Offset.{
  Floats, Outside, frames, detect_video_flash, detect_audio_beep, calculate_offset, offset_of,
  first_beep, is_beep, best_from, keep_best, is_skipped, run, probe, probe_lines, probe_line,
}
use meeting_baa_s.Recorder.Signals.{IsNotAbove, IsBrightest, detect_video_flash-IsBrightest}
use meeting_baa_s.Recorder.Finalize.{
  FinalizeOptions, FinalizeResult, Paths, with_defaults, finalize, process, clean_up, outputs,
  offset_pass, extract_wav, extract_wav_with_offset, remux_mp4, remux_args, offset_wav_args, failed,
}
use meeting_baa_s.Recorder.Outputs.{IsFinal, finalize-IsFinal}

abbrev options : BrowserLaunchOptions
options = record {
  chrome_path = "";
  headless = false;
  resolution = "1080";
  slow_mo_ms = 0;
  launch_timeout = 0;
  locale = "";
  permissions_microphone = true;
}

-- A launch that fails, one that does not, a second one, a page, and the end.
abbrev uses : List Operation
uses =
    let o = launch_options (λ key. "") (λ n. "n") options in
    to_close none none
    ∷ to_open none
    ∷ to_launch o none none
    ∷ to_launch o none none
    ∷ to_launch o none (some "timeout")
    ∷ []

operations-IsTidy_example : IsTidy (operations uses new_playwright_driver)
operations-IsTidy_example = operations-IsTidy uses

-- The browser is frozen twice.
abbrev attempts : ℕ → Attempt
attempts n = record { new_page = none; goto = none; status = some 200; frozen = ltb n 2 }

opened_third :
    (open_meeting_page (λ n. "n") true "https://meet.google.com/abc-defg-hij" attempts).0 ≡ ok false
unfolding open_meeting_page open_meeting_page_with_retry try_open
opened_third = refl

open_meeting_page-IsOpened_example :
    let (r, calls) =
      open_meeting_page (λ n. "n") true "https://meet.google.com/abc-defg-hij" attempts in
    (opened_count calls ≡ closed_count calls + live_pages r)
    × (opened_count calls ≤ 3)
    × (r ≡ ok true
        → are_frozen (λ n. "n") "https://meet.google.com/abc-defg-hij" attempts 2 0 ≡ true)
open_meeting_page-IsOpened_example =
    open_meeting_page-IsOpened (λ n. "n") "https://meet.google.com/abc-defg-hij" true attempts

-- Hundredths, of which a few texts are known.
abbrev hundredths_of : String → ℕ × Bool
hundredths_of s =
    if str_eq s "0"
    then (0, true)
    else if str_eq s "0.01"
    then (1, true)
    else if str_eq s "0.1"
    then (10, true)
    else if str_eq s "0.5"
    then (50, true)
    else if str_eq s "0.9"
    then (90, true)
    else if str_eq s "1.2"
    then (120, true)
    else if str_eq s "2.4"
    then (240, true)
    else if str_eq s "10"
    then (1000, true)
    else (0, false)

abbrev hundredths : Floats
hundredths = record {
  F = ℕ;
  literal = λ s. (hundredths_of s).0;
  lt = ltb;
  le = leb;
  eq = λ a b. a == b;
  sub = λ a b. a - b;
  parse_float = hundredths_of;
  format_float = λ n. "n";
}

-- A beep at 1.2 seconds, and flashes at 1.2 and, larger, at 2.4.
abbrev tools : Outside
tools = record {
  floats = hundredths;
  answer = λ before c. ("", none);
  find_all = λ pattern text.
      if str_eq pattern "silence_end:\\s*([0-9.]+)"
      then "1.2" ∷ []
      else if str_eq pattern "pts_time:([0-9.]+)"
      then "1.2" ∷ "2.4" ∷ []
      else "0.1" ∷ "0.9" ∷ [];
  trim_space = λ s. s;
  split = λ text separator. text ∷ [];
  atoi = λ s. err "not a number";
  itoa = λ n. "16000";
}

lt_trans : (a b c : ℕ) → ltb a b ≡ true → ltb b c ≡ true → ltb a c ≡ true
lt_trans a b c h k = ground arith

lt_cotrans : (a b c : ℕ) → ltb a c ≡ true → ltb a b ≡ false → ltb b c ≡ true
lt_cotrans a b c h k = ground arith

detect_video_flash-IsBrightest_example :
    let fs = frames tools ("1.2" ∷ "2.4" ∷ []) ("0.1" ∷ "0.9" ∷ []) in
    let flash = (detect_video_flash tools "raw.mp4" []).0 in
    (All (IsNotAbove tools 0) fs × (flash ≡ 0))
    ⊎ ((scene : ℕ) × IsBrightest tools (flash, scene) 0 fs)
detect_video_flash-IsBrightest_example =
    detect_video_flash-IsBrightest tools (record { trans = lt_trans; cotrans = lt_cotrans })
      "raw.mp4" []

abbrev paths : Paths
paths = record { dir = λ p. "/tmp"; join = λ a b. b; replace_all = λ text from to. text }

abbrev final_options : FinalizeOptions
final_options = record {
  raw_path = "/tmp/raw.mp4";
  output_dir = "";
  mp4_name = "";
  wav_name = "";
  wav_sample_rate = 0;
  apply_offset = true;
}

abbrev final : FinalizeResult tools paths
final = record {
  mp4_path = "output.mp4";
  wav_path = "output.wav";
  offset = record {
    audio_timestamp = 120;
    video_timestamp = 240;
    offset_seconds = 120;
    confidence = 90;
  };
  duration_s = 0;
  offset_used = true;
}

finalize-IsFinal_example :
    IsFinal tools paths
      (record { zero_le = refl; low = refl })
      (with_defaults paths final_options)
      final
      (finalize tools paths final_options []).1
unfolding finalize process clean_up outputs offset_pass extract_wav extract_wav_with_offset
    remux_mp4 remux_args offset_wav_args failed with_defaults calculate_offset detect_audio_beep
    detect_video_flash offset_of first_beep is_beep best_from keep_best is_skipped frames run probe
    probe_lines probe_line
finalize-IsFinal_example =
    finalize-IsFinal tools paths (record { zero_le = refl; low = refl }) final_options [] final refl
