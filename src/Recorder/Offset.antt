-- ===== src/Recorder/Offset.antt =====
-- The offset between sound and picture: internal/infra/recorder/offset.go. Floating-point numbers,
-- regular expressions and the two programs are outside: `answer` is what a command gives after those
-- before it, and a run of the code keeps the commands it gave, newest first.
use meeting_baa_s.Base.{
  ℕ, String, Bool, true, false, not, ◌&&◌, ◌||◌, none, some, List, [], ◌∷◌, map, Result, ok, err,
  Failure, if◌then◌else◌,
}
use Prim.Native.String

-- `float64`; `literal` is a constant of the source, and `parse_float` has the value that Go gives with
-- an error too.
pub record Floats : Type 1 where
  pub F : Type 0
  pub literal : String → F
  pub lt : F → F → Bool
  pub le : F → F → Bool
  pub eq : F → F → Bool
  pub sub : F → F → F
  pub parse_float : String → F × Bool
  pub format_float : F → String

pub data Command : Type 0 where
  ffprobe ffmpeg : (args : List String) → Command
  stat remove : (path : String) → Command

-- `find_all` gives the first group of every match.
pub record Outside : Type 1 where
  pub floats : Floats
  pub answer : (before : List Command) → Command → String × Failure
  pub find_all : (pattern text : String) → List String
  pub trim_space : String → String
  pub split : (text separator : String) → List String
  pub atoi : String → Result ℕ
  pub itoa : ℕ → String

module _ (out : Outside) where
  abbrev Float : Type 0
  Float = out.floats.F

  abbrev pub zero_float : Float
  zero_float = out.floats.literal "0"

  unfoldable pub run : Command → List Command → (String × Failure) × List Command
  run c before = (out.answer before c, c ∷ before)

  pub record ProbeResult : Type 0 where
    pub duration : Float
    pub width : ℕ
    pub height : ℕ

  abbrev pub no_probe : ProbeResult
  no_probe = record { duration = zero_float; width = 0; height = 0 }

  abbrev with_duration : Float × Bool → ProbeResult → ProbeResult
  with_duration (d, true) r = record r { duration = d }
  with_duration (d, false) r = r

  abbrev with_width : Result ℕ → ProbeResult → ProbeResult
  with_width (ok w) r = record r { width = w }
  with_width (err e) r = r

  abbrev with_height : Result ℕ → ProbeResult → ProbeResult
  with_height (ok h) r = record r { height = h }
  with_height (err e) r = r

  unfoldable pub probe_line : List String → ProbeResult → ProbeResult
  probe_line [] r = r
  probe_line (d ∷ []) r = with_duration (out.floats.parse_float d) r
  probe_line (w ∷ h ∷ rest) r = with_height (out.atoi h) (with_width (out.atoi w) r)

  unfoldable pub probe_lines : List String → ProbeResult → ProbeResult
  probe_lines [] r = r
  probe_lines (line ∷ lines) r =
      probe_lines lines (probe_line (out.split (out.trim_space line) ",") r)

  abbrev pub probe_args : String → List String
  probe_args path =
      "-v" ∷ "error" ∷ "-show_entries" ∷ "format=duration:stream=width,height" ∷ "-of" ∷ "csv=p=0"
      ∷ path ∷ []

  abbrev probed : String × Failure → Result ProbeResult
  probed (text, some e) = err (String.◌++◌ "ffprobe: " e)
  probed (text, none) = ok (probe_lines (out.split (out.trim_space text) "\n") no_probe)

  unfoldable pub probe : String → List Command → Result ProbeResult × List Command
  probe path before = let (a, after) = run (ffprobe (probe_args path)) before in (probed a, after)

  pub record SyncOffset : Type 0 where
    pub audio_timestamp : Float
    pub video_timestamp : Float
    pub offset_seconds : Float
    pub confidence : Float

  abbrev pub analysis_window_sec : Float
  analysis_window_sec = out.floats.literal "10"

  unfoldable pub is_beep : Float × Bool → Bool
  is_beep (t, parsed) =
      parsed && out.floats.lt (out.floats.literal "0.01") t && out.floats.lt t analysis_window_sec

  unfoldable pub first_beep : List (Float × Bool) → Float
  first_beep [] = zero_float
  first_beep (t ∷ ts) = let rest = first_beep ts in if is_beep t then t.0 else rest

  abbrev pub beep_args : String → List String
  beep_args audio_path =
      "-i" ∷ audio_path ∷ "-af" ∷ "silencedetect=noise=-35dB:duration=0.01" ∷ "-f" ∷ "null" ∷ "-t"
      ∷ "10" ∷ "-" ∷ []

  unfoldable pub detect_audio_beep : String → List Command → Float × List Command
  detect_audio_beep audio_path before =
      let (a, after) = run (ffmpeg (beep_args audio_path)) before in
      (
        first_beep (map out.floats.parse_float (out.find_all "silence_end:\\s*([0-9.]+)" a.0)),
        after,
      )

  -- A frame: the time that was read, and the change of scene at the same index, 0 where there is none.
  abbrev pub Frame : Type 0
  Frame = (Float × Bool) × Float

  unfoldable pub frames : (times scenes : List String) → List Frame
  frames [] scenes = []
  frames (t ∷ ts) [] = (out.floats.parse_float t, zero_float) ∷ frames ts []
  frames (t ∷ ts) (s ∷ ss) = (out.floats.parse_float t, (out.floats.parse_float s).0) ∷ frames ts ss

  unfoldable pub is_skipped : Float × Bool → Bool
  is_skipped (t, parsed) =
      not parsed
      || out.floats.le t (out.floats.literal "0.5")
      || out.floats.le analysis_window_sec t

  -- A round of the loop over the best time and scene so far.
  unfoldable pub keep_best : Frame → Float × Float → Float × Float
  keep_best (t, scene) best =
      if is_skipped t then best else if out.floats.lt best.1 scene then (t.0, scene) else best

  unfoldable pub best_from : List Frame → Float × Float → Float × Float
  best_from [] best = best
  best_from (f ∷ fs) best = best_from fs (keep_best f best)

  abbrev pub flash_args : String → List String
  flash_args video_path =
      "-i" ∷ video_path ∷ "-vf" ∷ "select='gt(scene,0.05)',showinfo" ∷ "-vsync" ∷ "0" ∷ "-f"
      ∷ "null" ∷ "-t" ∷ "10" ∷ "-" ∷ []

  unfoldable pub detect_video_flash : String → List Command → Float × List Command
  detect_video_flash video_path before =
      let (a, after) = run (ffmpeg (flash_args video_path)) before in
      let fs =
        frames (out.find_all "pts_time:([0-9.]+)" a.0) (out.find_all "scene:([0-9.]+)" a.0) in
      ((best_from fs (zero_float, zero_float)).0, after)

  unfoldable pub max_float : Float → Float → Float
  max_float a b = if out.floats.lt b a then a else b

  -- What `CalculateOffset` makes of the two times; its error is always nil.
  unfoldable pub offset_of : (audio video : Float) → SyncOffset
  offset_of audio video =
      if out.floats.le audio zero_float || out.floats.le video zero_float
      then record {
        audio_timestamp = max_float audio zero_float;
        video_timestamp = max_float video zero_float;
        offset_seconds = zero_float;
        confidence = out.floats.literal "0.1";
      }
      else record {
        audio_timestamp = audio;
        video_timestamp = video;
        offset_seconds = out.floats.sub video audio;
        confidence = out.floats.literal "0.9";
      }

  unfoldable pub calculate_offset :
      (audio_path video_path : String) → List Command → SyncOffset × List Command
  calculate_offset audio_path video_path before =
      let (audio, after) = detect_audio_beep audio_path before in
      let (video, last) = detect_video_flash video_path after in (offset_of audio video, last)
