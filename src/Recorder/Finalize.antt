-- ===== src/Recorder/Finalize.antt =====
-- The files made of a recording: internal/infra/recorder/finalize.go, over the commands of
-- Recorder/Offset.antt. Paths are joined and cut by path/filepath, outside.
use meeting_baa_s.Base.{
  ℕ, String, Bool, true, false, not, ◌&&◌, none, some, List, [], ◌∷◌, ◌++◌, Result, ok, err,
  Failure, str_eq, leb, positive_or, if◌then◌else◌,
}
use meeting_baa_s.Recorder.Offset.{
  Outside, Command, ffmpeg, stat, remove, run, SyncOffset, ProbeResult, zero_float, probe,
  calculate_offset,
}
use Prim.Native.String

pub record FinalizeOptions : Type 0 where
  pub raw_path : String
  pub output_dir : String
  pub mp4_name : String
  pub wav_name : String
  pub wav_sample_rate : ℕ
  pub apply_offset : Bool

-- `dir` and `join` of path/filepath, `truncate` of a message behind 400 bytes.
pub record Paths : Type 0 where
  pub dir : String → String
  pub join : String → String → String
  pub replace_all : (text old new : String) → String

unfoldable pub truncate : Paths → String → ℕ → String
truncate paths text max =
    let s = paths.replace_all text "\n" " " in
    if leb (String.len s) max then s else String.◌++◌ (String.slice s 0 max) "..."

unfoldable pub with_defaults : Paths → FinalizeOptions → FinalizeOptions
with_defaults paths o = record o {
  output_dir = if str_eq o.output_dir "" then paths.dir o.raw_path else o.output_dir;
  mp4_name = if str_eq o.mp4_name "" then "output.mp4" else o.mp4_name;
  wav_name = if str_eq o.wav_name "" then "output.wav" else o.wav_name;
  wav_sample_rate = positive_or 16000 o.wav_sample_rate;
}

module _ (out : Outside) (paths : Paths) where
  pub record FinalizeResult : Type 0 where
    pub mp4_path : String
    pub wav_path : String
    pub offset : SyncOffset out
    pub duration_s : out.floats.F
    pub offset_used : Bool

  abbrev pub no_sync : SyncOffset out
  no_sync = record {
    audio_timestamp = zero_float out;
    video_timestamp = zero_float out;
    offset_seconds = zero_float out;
    confidence = zero_float out;
  }

  unfoldable pub failed : String → String × Failure → Failure
  failed what (text, none) = none
  failed what (text, some e) = some (
      String.◌++◌ what
        (String.◌++◌ e (String.◌++◌ " (" (String.◌++◌ (truncate paths text 400) ")"))))

  abbrev delayed : SyncOffset out → Bool → List String
  delayed sync offset_used =
      if offset_used && not (out.floats.eq sync.offset_seconds (zero_float out))
      then "-itsoffset" ∷ out.floats.format_float sync.offset_seconds ∷ []
      else []

  unfoldable pub remux_args : (raw output : String) → SyncOffset out → Bool → List String
  remux_args raw output sync offset_used =
      ("-y" ∷ [])
      ++ (delayed sync offset_used
          ++ ("-i" ∷ raw ∷ "-c:v" ∷ "copy" ∷ "-c:a" ∷ "aac" ∷ "-b:a" ∷ "192k" ∷ "-movflags"
              ∷ "+faststart" ∷ output ∷ []))

  unfoldable pub remux_mp4 :
      (raw output : String) → SyncOffset out → Bool → List Command → Failure × List Command
  remux_mp4 raw output sync offset_used before =
      let (a, after) = run out (ffmpeg (remux_args raw output sync offset_used)) before in
      (failed "ffmpeg remux: " a, after)

  abbrev pub wav_args : (raw output : String) → ℕ → List String
  wav_args raw output sample_rate =
      "-i"
      ∷ raw
      ∷ "-vn"
      ∷ "-ac"
      ∷ "1"
      ∷ "-ar"
      ∷ out.itoa sample_rate
      ∷ "-c:a"
      ∷ "pcm_s16le"
      ∷ output
      ∷ []

  unfoldable pub extract_wav : (raw output : String) → ℕ → List Command → Failure × List Command
  extract_wav raw output sample_rate before =
      let (a, after) = run out (ffmpeg ("-y" ∷ wav_args raw output sample_rate)) before in
      (failed "ffmpeg wav: " a, after)

  abbrev skipped : SyncOffset out → Bool → List String
  skipped sync offset_used =
      if offset_used && out.floats.lt (zero_float out) sync.audio_timestamp
      then "-ss" ∷ out.floats.format_float sync.audio_timestamp ∷ []
      else []

  unfoldable pub offset_wav_args : (raw output : String) → ℕ → SyncOffset out → Bool → List String
  offset_wav_args raw output sample_rate sync offset_used =
      ("-y" ∷ []) ++ (skipped sync offset_used ++ wav_args raw output sample_rate)

  unfoldable pub extract_wav_with_offset :
      (raw output : String) → ℕ → SyncOffset out → Bool → List Command → Failure × List Command
  extract_wav_with_offset raw output sample_rate sync offset_used before =
      let args = offset_wav_args raw output sample_rate sync offset_used in
      let (a, after) = run out (ffmpeg args) before in (failed "ffmpeg wav: " a, after)

  -- What the pass over the offset leaves: `probed` is true where the sync probe is to be removed.
  pub record Pass : Type 0 where
    pub sync : SyncOffset out
    pub offset_used : Bool
    pub probed : Bool

  abbrev pub no_pass : Pass
  no_pass = record { sync = no_sync; offset_used = false; probed = false }

  abbrev pub is_confident : SyncOffset out → Bool
  is_confident sync = out.floats.le (out.floats.literal "0.5") sync.confidence

  abbrev pub tmp_wav : FinalizeOptions → String
  tmp_wav o = paths.join o.output_dir "._sync_probe.wav"

  abbrev pub probed_pass : FinalizeOptions → Failure × List Command → Pass × List Command
  probed_pass o (some e, after) = (no_pass, after)
  probed_pass o (none, after) =
      let (sync, last) = calculate_offset out (tmp_wav o) o.raw_path after in
      (record { sync = sync; offset_used = is_confident sync; probed = true }, last)

  unfoldable pub offset_pass : FinalizeOptions → List Command → Pass × List Command
  offset_pass o before =
      if o.apply_offset
      then probed_pass o (extract_wav o.raw_path (tmp_wav o) o.wav_sample_rate before)
      else (no_pass, before)

  abbrev pub duration_of : Result (ProbeResult out) → out.floats.F
  duration_of (ok p) = p.duration
  duration_of (err e) = zero_float out

  abbrev pub result : FinalizeOptions → out.floats.F → Pass → FinalizeResult
  result o duration p = record {
    mp4_path = paths.join o.output_dir o.mp4_name;
    wav_path = paths.join o.output_dir o.wav_name;
    offset = p.sync;
    duration_s = duration;
    offset_used = p.offset_used;
  }

  abbrev pub result_of :
      FinalizeOptions
      → out.floats.F
      → Pass
      → Failure × List Command
      → Result FinalizeResult × List Command
  result_of o duration p (some e, after) = (err (String.◌++◌ "recorder.Finalize: wav: " e), after)
  result_of o duration p (none, after) = (ok (result o duration p), after)

  -- The two outputs, behind the pass.
  abbrev pub remuxed :
      FinalizeOptions
      → out.floats.F
      → Pass
      → Failure × List Command
      → Result FinalizeResult × List Command
  remuxed o duration p (some e, after) = (err (String.◌++◌ "recorder.Finalize: mp4: " e), after)
  remuxed o duration p (none, after) = result_of o duration p (
      extract_wav_with_offset o.raw_path (paths.join o.output_dir o.wav_name) o.wav_sample_rate
        p.sync p.offset_used after)

  unfoldable pub outputs :
      FinalizeOptions → out.floats.F → Pass → List Command → Result FinalizeResult × List Command
  outputs o duration p before =
      remuxed o duration p
        (remux_mp4 o.raw_path (paths.join o.output_dir o.mp4_name) p.sync p.offset_used before)

  -- The deferred `os.Remove`, whose error is dropped.
  unfoldable pub clean_up :
      FinalizeOptions
      → Pass
      → Result FinalizeResult × List Command
      → Result FinalizeResult × List Command
  clean_up o p (r, before) =
      if p.probed then (r, (run out (remove (tmp_wav o)) before).1) else (r, before)

  -- `Finalize` from the stat on, with the defaults in place.
  unfoldable pub process : FinalizeOptions → List Command → Result FinalizeResult × List Command
  process o before =
      let (probed, b) = probe out o.raw_path before in
      let (p, c) = offset_pass o b in clean_up o p (outputs o (duration_of probed) p c)

  abbrev pub stated :
      FinalizeOptions → (String × Failure) × List Command → Result FinalizeResult × List Command
  stated o ((text, some e), after) =
      let what : String = String.◌++◌ o.raw_path (String.◌++◌ ": " e) in
      (err (String.◌++◌ "recorder.Finalize: stat " what), after)
  stated o ((text, none), after) = process (with_defaults paths o) after

  unfoldable pub finalize : FinalizeOptions → List Command → Result FinalizeResult × List Command
  finalize o before =
      if str_eq o.raw_path ""
      then (err "recorder.Finalize: RawPath required", before)
      else stated o (run out (stat o.raw_path) before)
