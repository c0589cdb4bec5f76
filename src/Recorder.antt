-- ===== src/Recorder.antt =====
-- The screen recorder: internal/infra/recorder/recorder.go and the builder of its arguments in
-- ffmpeg_builder.go. The subprocess is outside: an operation is given what the operating system
-- answers, and `calls` holds what it was asked, newest first.
pub mod Ffmpeg
pub mod Finalize
pub mod Measured
pub mod Offset
pub mod Outputs
pub mod Signals
pub mod Processes
use meeting_baa_s.Base.{
  ℕ, String, Bool, true, false, not, ◌||◌, Option, none, some, is_some, List, [], ◌∷◌, Failure,
  str_eq, if◌then◌else◌,
}
use Prim.Native.String
use Ffmpeg.{
  new_ffmpeg_builder, input, audio_input, video_codec, preset, crf, audio_codec, audio_bitrate,
  output_path, build,
}

-- What is asked of the operating system.
pub data ProcessCall : Type 0 where
  spawn : (args : List String) → ProcessCall
  interrupt kill wait suspend continue : ProcessCall

-- `cmd`: nil, a command whose process could not be started, or one with a process.
pub data Command : Type 0 where
  no_command unstarted started : Command

pub record ScreenRecorder : Type 0 where
  pub cmd : Command
  pub output_path : String
  pub display : String
  pub started_at : ℕ
  pub running : Bool
  pub calls : List ProcessCall

abbrev or_default : String → String → String
or_default default s = if str_eq s "" then default else s

-- The options that the recorder keeps; it reads none of the others again.
unfoldable pub new : (output_path display : String) → ScreenRecorder
new path display = record {
  cmd = no_command;
  output_path = or_default "/tmp/recording.mp4" path;
  display = or_default ":99" display;
  started_at = 0;
  running = false;
  calls = [];
}

unfoldable pub arguments : ScreenRecorder → List String
arguments r = build (
    output_path r.output_path (
      audio_bitrate "128k" (
        audio_codec "aac" (
          crf "23" (
            preset "ultrafast" (
              video_codec "libx264"
                (audio_input "pulse" "default" (input "x11grab" r.display new_ffmpeg_builder))))))))

-- `spawned` is the error of `cmd.Start`. Only a process that was started counts as a call.
unfoldable pub start : (spawned : Failure) → (now : ℕ) → ScreenRecorder → Failure × ScreenRecorder
start spawned now r = if r.running then (some "recorder: already running", r) else elim spawned [
  | some e ↦ (some (String.◌++◌ "recorder: start ffmpeg: " e), record r { cmd = unstarted })
  | none ↦ (
    none,
    record r {
      cmd = started;
      running = true;
      started_at = now;
      calls = spawn (arguments r) ∷ r.calls;
    },
  )
]

abbrev pub has_process : Command → Bool
has_process started = true
has_process _ = false

abbrev pub is_idle : ScreenRecorder → Bool
is_idle r = not r.running || not (has_process r.cmd)

-- The process is killed where it cannot be interrupted; then it is waited for.
abbrev signalled : Failure → List ProcessCall → List ProcessCall
signalled none calls = wait ∷ (interrupt ∷ calls)
signalled (some e) calls = wait ∷ (kill ∷ (interrupt ∷ calls))

-- `interrupted` is the error of the signal. The call returns once the process has ended.
unfoldable pub stop : (interrupted : Failure) → ScreenRecorder → Failure × ScreenRecorder
stop interrupted r =
    if is_idle r
    then (none, r)
    else (none, record r { running = false; calls = signalled interrupted r.calls })

unfoldable pub pause : (signal : Failure) → ScreenRecorder → Failure × ScreenRecorder
pause signal r = if is_idle r then (none, r) else (signal, record r { calls = suspend ∷ r.calls })

unfoldable pub resume : (signal : Failure) → ScreenRecorder → Failure × ScreenRecorder
resume signal r = if is_idle r then (none, r) else (signal, record r { calls = continue ∷ r.calls })
