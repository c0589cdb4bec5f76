-- ===== src/Recorder/Ffmpeg.antt =====
-- internal/infra/recorder/ffmpeg_builder.go. A builder is its arguments; a number is its decimal text.
use meeting_baa_s.Base.{String, List, [], ◌∷◌, ◌++◌}

unfoldable pub new_ffmpeg_builder : List String
new_ffmpeg_builder = "-y" ∷ []

unfoldable pub input : (format source : String) → List String → List String
input format source args = args ++ ("-f" ∷ format ∷ "-i" ∷ source ∷ [])

unfoldable pub audio_input : (format source : String) → List String → List String
audio_input format source args = args ++ ("-f" ∷ format ∷ "-i" ∷ source ∷ [])

unfoldable pub video_codec : String → List String → List String
video_codec codec args = args ++ ("-c:v" ∷ codec ∷ [])

unfoldable pub audio_codec : String → List String → List String
audio_codec codec args = args ++ ("-c:a" ∷ codec ∷ [])

unfoldable pub preset : String → List String → List String
preset p args = args ++ ("-preset" ∷ p ∷ [])

unfoldable pub crf : String → List String → List String
crf c args = args ++ ("-crf" ∷ c ∷ [])

unfoldable pub audio_bitrate : String → List String → List String
audio_bitrate bitrate args = args ++ ("-b:a" ∷ bitrate ∷ [])

unfoldable pub output_path : String → List String → List String
output_path path args = args ++ (path ∷ [])

unfoldable pub build : List String → List String
build args = args
