-- ===== src/Worker/Uploads.antt =====
-- The upload of a recording: NewClient, Upload and UploadFile of internal/infra/storage/s3/client.go.
use meeting_baa_s.Base.{String, Bool, none, some, List, [], ◌∷◌, Failure, str_eq, if◌then◌else◌}
use meeting_baa_s.Worker.{WorkerConfig}
use Prim.Native.String

pub record S3Options : Type 0 where
  pub endpoint : String
  pub region : String
  pub bucket : String
  pub access_key : String
  pub secret_key : String
  pub use_path_style : Bool

unfoldable pub with_defaults : S3Options → S3Options
with_defaults o = record o {
  region = if str_eq o.region "" then "us-east-1" else o.region;
  bucket = if str_eq o.bucket "" then "recordings" else o.bucket;
}

-- An object that was put: the file it was read from, and its key.
pub record Put : Type 0 where
  pub local : String
  pub key : String

-- `open_file` and `put` are the errors of opening a file and of PutObject.
unfoldable pub upload_file :
    (open_file put : String → Failure) → (local_path s3_key : String) → Failure × List Put
upload_file open_file put local_path s3_key = elim (open_file local_path) [
  | some e ↦ (some (String.◌++◌ "s3: open " (String.◌++◌ local_path (String.◌++◌ ": " e))), [])
  | none ↦ elim (put s3_key) [
    | some e ↦ (some (String.◌++◌ "s3: put " (String.◌++◌ s3_key (String.◌++◌ ": " e))), [])
    | none ↦ (none, record { local = local_path; key = s3_key } ∷ [])
  ]
]

unfoldable pub upload : (open_file put : String → Failure) → WorkerConfig → Failure × List Put
upload open_file put c =
    if str_eq c.mp4_s3_path ""
    then (none, [])
    else upload_file open_file put c.mp4_s3_path c.mp4_s3_path
