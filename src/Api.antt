-- ===== src/Api.antt =====
-- The API's answers: internal/api/http/respond/respond.go. The JSON of an answer and the writer are
-- outside.
pub mod Access
pub mod Bots
pub mod Control
pub mod Legacy
pub mod Server
use meeting_baa_s.Base.{ℕ, String}

-- A status with its data, or a status with the code and the message of an error.
pub data Response {ℓ} (A : Type ℓ) : Type ℓ where
  answer : ℕ → A → Response A
  failure : ℕ → String → String → Response A

abbrev pub respond_ok {ℓ} : {A : Type ℓ} → A → Response A
respond_ok = answer 200

abbrev pub respond_created {ℓ} : {A : Type ℓ} → A → Response A
respond_created = answer 201

abbrev pub respond_accepted {ℓ} : {A : Type ℓ} → A → Response A
respond_accepted = answer 202

abbrev pub respond_error {ℓ} : {A : Type ℓ} → ℕ → String → String → Response A
respond_error = failure
