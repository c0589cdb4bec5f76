-- ===== src/Api/Access/Auth.antt =====
-- The order of the checks of Auth and extractToken of internal/api/http/middleware/auth.go. The bump
-- of a key's last use runs on its own and changes nothing here.
use text.Mathlib.Text.{starts_with}
use Prim.Native.String.{len, slice}
use meeting_baa_s.Base.{String, Bool, Result, ok, err, str_eq, if◌then◌else◌}
use meeting_baa_s.Api.{Response, respond_error}
use meeting_baa_s.Api.Access.{ApiKeyRow, Cache, Lookup, resolve_api_key}

-- Header.Get: a header that is not sent is empty.
pub record Headers : Type 0 where
  pub authorization : String
  pub api_key : String

-- What Auth calls of Go: strings.TrimSpace, strings.ToLower, and the digest of the cache's key.
pub record Library : Type 0 where
  pub trim_space : String → String
  pub to_lower : String → String
  pub digest : String → String

abbrev own_header : Library → Headers → String
own_header lib h = if str_eq h.api_key "" then "" else lib.trim_space h.api_key

unfoldable pub extract_token : Library → Headers → String
extract_token lib h =
    if str_eq h.authorization ""
    then own_header lib h
    else if starts_with (lib.to_lower h.authorization) "bearer "
    then lib.trim_space (slice h.authorization 7 (len h.authorization))
    else own_header lib h

-- The handler runs with the key's four fields in its context, or the answer is an error.
pub data Passage : Type 0 where
  admitted : ApiKeyRow → Passage
  rejected : Response String → Passage

abbrev passage : Result ApiKeyRow × Cache → Passage × Cache
passage (ok row, cache) = (admitted row, cache)
passage (err e, cache) = (rejected (respond_error 401 "UNAUTHORIZED" "invalid API key"), cache)

unfoldable pub auth : Library → (redis repo : Bool) → Lookup → Headers → Cache → Passage × Cache
auth lib redis repo l h cache =
    let token = extract_token lib h in
    if str_eq token ""
    then (
      rejected (
          respond_error 401 "UNAUTHORIZED"
            "missing API key (Authorization: Bearer ... or x-meeting-baas-api-key)"),
      cache,
    )
    else passage (resolve_api_key lib.digest redis repo l token cache)
