-- ===== src/Api/Access/Keys.antt =====
-- The table of API keys: internal/infra/storage/postgres/api_key_repo.go, on a list of its rows. The
-- errors of PostgreSQL are arguments. A digest of the column key_hash, which is unique, is a text, and
-- an instant counts seconds.
use Prim.Native.String.{slice}
use meeting_baa_s.Base.{
  ℕ, String, Bool, true, false, not, ◌&&◌, Option, none, some, List, [], ◌∷◌, any, Result, ok, err,
  Failure, ltb, ◌==◌, str_eq, is_some, if◌then◌else◌,
}
use meeting_baa_s.Api.Access.{ApiKeyRow, Bytes, Lookup, Cache, resolve_api_key}
use Prim.Native.String

-- The columns that the program writes; `row` has those that Auth reads.
pub record ApiKey : Type 0 where
  pub row : ApiKeyRow
  pub key_hash : String
  pub created_by : String
  pub name : String
  pub scopes : List String
  pub expires_at : Option ℕ
  pub revoked_at : Option ℕ

abbrev pub same_bytes : Bytes → Bytes → Bool
same_bytes [] [] = true
same_bytes (a ∷ s) (b ∷ t) = (a == b) && same_bytes s t
same_bytes _ _ = false

-- What Issue is asked for, with the hex of the random bytes or their error, the error of the insertion
-- beside that of a digest that is taken, and the id that it gives. The rate is a 32-bit word.
pub record Issuing : Type 0 where
  pub tenant_id : Bytes
  pub created_by : String
  pub name : String
  pub scopes : List String
  pub rate_limit_per_min : ℕ
  pub random : Result String
  pub inserted : Result Bytes

abbrev or_scopes : List String → List String
or_scopes [] = "bots:write" ∷ "bots:read" ∷ []
or_scopes (s ∷ ss) = s ∷ ss

abbrev rate_or : ℕ → ℕ
rate_or n = if ltb 0 n && ltb n 2147483648 then n else 600

abbrev pub has_hash : String → List ApiKey → Bool
has_hash h = any (λ (k : ApiKey). str_eq k.key_hash h)

unfoldable pub new_key :
    (digest : String → String)
    → (bytes : String → Bytes) → Issuing
    → (hex : String) → (id : Bytes) → ApiKey
new_key digest bytes i hex id = record {
  row = record {
    id = id;
    tenant_id = i.tenant_id;
    key_prefix = bytes (slice hex 0 8);
    rate_limit_per_min = rate_or i.rate_limit_per_min;
  };
  key_hash = digest (String.◌++◌ "mb_" hex);
  created_by = i.created_by;
  name = i.name;
  scopes = or_scopes i.scopes;
  expires_at = none;
  revoked_at = none;
}

abbrev pub inserted_key :
    (digest : String → String)
    → (bytes : String → Bytes) → Issuing
    → String
    → Result Bytes
    → List ApiKey
    → Result (ApiKey × String) × List ApiKey
inserted_key digest bytes i hex (err e) keys = (err (String.◌++◌ "api_key_repo: insert: " e), keys)
inserted_key digest bytes i hex (ok id) keys =
    let k = new_key digest bytes i hex id in
    if has_hash k.key_hash keys
    then (err "api_key_repo: insert: duplicate key", keys)
    else (ok (k, String.◌++◌ "mb_" hex), k ∷ keys)

abbrev pub drawn :
    (digest : String → String)
    → (bytes : String → Bytes) → Issuing
    → Result String
    → List ApiKey
    → Result (ApiKey × String) × List ApiKey
drawn digest bytes i (err e) keys = (err (String.◌++◌ "api_key_repo: rand: " e), keys)
drawn digest bytes i (ok hex) keys = inserted_key digest bytes i hex i.inserted keys

unfoldable pub issue :
    (digest : String → String)
    → (bytes : String → Bytes) → Issuing
    → List ApiKey
    → Result (ApiKey × String) × List ApiKey
issue digest bytes i keys =
    if str_eq i.name ""
    then (err "api_key_repo: name required", keys)
    else drawn digest bytes i i.random keys

abbrev later_than : ℕ → Option ℕ → Bool
later_than now none = true
later_than now (some t) = ltb now t

-- Neither revoked nor expired.
abbrev pub is_live : ℕ → ApiKey → Bool
is_live now k = not (is_some k.revoked_at) && later_than now k.expires_at

unfoldable pub find_key : (now : ℕ) → (hash : String) → List ApiKey → Result ApiKeyRow
find_key now h [] = err "not found"
find_key now h (k ∷ ks) =
    let rest = find_key now h ks in if str_eq k.key_hash h && is_live now k then ok k.row else rest

-- `failed` is the error of the query.
unfoldable pub lookup_by_plaintext :
    (digest : String → String)
    → (failed : Failure) → (now : ℕ) → (plaintext : String) → List ApiKey
    → Result ApiKeyRow
lookup_by_plaintext digest failed now plaintext keys = elim failed [
  | some e ↦ err (String.◌++◌ "api_key_repo: lookup: " e)
  | none ↦ find_key now (digest plaintext) keys
]

abbrev pub revoke_one : (now : ℕ) → (id : Bytes) → ApiKey → ApiKey
revoke_one now id k =
    if same_bytes k.row.id id && not (is_some k.revoked_at)
    then record k { revoked_at = some now }
    else k

unfoldable pub revoke_rows : (now : ℕ) → (id : Bytes) → List ApiKey → List ApiKey
revoke_rows now id [] = []
revoke_rows now id (k ∷ ks) = revoke_one now id k ∷ revoke_rows now id ks

-- An update that changes no row is ErrNotFound.
unfoldable pub revoke :
    (failed : Failure) → (now : ℕ) → (id : Bytes) → List ApiKey → Failure × List ApiKey
revoke (some e) now id keys = (some (String.◌++◌ "api_key_repo: revoke: " e), keys)
revoke none now id keys = (
  if any (λ (k : ApiKey). same_bytes k.row.id id && not (is_some k.revoked_at)) keys
      then none
      else some "not found",
  revoke_rows now id keys,
)

-- What the API and its administration do with the keys, at an instant.
pub data KeyEvent : Type 0 where
  issued : Issuing → KeyEvent
  revoked : (failed : Failure) (id : Bytes) → KeyEvent
  resolved : (token : String) (got set failed : Failure) → KeyEvent

pub record Keys : Type 0 where
  pub rows : List ApiKey
  pub cache : Cache

abbrev pub lookup_at :
    (digest : String → String) → ℕ → (token : String) → (got set failed : Failure) → Keys → Lookup
lookup_at digest now token got set failed s = record {
  now = now;
  got = got;
  set = set;
  found = lookup_by_plaintext digest failed now token s.rows;
}

-- Auth resolves a token against the cache and the rows.
unfoldable pub happen :
    (digest : String → String) → (bytes : String → Bytes) → ℕ × KeyEvent → Keys → Keys
happen digest bytes (now, issued i) s = record s { rows = (issue digest bytes i s.rows).1 }
happen digest bytes (now, revoked failed id) s = record s { rows = (revoke failed now id s.rows).1 }
happen digest bytes (now, resolved token got set failed) s =
    let l = lookup_at digest now token got set failed s in
    record s { cache = (resolve_api_key digest true true l token s.cache).1 }

abbrev pub no_entries : Cache
no_entries key = none

unfoldable pub happen_all :
    (digest : String → String) → (bytes : String → Bytes) → List (ℕ × KeyEvent) → Keys → Keys
happen_all digest bytes [] s = s
happen_all digest bytes (e ∷ es) s = happen_all digest bytes es (happen digest bytes e s)
