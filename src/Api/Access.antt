-- ===== src/Api/Access.antt =====
-- The API's keys and their rates: internal/api/http/middleware/auth.go and rate_limit.go. SHA-256,
-- Redis and PostgreSQL are outside. A text that the code reads byte by byte is the list of its
-- bytes; an int32 is a 32-bit word.
pub mod Auth
pub mod Caching
pub mod Issued
pub mod Keys
pub mod Lasting
pub mod Limits
pub mod Revoked
pub mod Revoking
use meeting_baa_s.Base.{
  ℕ, zero, suc, ◌+◌, ◌-◌, ◌*◌, ◌/◌, ◌%◌, String, Bool, true, false, not, ◌&&◌, ◌||◌, Option, none,
  some, List, [], ◌∷◌, ◌++◌, Result, ok, err, Failure, ltb, leb, ◌==◌, str_eq, if◌then◌else◌,
}
use meeting_baa_s.Api.{Response, answer, failure, respond_error}

abbrev pub Bytes : Type 0
Bytes = List ℕ

-- parseInt32, from the digits read so far: `n*10 + int32(c-'0')` wraps.
unfoldable pub parse_digits : ℕ → Bytes → Option ℕ
parse_digits n [] = some n
parse_digits n (c ∷ s) =
    let rest = parse_digits ((n * 10 + (c - 48)) % 4294967296) s in
    if ltb c 48 || ltb 57 c then none else rest

abbrev pub parse_int32 : Bytes → Option ℕ
parse_int32 = parse_digits 0

-- The loop of formatInt32 fills a buffer of 12 bytes from its end.
unfoldable pub format_digits : (room : ℕ) → ℕ → Bytes → Bytes
format_digits zero n buf = buf
format_digits (suc room) n buf =
    let rest = format_digits room (n / 10) ((48 + n % 10) ∷ buf) in if n == 0 then buf else rest

-- A word from 2 ^ 31 on is negative: the loop does not start.
unfoldable pub format_int32 : ℕ → Bytes
format_int32 n = if n == 0 then 48 ∷ [] else if ltb 2147483647 n then [] else format_digits 12 n []

pub record ApiKeyRow : Type 0 where
  pub id : Bytes
  pub tenant_id : Bytes
  pub key_prefix : Bytes
  pub rate_limit_per_min : ℕ

abbrev pub bar : ℕ
bar = 124

-- strings.Join with "|".
unfoldable pub join : List Bytes → Bytes
join [] = []
join (p ∷ []) = p
join (p ∷ q ∷ ps) = p ++ (bar ∷ join (q ∷ ps))

-- What stands before the first "|" and behind it.
unfoldable pub cut : Bytes → Option (Bytes × Bytes)
cut [] = none
cut (c ∷ s) =
    let rest = cut s in
    if c == bar
    then some ([], s)
    else elim rest [ none ↦ none | some parts ↦ some (c ∷ parts.0, parts.1) ]

-- strings.SplitN(val, "|", n) for a positive `n`.
unfoldable pub split_n : ℕ → Bytes → List Bytes
split_n zero s = []
split_n (suc zero) s = s ∷ []
split_n (suc (suc n)) s = elim (cut s) [
  | none ↦ s ∷ []
  | some parts ↦ parts.0 ∷ split_n (suc n) parts.1
]

unfoldable pub encode_key : ApiKeyRow → Bytes
encode_key row =
    join (row.id ∷ row.tenant_id ∷ row.key_prefix ∷ format_int32 row.rate_limit_per_min ∷ [])

abbrev rate_of : Bytes → ℕ
rate_of s = elim (parse_int32 s) [ none ↦ 0 | some r ↦ r ]

abbrev four_parts : List Bytes → Option ApiKeyRow
four_parts (id ∷ tenant ∷ prefix ∷ rate ∷ []) =
    some (record {
      id = id;
      tenant_id = tenant;
      key_prefix = prefix;
      rate_limit_per_min = rate_of rate;
    })
four_parts parts = none

unfoldable pub decode_key : Bytes → Option ApiKeyRow
decode_key val = four_parts (split_n 4 val)

-- A value of Redis holds until its second.
pub record Entry : Type 0 where
  pub value : Bytes
  pub until : ℕ

abbrev pub Cache : Type 0
Cache = String → Option Entry

-- What one resolution meets: the clock, the errors of GET and SET, and LookupByPlaintext's answer.
pub record Lookup : Type 0 where
  pub now : ℕ
  pub got : Failure
  pub set : Failure
  pub found : Result ApiKeyRow

abbrev cached_value : ℕ → Option Entry → Bytes
cached_value now none = []
cached_value now (some e) = if ltb now e.until then e.value else []

-- An empty value is a miss, and so is one that is not four parts.
unfoldable pub cached_key : Lookup → String → Cache → Option ApiKeyRow
cached_key l key cache = elim l.got [
  | some e ↦ none
  | none ↦ elim (cached_value l.now (cache key)) [ [] ↦ none | c ∷ s ↦ decode_key (c ∷ s) ]
]

abbrev pub put_entry : String → Entry → Cache → Cache
put_entry key e cache k = if str_eq k key then some e else cache k

-- The key of the cache is the token's digest. `redis` and `repo` tell what is set.
unfoldable pub look_up : (redis repo : Bool) → Lookup → String → Cache → Result ApiKeyRow × Cache
look_up redis repo l key cache =
    if not repo then (err "auth: no APIKeys repo configured", cache) else elim l.found [
      | err e ↦ (err e, cache)
      | ok row ↦ if not redis then (ok row, cache) else elim l.set [
        | some e ↦ (ok row, cache)
        | none ↦
            (ok row, put_entry key (record { value = encode_key row; until = l.now + 300 }) cache)
      ]
    ]

unfoldable pub resolve_api_key :
    (digest : String → String)
    → (redis repo : Bool) → Lookup
    → (plaintext : String) → Cache
    → Result ApiKeyRow × Cache
resolve_api_key digest redis repo l plaintext cache =
    elim (if redis then cached_key l (digest plaintext) cache else none) [
      | some row ↦ (ok row, cache)
      | none ↦ look_up redis repo l (digest plaintext) cache
    ]
