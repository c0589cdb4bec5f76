-- ===== src/Api/Access/Caching.antt =====
-- The cache of API keys.
use meeting_baa_s.Base.{
  ◌≡◌, refl, ap, ◌∙◌, ◌<◌, ℕ, zero, suc, ◌+◌, ◌-◌, ◌*◌, ◌/◌, ◌%◌, ◌^◌, String, Bool, true, false,
  ◌||◌, none, some, [], ◌∷◌, ◌++◌, ok, arith, ltb, ◌==◌, str_eq_refl, Bool-cases, inl, inr,
}
use meeting_baa_s.Api.Access.{
  Bytes, parse_digits, parse_int32, format_digits, format_int32, ApiKeyRow, bar, join, cut, split_n,
  encode_key, decode_key, Entry, Cache, Lookup, cached_key, put_entry, look_up, resolve_api_key,
  four_parts, rate_of,
}

parse_digits-digit :
    (n : ℕ) (buf : Bytes)
    → n < 4294967296
    → parse_digits (n / 10) ((48 + n % 10) ∷ buf) ≡ parse_digits n buf
unfolding parse_digits
parse_digits-digit n buf w =
    let digit : (ltb (48 + n % 10) 48 || ltb 57 (48 + n % 10)) ≡ false = ground arith in
    let value : ((n / 10) * 10 + ((48 + n % 10) - 48)) % 4294967296 ≡ n = omega arith in
    rw (digit, value) refl

-- Every text of at most `room` digits is read back.
parse_digits-format_digits :
    (room n : ℕ) (buf : Bytes)
    → n < 10 ^ room
    → n < 4294967296
    → parse_digits 0 (format_digits room n buf) ≡ parse_digits n buf
unfolding format_digits
parse_digits-format_digits zero n buf h w =
    (let none_left : n ≡ 0 = omega arith in rw none_left refl)
parse_digits-format_digits (suc room) n buf h w = elim (Bool-cases (n == 0)) [
  | inl e ↦ (let none_left : n ≡ 0 = ground arith in rw none_left refl)
  | inr e ↦ rw e (
      parse_digits-format_digits room (n / 10) ((48 + n % 10) ∷ buf) (omega arith) (omega arith)
      ∙ parse_digits-digit n buf w)
]

parse_int32-format_int32 : (n : ℕ) → n < 2147483648 → parse_int32 (format_int32 n) ≡ some n
unfolding format_int32 parse_digits
parse_int32-format_int32 n h = elim (Bool-cases (n == 0)) [
  | inl e ↦ (let none_left : n ≡ 0 = ground arith in rw none_left refl)
  | inr e ↦
      let small : ltb 2147483647 n ≡ false = ground arith in
      rw (e, small) (parse_digits-format_digits 12 n [] (omega arith) (omega arith))
]

abbrev pub has_bar : Bytes → Bool
has_bar [] = false
has_bar (c ∷ s) = (c == bar) || has_bar s

cut-append : (p s : Bytes) → has_bar p ≡ false → cut (p ++ (bar ∷ s)) ≡ some (p, s)
unfolding cut
cut-append [] s h = refl
cut-append (c ∷ p) s h =
    let other : (c == bar) ≡ false = ground arith in rw (other, cut-append p s (ground arith)) refl

-- A key whose texts hold no "|" and whose limit is not negative.
pub record IsPlain (row : ApiKeyRow) : Type 0 where
  pub id : has_bar row.id ≡ false
  pub tenant_id : has_bar row.tenant_id ≡ false
  pub key_prefix : has_bar row.key_prefix ≡ false
  pub rate : row.rate_limit_per_min < 2147483648

split_n-append :
    (n : ℕ) (p s : Bytes)
    → has_bar p ≡ false
    → split_n (suc (suc n)) (p ++ (bar ∷ s)) ≡ p ∷ split_n (suc n) s
unfolding split_n
split_n-append n p s h = rw (cut-append p s h, split_n) refl

split_n-encode_key :
    (row : ApiKeyRow)
    → IsPlain row
    → split_n 4 (encode_key row)
      ≡ row.id ∷ row.tenant_id ∷ row.key_prefix ∷ format_int32 row.rate_limit_per_min ∷ []
unfolding encode_key join split_n
split_n-encode_key row i =
    split_n-append 2 row.id _ i.id
    ∙ ap (λ ps. row.id ∷ ps)
        (split_n-append 1 row.tenant_id _ i.tenant_id
          ∙ ap (λ ps. row.tenant_id ∷ ps) (split_n-append 0 row.key_prefix _ i.key_prefix))

decode_key-encode_key : (row : ApiKeyRow) → IsPlain row → decode_key (encode_key row) ≡ some row
unfolding decode_key
decode_key-encode_key row i =
    ap four_parts (split_n-encode_key row i)
    ∙ rw (parse_int32-format_int32 row.rate_limit_per_min i.rate, rate_of) refl

append-nonempty : (p s : Bytes) → (c : ℕ) × (rest : Bytes) × (p ++ (bar ∷ s) ≡ c ∷ rest)
append-nonempty [] s = (bar, s, refl)
append-nonempty (c ∷ p) s = (c, p ++ (bar ∷ s), refl)

encode_key-nonempty : (row : ApiKeyRow) → (c : ℕ) × (s : Bytes) × (encode_key row ≡ c ∷ s)
unfolding encode_key join
encode_key-nonempty row = append-nonempty row.id _

pub cached_key-found :
    (l : Lookup) (key : String) (cache : Cache) (e : Entry) (row : ApiKeyRow)
    → IsPlain row
    → l.got ≡ none
    → cache key ≡ some e
    → l.now < e.until
    → e.value ≡ encode_key row
    → cached_key l key cache ≡ some row
unfolding cached_key
cached_key-found l key cache e row i got held soon value =
    let live : ltb l.now e.until ≡ true = ground arith in
    let (c, s, filled) = encode_key-nonempty row in
    let found = rw filled at (decode_key-encode_key row i) in
    let whole : e.value ≡ c ∷ s = value ∙ filled in rw (got, held, cached_key, live, whole) found

resolve_api_key-kept :
    (digest : String → String) (l : Lookup) (token : String) (cache : Cache) (row : ApiKeyRow)
    → cached_key l (digest token) cache ≡ none
    → l.found ≡ ok row
    → l.set ≡ none
    → resolve_api_key digest true true l token cache ≡ (
      ok row,
      put_entry (digest token) (record { value = encode_key row; until = l.now + 300 }) cache,
    )
unfolding resolve_api_key look_up
resolve_api_key-kept digest l token cache row missed found set =
    rw (missed, resolve_api_key, look_up, found, set) refl

resolve_api_key-found :
    (digest : String → String) (l : Lookup) (token : String) (cache : Cache) (row : ApiKeyRow)
    → cached_key l (digest token) cache ≡ some row
    → resolve_api_key digest true true l token cache ≡ (ok row, cache)
unfolding resolve_api_key
resolve_api_key-found digest l token cache row h = rw (h, resolve_api_key) refl

-- A key that PostgreSQL resolved and Redis kept resolves, for 300 seconds, to the same four fields
-- with nothing changed, whatever PostgreSQL then says of it, revoked or expired; its texts hold no
-- bar and its limit is not negative.
pub resolve_api_key_stays :
    (digest : String → String) (l later : Lookup) (token : String) (cache : Cache) (row : ApiKeyRow)
    → IsPlain row
    → cached_key l (digest token) cache ≡ none
    → l.found ≡ ok row
    → l.set ≡ none
    → later.got ≡ none
    → later.now < l.now + 300
    → resolve_api_key digest true true later token
        (resolve_api_key digest true true l token cache).1
      ≡ (ok row, (resolve_api_key digest true true l token cache).1)
resolve_api_key_stays digest l later token cache row i missed found set got soon =
    let first = resolve_api_key-kept digest l token cache row missed found set in
    let entry : Entry = record { value = encode_key row; until = l.now + 300 } in
    let same = str_eq_refl (digest token) in
    let held : put_entry (digest token) entry cache (digest token) ≡ some entry = rw same refl in
    rw first (
      resolve_api_key-found digest later token (put_entry (digest token) entry cache) row (
        cached_key-found later (digest token) (put_entry (digest token) entry cache) entry row i got
          held soon refl))
