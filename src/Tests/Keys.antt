-- ===== src/Tests/Keys.antt =====
-- A key of the API that is issued, used and revoked.
use meeting_baa_s.Base.{◌≡◌, refl, ℕ, String, true, none, List, [], ◌∷◌, ok, err, arith}
use meeting_baa_s.Api.Access.{Bytes, Lookup, resolve_api_key, cached_key}
use meeting_baa_s.Api.Access.Keys.{
  ApiKey, Issuing, KeyEvent, issued, revoked, resolved, Keys, lookup_at, happen, happen_all,
  no_entries, issue, new_key,
}
use meeting_baa_s.Api.Access.Caching.{IsPlain, resolve_api_key_stays}
use meeting_baa_s.Api.Access.Lasting.{issued_resolves}
use meeting_baa_s.Api.Access.Revoked.{revoked_refused}

abbrev ask : Issuing
ask = record {
  tenant_id = 1 ∷ [];
  created_by = "";
  name = "ci";
  scopes = [];
  rate_limit_per_min = 0;
  random = ok "0123456789abcdef";
  inserted = ok (7 ∷ []);
}

abbrev bytes : String → Bytes
bytes s = 48 ∷ []

abbrev token : String
token = "mb_0123456789abcdef"

abbrev until_100 : List (ℕ × KeyEvent)
until_100 = (10, issued ask) ∷ (90, resolved token none none none) ∷ []

-- The cache still answers at 120, and the digest stays taken.
abbrev behind : List (ℕ × KeyEvent)
behind = (120, resolved token none none none) ∷ (130, issued ask) ∷ []

abbrev at_first : Keys
at_first = record { rows = []; cache = no_entries }

abbrev late : Keys
late =
    happen_all (λ t. t) bytes ((100, revoked none (7 ∷ [])) ∷ behind)
      (happen_all (λ t. t) bytes until_100 at_first)

revoked_refused_example :
    (e : String) × ((resolve_api_key
        (λ t. t)
        true
        true
        (lookup_at (λ t. t) 400 token none none none late)
        token
        late.cache).0
      ≡ err e)
unfolding happen_all happen issue new_key
revoked_refused_example =
    revoked_refused (λ t. t) bytes until_100 behind [] 100 400 (7 ∷ []) token none none none
      (omega arith, (omega arith, tt)) refl ((λ m. refl), tt) (omega arith)

-- The key whose random bytes are those, with the id that the row got.
abbrev fresh : ApiKey
fresh = new_key (λ t. t) bytes ask "0123456789abcdef" (7 ∷ [])

-- Another key is revoked.
abbrev others : List (ℕ × KeyEvent)
others = (20, resolved token none none none) ∷ (30, revoked none (8 ∷ [])) ∷ (40, issued ask) ∷ []

fresh-IsPlain : IsPlain fresh.row
unfolding new_key
fresh-IsPlain = record { id = refl; tenant_id = refl; key_prefix = refl; rate = omega arith }

issued_resolves_example :
    (resolve_api_key
      (λ t. t)
      true
      true
      (lookup_at
        (λ t. t)
        500
        token
        none
        none
        none
        (happen_all
          (λ t. t)
          bytes
          others
          (record { rows = (issue (λ t. t) bytes ask []).1; cache = no_entries })))
      token
      (happen_all
        (λ t. t)
        bytes
        others
        (record { rows = (issue (λ t. t) bytes ask []).1; cache = no_entries })).cache).0
    ≡ ok fresh.row
unfolding issue new_key
issued_resolves_example =
    issued_resolves (λ t. t) bytes ask [] no_entries fresh token others 500 none none refl refl
      fresh-IsPlain (refl, (refl, (refl, tt)))

-- The row is kept by Redis, and PostgreSQL then knows it no longer.
abbrev kept : Lookup
kept = record { now = 1000; got = none; set = none; found = ok fresh.row }

abbrev forgotten : Lookup
forgotten = record kept { now = 1200; found = err "not found" }

resolve_api_key_stays_example :
    resolve_api_key
      (λ t. t)
      true
      true
      forgotten
      token
      (resolve_api_key (λ t. t) true true kept token no_entries).1
    ≡ (ok fresh.row, (resolve_api_key (λ t. t) true true kept token no_entries).1)
unfolding cached_key
resolve_api_key_stays_example =
    resolve_api_key_stays (λ t. t) kept forgotten token no_entries fresh.row fresh-IsPlain refl refl
      refl refl (omega arith)
