-- ===== src/Tests/Serving.antt =====
-- Requests to the endpoints, and requests at the same time.
use meeting_baa_s.Base.{
  ◌≡◌, refl, ◌≤◌, ◌-◌, ◌+◌, ℕ, suc, ◌==◌, String, true, none, List, [], ◌∷◌, ok, map, arith,
}
use meeting_baa_s.Api.Access.{
  ApiKeyRow, Bytes, decode_key, split_n, cut, parse_digits, cached_key, look_up, resolve_api_key,
  encode_key, join, format_int32, format_digits,
}
use meeting_baa_s.Api.Access.Auth.{Library, auth, extract_token}
use meeting_baa_s.Api.Access.Limits.{rate_limit, count_up, uncounted}
use meeting_baa_s.Api.Server.{
  V2Request, create_bot, Server, Outcome, answered, serve, reach, respond, claim,
}
use meeting_baa_s.Api.Server.Serving.{IsServed, serve-IsServed}
use meeting_baa_s.Api.Server.Rates.{runs, runs_bound, hits, caller}
use meeting_baa_s.Api.Server.Panics.{panic_sticks}
use meeting_baa_s.Idempotency.{
  Request, Outside, refused, header, bytes, idempotency, after_begin, begin_request,
}
use meeting_baa_s.Idempotency.Concurrent.{new_client, run_schedule, holders}
use meeting_baa_s.Idempotency.Interleaved.{holders_bound}
use meeting_baa_s.Tests.Requests.{api_key, lookup, no_cache}
use meeting_baa_s.Tests.Services.{create, empty, sha256_of, jsonb_of, writes}

abbrev requests : List (Outside × Request)
requests = (writes "[]", create) ∷ (writes "[1]", create) ∷ []

-- Both insert, the second one finds the key, and the first ends.
holders_bound_example :
    holders (run_schedule sha256_of jsonb_of (0 ∷ 1 ∷ 1 ∷ 0 ∷ []) (map new_client requests) empty).0
    ≤ 1
holders_bound_example =
    holders_bound sha256_of jsonb_of "t1" "k1" requests (0 ∷ 1 ∷ 1 ∷ 0 ∷ []) empty
      ((refl, refl, ("{}", (refl, refl))), ((refl, refl, ("{}", (refl, refl))), tt))

abbrev go : Library
go = record { trim_space = λ s. s; to_lower = λ s. s; digest = λ s. s }

abbrev text_of : Bytes → String
text_of [] = ""
text_of (c ∷ s) = "id"

-- The handler counts its runs and panics at the first.
abbrev handler : V2Request → ApiKeyRow → ℕ → Outcome × ℕ
handler q row n = (record { writes = header 201 ∷ bytes "{}" ∷ []; panicked = n == 0 }, suc n)

abbrev post : V2Request
post = record {
  endpoint = create_bot;
  headers = record { authorization = ""; api_key = "secret" };
  idempotency_key = "k1";
  body = ok "{}";
  now = 125;
  lookup = lookup;
  incr = none;
  insert = none;
  select = none;
  update = none;
}

abbrev server : Server ℕ
server = record { cache = no_cache; counters = λ key w. 0; table = empty; data_of = 0 }

serve-IsServed_example :
    IsServed go text_of sha256_of jsonb_of handler true true post server
      (serve go text_of sha256_of jsonb_of handler true true post server)
serve-IsServed_example = serve-IsServed go text_of sha256_of jsonb_of handler true true post server

runs_bound_example :
    runs go text_of sha256_of jsonb_of handler true "id" 2 (post ∷ post ∷ []) server
    ≤ (60 - 0)
      + uncounted "id" 2 (hits go text_of sha256_of jsonb_of handler true (post ∷ post ∷ []) server)
unfolding hits caller auth extract_token resolve_api_key cached_key look_up encode_key join
    format_int32 format_digits serve rate_limit count_up reach respond claim idempotency after_begin
    begin_request decode_key split_n cut parse_digits
runs_bound_example =
    runs_bound go text_of sha256_of jsonb_of handler true "id" 2 60 (post ∷ post ∷ []) server refl
      (omega arith) (omega arith) ((λ e. refl), ((λ e. refl), tt))

abbrev left : Server ℕ
left = (reach go text_of sha256_of jsonb_of handler true true post api_key server).1

panic_sticks_example :
    reach go text_of sha256_of jsonb_of handler true true post api_key left
    ≡ (answered (refused 409 "CONFLICT"), left)
panic_sticks_example =
    panic_sticks go text_of sha256_of jsonb_of handler true post post api_key api_key "{}" server
      left (refl, (refl, refl)) refl refl refl refl refl refl refl refl
