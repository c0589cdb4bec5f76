-- ===== src/Api/Server/Rates.antt =====
-- How often the handlers run for a key in a minute.
use meeting_baa_s.Base.{
  ◌≡◌, refl, ap, ◌≤◌, ◌<◌, ◌⊎◌, inl, inr, ℕ, suc, ◌+◌, ◌-◌, ◌&&◌, String, Bool, true, false, Option,
  none, some, List, [], ◌∷◌, Result, str_eq, arith, if◌then◌else◌,
}
use meeting_baa_s.Api.Access.{ApiKeyRow, Bytes}
use meeting_baa_s.Api.Access.Auth.{Library, Passage, admitted, rejected, auth}
use meeting_baa_s.Api.Access.Limits.{
  Hit, concerns, has_passed, rate_limit, passes, passes_bound, uncounted, AreLimited,
}
use meeting_baa_s.Api.Server.{V2Request, Server, Outcome, Answer, hit_of, serve}
use meeting_baa_s.Api.Server.Serving.{is_run, turned_away, let_in, serve-IsServed}

-- One more run is one more that passed.
step-passes :
    (under run pass : Bool) (n m : ℕ)
    → (run ≡ true → pass ≡ true)
    → n ≤ m
    → (if under && run then suc n else n) ≤ (if under && pass then suc m else m)
step-passes false run pass n m h l = l
step-passes true false false n m h l = l
step-passes true false true n m h l = omega arith
step-passes true true pass n m h l = rw (h refl) (omega arith)

module _ {ℓ} {S : Type ℓ} (lib : Library) (text : Bytes → String) (sha256 : String → String)
    (jsonb : String → Result String) (handle : V2Request → ApiKeyRow → S → Outcome × S)
    (has_postgres : Bool) where
  abbrev serve_one : V2Request → Server S → Answer × Server S
  serve_one = serve lib text sha256 jsonb handle true has_postgres

  abbrev hit_for : V2Request → Passage → Option Hit
  hit_for q (rejected response) = none
  hit_for q (admitted row) = some (hit_of text q row)

  -- The key that a request is counted for, where it has one.
  unfoldable pub caller : V2Request → Server S → Option Hit
  caller q st = hit_for q (auth lib true has_postgres q.lookup q.headers st.cache).0

  abbrev is_under : String → ℕ → Option Hit → Bool
  is_under key w none = false
  is_under key w (some h) = concerns key w h

  abbrev counted : Option Hit → List Hit → List Hit
  counted none hs = hs
  counted (some h) hs = h ∷ hs

  -- The requests one after the other: how often a handler runs for the key in the minute, and what
  -- RateLimit sees of them.
  unfoldable pub runs : (key : String) → (minute : ℕ) → List V2Request → Server S → ℕ
  runs key w [] st = 0
  runs key w (q ∷ qs) st =
      let (answer, after) = serve_one q st in
      let rest = runs key w qs after in
      if is_under key w (caller q st) && is_run answer then suc rest else rest

  unfoldable pub hits : List V2Request → Server S → List Hit
  hits [] st = []
  hits (q ∷ qs) st = counted (caller q st) (hits qs (serve_one q st).1)

  Passage-caller :
      (q : V2Request) (st : Server S) (p : Passage)
      → (auth lib true has_postgres q.lookup q.headers st.cache).0 ≡ p
      → caller q st ≡ hit_for q p
  unfolding caller
  Passage-caller q st p e = ap (hit_for q) e

  run-passed {κ μ} :
      {A : Type κ} {B : Type μ} {run pass : Bool}
      → ((run ≡ true) × (pass ≡ true) × A) ⊎ ((run ≡ false) × B)
      → run ≡ true
      → pass ≡ true
  run-passed (inl (r, p, _)) h = p
  run-passed (inr (r, _)) h = absurd (ground arith)

  runs-passes :
      (key : String) (w : ℕ) (qs : List V2Request) (st : Server S)
      → runs key w qs st ≤ passes key w (hits qs st) st.counters
  unfolding runs hits passes
  runs-passes key w [] st = omega arith
  runs-passes key w (q ∷ qs) st =
      let rest = runs-passes key w qs (serve_one q st).1 in
      elim (serve-IsServed lib text sha256 jsonb handle true has_postgres q st) [
        | turned_away response e a d c t ↦
            rw (Passage-caller q st (rejected response) e) (rw c at rest)
        | let_in row e (d, c) ↦
            let rate = rate_limit true (hit_of text q row) st.counters in
            let (answer, after) = serve_one q st in
            rw (Passage-caller q st (admitted row) e) (
              step-passes (concerns key w (hit_of text q row)) (is_run answer) (has_passed rate.0)
                (runs key w qs after) (passes key w (hits qs after) rate.1) (run-passed d)
                (rw c at rest))
      ]

  -- Behind Redis, of any requests to the endpoints, one after the other, the handlers run for one key in
  -- one minute no more often than its limit less what was counted before, and once for each of its
  -- requests whose INCR fails, where the requests that Auth admits for it carry that limit, a
  -- positive int32, and its id is not empty.
  pub runs_bound :
      (key : String) (w limit : ℕ) (qs : List V2Request) (st : Server S)
      → str_eq key "" ≡ false
      → 1 ≤ limit
      → limit < 2147483648
      → AreLimited key w limit (hits qs st)
      → runs key w qs st ≤ (limit - st.counters key w) + uncounted key w (hits qs st)
  runs_bound key w limit qs st named least most c =
      let few = passes_bound key w limit (hits qs st) st.counters named least most c in
      let same = runs-passes key w qs st in omega arith
