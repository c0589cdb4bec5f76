-- ===== src/Api/Legacy/Tenants.antt =====
-- Which tenant sees a bot of either version: both versions' handlers insert into the table bots, as
-- Insert of bot_repo.go and InsertV2 of bot_repo_v2.go in internal/infra/storage/postgres do.
use meeting_baa_s.Base.{
  ◌≡◌, refl, String, Bool, true, false, not, ◌||◌, none, List, [], ◌∷◌, ◌++◌, Result, ok, err,
  Failure, All, arith, str_eq, str_eq_refl, Bool-cases, Result-cases, inl, inr, ◌⊎◌,
}
use meeting_baa_s.Api.{answer}
use meeting_baa_s.Api.Bots.{BotV2Row, Library, Deps, Store}
use meeting_baa_s.Api.Bots.Handler.{handle_create}
use meeting_baa_s.Api.Bots.Commands.{find_row, handle_get_bot}
use meeting_baa_s.Api.Bots.Tenants.{Creation, IsOwned, handle_create-All, find_row-All, get-found}
use meeting_baa_s.Api.Legacy.{V1CreateRequest, BotRow, v1_row, v1_insert, handle_v1_create_bot}
use meeting_baa_s.Api.Access.{Bytes}
use meeting_baa_s.Api.Legacy

-- What GetV2 reads of a row of the first version: the columns that Insert leaves out have the
-- defaults of the table, or are null.
unfoldable pub read_v2 : BotRow → BotV2Row
read_v2 row = record {
  tenant_id = "";
  api_key_id = "";
  user_id = row.user_id;
  meeting_url = row.meeting_url;
  meeting_prov = row.meeting_prov;
  bot_name = row.bot_name;
  bot_image_url = "";
  entry_message = "";
  recording_mode = row.recording_mode;
  allow_multiple_bots = true;
  extra = "{}";
  idempotency_key = "";
  deduplication_hash = "";
  transcription_enabled = false;
  transcription_provider = "";
  streaming_enabled = false;
  streaming_input_url = "";
  streaming_output_url = "";
  streaming_audio_frequency = 0;
  join_at = none;
  callback_url = "";
  status = row.status;
  webhook_url = row.webhook_url;
}

-- One POST of /v1/bots: what is set, the answers of the insertion and of XADD, and the body.
pub record V1Creation : Type 0 where
  pub bots : Bool
  pub producer : Bool
  pub inserted : Result String
  pub enqueued : Result String
  pub body : Result V1CreateRequest

-- A request for a bot, of either version.
pub data Arrival : Type 0 where
  v1_bot : V1Creation → Arrival
  v2_bot : Creation → Arrival

abbrev read_rows : List (String × BotRow) → List (String × BotV2Row)
read_rows [] = []
read_rows ((id, row) ∷ rows) = (id, read_v2 row) ∷ read_rows rows

-- The rows that the first version's handler inserts, and its jobs.
abbrev made_v1 : (bytes : String → Bytes) → V1Creation → Store → Legacy.Store
made_v1 bytes c st =
    (handle_v1_create_bot bytes c.bots c.producer c.inserted c.enqueued c.body
      (record { rows = []; jobs = st.jobs })).1

unfoldable pub arrive_at :
    (lib : Library) → (bytes : String → Bytes) → (deps : Deps) → Arrival → Store → Store
arrive_at lib bytes deps (v1_bot c) st =
    let made = made_v1 bytes c st in
    record st { rows = read_rows made.rows ++ st.rows; jobs = made.jobs }
arrive_at lib bytes deps (v2_bot c) st =
    (handle_create lib deps c.out c.caller c.scheduled c.body st).1

unfoldable pub arrive_all :
    (lib : Library) → (bytes : String → Bytes) → (deps : Deps) → List Arrival → Store → Store
arrive_all lib bytes deps [] st = st
arrive_all lib bytes deps (a ∷ more) st =
    arrive_all lib bytes deps more (arrive_at lib bytes deps a st)

module _ (lib : Library) (bytes : String → Bytes) (deps : Deps) where
  -- A row that a request of the first version made, without a tenant.
  abbrev pub IsUntold : BotV2Row → Type 0
  IsUntold row = (req : V1CreateRequest) × (row ≡ read_v2 (v1_row bytes req))

  abbrev IsKnown : String × BotV2Row → Type 0
  IsKnown p = IsOwned p ⊎ IsUntold p.1

  v1_insert-IsKnown :
      (inserted enqueued : Result String) (req : V1CreateRequest) (st : Legacy.Store)
      → All IsKnown (read_rows st.rows)
      → All IsKnown (read_rows (v1_insert bytes inserted enqueued req st).1.rows)
  unfolding v1_insert
  v1_insert-IsKnown (err e) enqueued req st a = a
  v1_insert-IsKnown (ok id) (err e) req st a = (inr (req, refl), a)
  v1_insert-IsKnown (ok id) (ok sid) req st a = (inr (req, refl), a)

  handle_v1-IsKnown :
      (c : V1Creation) (st : Store) → All IsKnown (read_rows (made_v1 bytes c st).rows)
  unfolding handle_v1_create_bot
  handle_v1-IsKnown c st = elim (Bool-cases (not c.bots || not c.producer)) [
    | inl e ↦ rw (e, All) tt
    | inr e ↦ elim (Result-cases c.body) [
      | inr (m, f) ↦ rw (e, f, All) tt
      | inl (req, f) ↦ elim (Bool-cases (str_eq req.meeting_url "" || str_eq req.bot_name "")) [
        | inl g ↦ rw (e, f, g, All) tt
        | inr g ↦
            rw (e, f, g, All)
              (v1_insert-IsKnown c.inserted c.enqueued req (record { rows = []; jobs = st.jobs })
                tt)
      ]
    ]
  ]

  All-append :
      (xs ys : List (String × BotV2Row)) → All IsKnown xs → All IsKnown ys → All IsKnown (xs ++ ys)
  All-append [] ys a b = b
  All-append (x ∷ xs) ys (a, rest) b = (a, All-append xs ys rest b)

  arrive_at-IsKnown :
      (a : Arrival) (st : Store)
      → All IsKnown st.rows
      → All IsKnown (arrive_at lib bytes deps a st).rows
  unfolding arrive_at
  arrive_at-IsKnown (v1_bot c) st k = All-append _ st.rows (handle_v1-IsKnown c st) k
  arrive_at-IsKnown (v2_bot c) st k =
      handle_create-All IsKnown (λ p o. inl o) lib deps c.out c.caller c.scheduled c.body st k

  arrive_all-IsKnown :
      (arrivals : List Arrival) (st : Store)
      → All IsKnown st.rows
      → All IsKnown (arrive_all lib bytes deps arrivals st).rows
  unfolding arrive_all
  arrive_all-IsKnown [] st k = k
  arrive_all-IsKnown (a ∷ more) st k =
      arrive_all-IsKnown more (arrive_at lib bytes deps a st) (arrive_at-IsKnown a st k)

  -- After any requests of both versions for bots on empty tables, GET of a bot answers 200 only with a
  -- row of the caller's own tenant or with one that a request of the first version made.
  pub get_after_arrivals :
      (arrivals : List Arrival) (st : Store) (failed : Failure) (tenant id : String)
      (row : BotV2Row)
      → st.rows ≡ []
      → handle_get_bot failed tenant id (arrive_all lib bytes deps arrivals st) ≡ answer 200 row
      → (row.tenant_id ≡ tenant) ⊎ IsUntold row
  get_after_arrivals arrivals st failed tenant id row empty h =
      let made = arrive_all lib bytes deps arrivals st in
      let (found, seen) = get-found failed tenant id made row h in
      let (key, known) =
        find_row-All IsKnown id made.rows row (arrive_all-IsKnown arrivals st (rw empty tt))
          found in
      elim known [
        | inr untold ↦ inr untold
        | inl owned ↦ elim seen [
          | inl nobody ↦ absurd (ground (arith, nobody, owned))
          | inr own ↦ inl own
        ]
      ]

  -- A request of the first version that names a URL and a bot and whose row is inserted makes a bot that
  -- GET gives to every tenant, whether or not its job reached the stream, while the query works.
  pub v1_bot_shared :
      (c : V1Creation) (req : V1CreateRequest) (id tenant : String) (st : Store)
      → c.bots ≡ true
      → c.producer ≡ true
      → c.body ≡ ok req
      → (str_eq req.meeting_url "" || str_eq req.bot_name "") ≡ false
      → c.inserted ≡ ok id
      → str_eq tenant "" ≡ false
      → handle_get_bot none tenant id (arrive_at lib bytes deps (v1_bot c) st)
        ≡ answer 200 (read_v2 (v1_row bytes req))
  unfolding arrive_at handle_v1_create_bot v1_insert handle_get_bot find_row read_v2
  v1_bot_shared c req id tenant st b p f g i t =
      let same = str_eq_refl id in
      elim (Result-cases c.enqueued) [
        | inl (sid, q) ↦ rw (b, p, f, g, i, q, t, same) refl
        | inr (m, q) ↦ rw (b, p, f, g, i, q, t, same) refl
      ]
