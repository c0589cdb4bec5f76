-- ===== src/Api/Server/Wiring.antt =====
-- The construction of the API's process: NewAPIServer of internal/app/apiserver.go. The environment and
-- the two connections are outside.
use meeting_baa_s.Base.{
  ◌≡◌, refl, sym, ap, ◌∙◌, inl, inr, String, Bool, true, false, not, none, some, Result, ok, err,
  Failure, str_eq, if◌then◌else◌, if_true, if_false, Bool-cases, Option-cases, arith,
}
use Prim.Native.String

pub record ApiServerOptions : Type 0 where
  pub http_addr : String
  pub postgres_dsn : String
  pub redis_addr : String
  pub redis_password : String
  pub queue_stream : String

-- `getenv` is empty for a variable that is not set.
unfoldable pub env_or : (getenv : String → String) → (key default : String) → String
env_or getenv key default = let v = getenv key in if str_eq v "" then default else v

abbrev given_or : String → String → String
given_or default v = if str_eq v "" then default else v

unfoldable pub apply_api_server_env_defaults :
    (getenv : String → String) → ApiServerOptions → ApiServerOptions
apply_api_server_env_defaults getenv o = record {
  http_addr = given_or (env_or getenv "HTTP_ADDR" ":8080") o.http_addr;
  postgres_dsn = given_or (getenv "POSTGRES_DSN") o.postgres_dsn;
  redis_addr = given_or (env_or getenv "REDIS_ADDR" "localhost:6379") o.redis_addr;
  redis_password = given_or (getenv "REDIS_PASSWORD") o.redis_password;
  queue_stream = given_or (env_or getenv "QUEUE_STREAM" "bots:jobs") o.queue_stream;
}

-- The repositories are there with the pool, and the producer with the client of Redis.
pub record ApiServer : Type 0 where
  pub addr : String
  pub has_postgres : Bool
  pub has_redis : Bool
  pub stream : String

abbrev new_server : ApiServerOptions → (has_postgres has_redis : Bool) → ApiServer
new_server o has_postgres has_redis = record {
  addr = o.http_addr;
  has_postgres = has_postgres;
  has_redis = has_redis;
  stream = if has_redis then o.queue_stream else "";
}

abbrev connect_redis : (ping : Failure) → ApiServerOptions → Bool → Result ApiServer
connect_redis ping o has_postgres =
    if str_eq o.redis_addr "" then ok (new_server o has_postgres false) else elim ping [
      | some e ↦ err (String.◌++◌ "api-server: redis ping: " e)
      | none ↦ ok (new_server o has_postgres true)
    ]

abbrev connect_postgres : (pool ping : Failure) → ApiServerOptions → Result ApiServer
connect_postgres pool ping o =
    if str_eq o.postgres_dsn "" then connect_redis ping o false else elim pool [
      | some e ↦ err (String.◌++◌ "api-server: postgres: " e)
      | none ↦ connect_redis ping o true
    ]

-- `pool` and `ping` are the errors of the two connections, where they are made.
unfoldable pub new_api_server :
    (getenv : String → String) → (pool ping : Failure) → ApiServerOptions → Result ApiServer
new_api_server getenv pool ping o =
    connect_postgres pool ping (apply_api_server_env_defaults getenv o)

or_else : (default v : String) → str_eq default "" ≡ false → str_eq (given_or default v) "" ≡ false
or_else default v h = elim (Bool-cases (str_eq v "")) [ inl e ↦ rw e h | inr e ↦ rw e e ]

ok_inj {ℓ} : {A : Type ℓ} {a b : A} → ok a ≡ ok b → a ≡ b
ok_inj h = cc

-- A server that is made, where Redis has an address: it has Redis, which answered the ping.
abbrev IsConnected : (ping : Failure) → ApiServer → Type 0
IsConnected ping a = (a.has_redis ≡ true) × (ping ≡ none)

connect_redis-IsConnected :
    (ping : Failure) (o : ApiServerOptions) (p : Bool) (a : ApiServer)
    → str_eq o.redis_addr "" ≡ false
    → connect_redis ping o p ≡ ok a
    → IsConnected ping a × (a.has_postgres ≡ p)
connect_redis-IsConnected none o p a h e =
    let i = ok_inj (sym (if_false _ _ h) ∙ e) in
    ((sym (ap (λ b. b.has_redis) i), refl), sym (ap (λ b. b.has_postgres) i))
connect_redis-IsConnected (some m) o p a h e = absurd (let i = sym (if_false _ _ h) ∙ e in cc)

connect_postgres-IsConnected :
    (pool ping : Failure) (o : ApiServerOptions) (a : ApiServer)
    → str_eq o.redis_addr "" ≡ false
    → connect_postgres pool ping o ≡ ok a
    → IsConnected ping a
      × (a.has_postgres ≡ not (str_eq o.postgres_dsn ""))
      × (a.has_postgres ≡ true → pool ≡ none)
connect_postgres-IsConnected pool ping o a h e = elim (Bool-cases (str_eq o.postgres_dsn "")) [
  | inl d ↦
      let (c, p) = connect_redis-IsConnected ping o false a h (sym (if_true _ _ d) ∙ e) in
      rw d (c, p, λ t. absurd (ground arith))
  | inr d ↦ elim (Option-cases pool) [
    | inl n ↦
        let (c, p) =
          connect_redis-IsConnected ping o true a h (rw n at (sym (if_false _ _ d) ∙ e)) in
        rw d (c, p, λ t. n)
    | inr (m, n) ↦ absurd (let i = sym (if_false _ _ d) ∙ e in let j = rw n at i in cc)
  ]
]

env_or-given :
    (getenv : String → String) (key default : String)
    → str_eq default "" ≡ false
    → str_eq (env_or getenv key default) "" ≡ false
unfolding env_or
env_or-given getenv key default h = or_else default (getenv key) h

-- A server that is made has Redis, which answered the ping, whatever the options and the environment
-- say; it has PostgreSQL just where the options or the environment give a DSN, and then the pool
-- could be made.
pub new_api_server-IsConnected :
    (getenv : String → String) (pool ping : Failure) (o : ApiServerOptions) (a : ApiServer)
    → new_api_server getenv pool ping o ≡ ok a
    → IsConnected ping a
      × (a.has_postgres ≡ not (str_eq (apply_api_server_env_defaults getenv o).postgres_dsn ""))
      × (a.has_postgres ≡ true → pool ≡ none)
unfolding new_api_server apply_api_server_env_defaults
new_api_server-IsConnected getenv pool ping o a h =
    connect_postgres-IsConnected pool ping (apply_api_server_env_defaults getenv o) a
      (or_else (env_or getenv "REDIS_ADDR" "localhost:6379") o.redis_addr
        (env_or-given getenv "REDIS_ADDR" "localhost:6379" refl))
      h
