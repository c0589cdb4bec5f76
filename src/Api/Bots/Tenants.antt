-- ===== src/Api/Bots/Tenants.antt =====
-- Which tenant sees a bot.
use meeting_baa_s.Base.{
  ◌≡◌, String, Bool, false, some, List, [], ◌∷◌, Result, Failure, All, arith, str_eq, str_eq-eq,
  Bool-cases, Option-cases, Result-cases, inl, inr, ◌∙◌, ◌⊎◌, true, ap, subst,
}
use meeting_baa_s.Api.{answer}
use meeting_baa_s.Api.Bots.{
  BotV2Row, CreateBotRequest, Library, Deps, Outside, Store, OutboxEvent, validate_create,
}
use meeting_baa_s.Api.Bots.Handler.{
  Caller, existing_bot, handle_create, create_valid, persisted, dispatch, enqueue, append_event,
  lock_dedup, new_row, stored_row,
}
use meeting_baa_s.Api.Bots.Commands.{find_row, handle_get_bot}

-- Requests for bots one behind the other: what each meets, its caller and its body.
pub record Creation : Type 0 where
  pub out : Outside
  pub caller : Caller
  pub scheduled : Bool
  pub body : Result CreateBotRequest

unfoldable pub create_all : Library → Deps → List Creation → Store → Store
create_all lib deps [] st = st
create_all lib deps (c ∷ cs) st =
    create_all lib deps cs (handle_create lib deps c.out c.caller c.scheduled c.body st).1

abbrev pub IsOwned : String × BotV2Row → Type 0
IsOwned (id, row) = str_eq row.tenant_id "" ≡ false

append_event-rows :
    (deps : Deps) (out : Outside) (ev : OutboxEvent) (st : Store)
    → (append_event deps out ev st).rows ≡ st.rows
unfolding append_event
append_event-rows deps out ev st = ground arith

lock_dedup-rows :
    (lib : Library) (deps : Deps) (out : Outside) (tenant id : String) (req : CreateBotRequest)
    (st : Store)
    → (lock_dedup lib deps out tenant id req st).rows ≡ st.rows
unfolding lock_dedup
lock_dedup-rows lib deps out tenant id req st = ground arith

dispatch-rows :
    (deps : Deps) (out : Outside) (scheduled : Bool) (id : String) (req : CreateBotRequest)
    (st : Store)
    → (dispatch deps out scheduled id req st).1.rows ≡ st.rows
unfolding dispatch enqueue
dispatch-rows deps out scheduled id req st = ground arith

persisted-rows :
    (lib : Library) (deps : Deps) (out : Outside) (caller : Caller) (scheduled : Bool)
    (req : CreateBotRequest) (id : String) (st : Store)
    → (persisted lib deps out caller scheduled req id st).1.rows
      ≡ (id, stored_row (new_row lib out caller scheduled req)) ∷ st.rows
unfolding persisted
persisted-rows lib deps out caller scheduled req id st =
    lock_dedup-rows lib deps out caller.tenant_id id req _
    ∙ dispatch-rows deps out scheduled id req _
    ∙ append_event-rows deps out _ _

-- What holds of every row with a tenant, every request keeps.
pub handle_create-All {κ} :
    (P : String × BotV2Row → Type κ) (own : (p : String × BotV2Row) → IsOwned p → P p)
    (lib : Library) (deps : Deps) (out : Outside) (caller : Caller) (scheduled : Bool)
    (body : Result CreateBotRequest) (st : Store)
    → All P st.rows
    → All P (handle_create lib deps out caller scheduled body st).1.rows
unfolding handle_create create_valid new_row stored_row
handle_create-All P own lib deps out caller scheduled body st a =
    elim (Bool-cases (str_eq caller.tenant_id "")) [
      | inl e ↦ rw e a
      | inr e ↦ elim (Result-cases body) [
        | inr (m, f) ↦ rw (e, f) a
        | inl (req, f) ↦ elim (Option-cases (validate_create lib req scheduled)) [
          | inr (m, g) ↦ rw (e, f, g) a
          | inl g ↦ elim (Option-cases (existing_bot lib deps out caller req st)) [
            | inr (m, h) ↦ rw (e, f, g, create_valid, h) a
            | inl h ↦ elim (Bool-cases deps.bots) [
              | inr k ↦ rw (e, f, g, create_valid, h) (rw k a)
              | inl k ↦ elim (Result-cases out.inserted) [
                | inr (m, l) ↦ rw (e, f, g, create_valid, h) (rw (k, l) a)
                | inl (id, l) ↦
                    rw (e, f, g, create_valid, h)
                      (simp (k, l)
                        (rw (persisted-rows lib deps out caller scheduled req id st)
                          (own (id, stored_row (new_row lib out caller scheduled req)) e, a)))
              ]
            ]
          ]
        ]
      ]
    ]

create_all-IsOwned :
    (lib : Library) (deps : Deps) (cs : List Creation) (st : Store)
    → All IsOwned st.rows
    → All IsOwned (create_all lib deps cs st).rows
unfolding create_all
create_all-IsOwned lib deps [] st a = a
create_all-IsOwned lib deps (c ∷ cs) st a =
    create_all-IsOwned lib deps cs _
      (handle_create-All IsOwned (λ p o. o) lib deps c.out c.caller c.scheduled c.body st a)

pub find_row-All {κ} :
    (P : String × BotV2Row → Type κ) (id : String) (rows : List (String × BotV2Row))
    (row : BotV2Row)
    → All P rows
    → find_row id rows ≡ some row
    → (key : String) × P (key, row)
unfolding find_row
find_row-All P id [] row a h = cc
find_row-All P id ((key, r) ∷ rows) row a h = elim (Bool-cases (str_eq key id)) [
  | inl e ↦
      (let same : r ≡ row = ground (arith, rw e at h) in
        (key, subst (λ (x : BotV2Row). P (key, x)) same a.0))
  | inr e ↦ find_row-All P id rows row a.1 (rw e at h)
]

-- What GET gives is a row of the table, with no tenant or with the caller's.
pub get-found :
    (failed : Failure) (tenant id : String) (st : Store) (row : BotV2Row)
    → handle_get_bot failed tenant id st ≡ answer 200 row
    → (find_row id st.rows ≡ some row)
      × ((str_eq row.tenant_id "" ≡ true) ⊎ (row.tenant_id ≡ tenant))
unfolding handle_get_bot
get-found failed tenant id st row h = elim (Bool-cases (str_eq tenant "")) [
  | inl e ↦ absurd (ground (arith, rw e at h))
  | inr e ↦ elim (Option-cases failed) [
    | inr (m, f) ↦ absurd (ground (arith, rw (e, f) at h))
    | inl f ↦ elim (Option-cases (find_row id st.rows)) [
      | inl g ↦ absurd (ground (arith, rw (e, f, g) at h))
      | inr (r, g) ↦ elim (Bool-cases (str_eq r.tenant_id "")) [
        | inl n ↦
            (let same : r ≡ row = ground (arith, rw (e, f, g, n) at h) in
              (g ∙ ap (λ x. some x) same, inl (rw⁻¹ same n)))
        | inr n ↦ elim (Bool-cases (str_eq r.tenant_id tenant)) [
          | inr k ↦ absurd (ground (arith, rw (e, f, g, n, k) at h))
          | inl k ↦
              (let same : r ≡ row = ground (arith, rw (e, f, g, n, k) at h) in
                (g ∙ ap (λ x. some x) same, inr (rw⁻¹ same (str_eq-eq k))))
        ]
      ]
    ]
  ]
]

-- After any requests to the second version for bots on empty tables, GET of a bot answers 200 only
-- with a row of the caller's own tenant.
get_after_creations :
    (lib : Library) (deps : Deps) (cs : List Creation) (st : Store) (failed : Failure)
    (tenant id : String) (row : BotV2Row)
    → st.rows ≡ []
    → handle_get_bot failed tenant id (create_all lib deps cs st) ≡ answer 200 row
    → row.tenant_id ≡ tenant
get_after_creations lib deps cs st failed tenant id row empty h =
    let made = create_all lib deps cs st in
    let (found, seen) = get-found failed tenant id made row h in
    let owned =
      find_row-All IsOwned id made.rows row (create_all-IsOwned lib deps cs st (rw empty tt))
        found in
    elim seen [ inl untold ↦ absurd (ground (arith, untold, owned.1)) | inr own ↦ own ]
