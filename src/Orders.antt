-- ===== src/Orders.antt =====
-- Creating orders: `OrderService.create_bulk` of src/services/order.py with the repository's
-- `create_bulk` of src/db/repositories/order.py below it.
pub mod Request
pub mod Columns
pub mod Validation
pub mod Endpoint
pub mod Saved
pub mod Idempotent
pub mod Answers
use saga_orchestrator_patter.Base.{
  ℕ, suc, String, Bool, true, false, not, ◌&&◌, ◌||◌, Option, none, some, List, [], ◌∷◌, any, keep,
  map, str_eq, if◌then◌else◌,
}
use saga_orchestrator_patter.Models.Order.{Order}
use saga_orchestrator_patter.Table.{OrderTable}
use saga_orchestrator_patter.World.Jobs.{billing_job}
use saga_orchestrator_patter.World.Effects.{Commit, committed, rolled_back, lost, World, enqueue}
use saga_orchestrator_patter.Orders.Columns.{fits_columns, fits_bigint}
use saga_orchestrator_patter.Orders.Request.{OrderCreate, new_order}

-- The replies of the outside world: the goods that the catalogue has, the
-- users that the table of users has, the ids that `uuid7` makes,
-- another transaction that takes one of the keys, and the calls to the broker.
pub record CreateEnv : Type 0 where
  pub good_exists : ℕ → Bool
  pub buyer_exists : ℕ → Bool
  pub uuid : ℕ → ℕ
  pub now : ℕ
  pub key_taken : Bool
  pub committed : Commit
  pub sent : ℕ → Bool

-- The service's result: the saved and the existing orders, or the HTTP error 404, or an exception.
pub data CreateResult : Type 0 where
  created : List Order → List Order → CreateResult
  goods_not_found : CreateResult
  raised : CreateResult

-- `str(o.idempotency_key) in keys` for the keys of a list of orders.
abbrev pub has_key : String → List Order → Bool
has_key k = any (λ o. str_eq o.idempotency_key k)

-- The UNIQUE constraint of the column refuses a batch with a key twice.
abbrev pub has_duplicate : List Order → Bool
has_duplicate [] = false
has_duplicate (o ∷ rest) = has_key o.idempotency_key rest || has_duplicate rest

abbrev pub new_orders : (ℕ → ℕ) → ℕ → ℕ → Option ℕ → List OrderCreate → List Order
new_orders uuid n now buyer [] = []
new_orders uuid n now buyer (d ∷ ds) =
    new_order (uuid n) now buyer d ∷ new_orders uuid (suc n) now buyer ds

-- `Order.idempotency_key.in_(keys)`
abbrev pub is_requested : List Order → Order → Bool
is_requested orders o = has_key o.idempotency_key orders

-- The requested orders whose key no existing order has.
abbrev pub unseen : List Order → List Order → List Order
unseen existing orders = keep (λ o. not (has_key o.idempotency_key existing)) orders

-- The foreign key of `orders.buyer_id`: an order without a buyer refers to no one.
abbrev pub has_buyer : (ℕ → Bool) → Option ℕ → Bool
has_buyer buyer_exists none = true
has_buyer buyer_exists (some user) = buyer_exists user

-- The flush of `session.add_all(new_orders)` violates the UNIQUE constraint or the foreign key, or
-- a value does not fit its column; with no new order there is no flush.
abbrev pub is_refused : (ℕ → Bool) → Bool → List Order → Bool
is_refused buyer_exists key_taken [] = false
is_refused buyer_exists key_taken (o ∷ rest) =
    has_duplicate (o ∷ rest)
    || key_taken
    || any (λ x. not (has_buyer buyer_exists x.buyer_id && fits_columns x)) (o ∷ rest)

-- The lookup of the goods: the driver refuses an id beyond 64 bits, and a good may be missing.
abbrev pub has_big_id : List OrderCreate → Bool
has_big_id = any (λ d. not (fits_bigint d.good_id))

abbrev pub misses_goods : (ℕ → Bool) → List OrderCreate → Bool
misses_goods good_exists = any (λ d. not (good_exists d.good_id))

module _ (T : OrderTable) where
  -- `session.add_all(new_orders)` and the flush
  unfoldable pub insert_all : List Order → T.Rows → T.Rows
  insert_all [] rows = rows
  insert_all (o ∷ rest) rows = insert_all rest (T.insert o rows)

module _ {T : OrderTable} where
  -- `asyncio.gather` of the billing jobs: all calls are made, and one that fails is raised
  unfoldable pub enqueue_billing : CreateEnv → List Order → World T → World T
  enqueue_billing env [] w = w
  enqueue_billing env (o ∷ rest) w =
      enqueue_billing env rest (enqueue (env.sent o.id) (billing_job o.id) w)

  enqueued : CreateEnv → List Order → List Order → World T → CreateResult × World T
  unfolding enqueue_billing
  enqueued env saved existing w = (
    (if any (λ o. not (env.sent o.id)) saved then raised else created saved existing),
    enqueue_billing env saved w,
  )

  save : CreateEnv → List Order → List Order → World T → CreateResult × World T
  unfolding enqueued insert_all
  save env saved existing w = elim env.committed [
    | Commit.committed ↦ enqueued env saved existing (record w { rows = insert_all T saved w.rows })
    | rolled_back ↦ (raised, w)
    | lost ↦ (raised, record w { rows = insert_all T saved w.rows })
  ]

  unfoldable pub create_orders : CreateEnv → List Order → World T → CreateResult × World T
  unfolding save
  create_orders env orders w =
      let existing = T.select (is_requested orders) w.rows in
      let saved = unseen existing orders in
      if is_refused env.buyer_exists env.key_taken saved
      then (raised, w)
      else save env saved existing w

  unfoldable pub create_bulk :
      CreateEnv → Option ℕ → List OrderCreate → World T → CreateResult × World T
  unfolding create_orders
  create_bulk env buyer ds w =
      if has_big_id ds
      then (raised, w)
      else if misses_goods env.good_exists ds
      then (goods_not_found, w)
      else create_orders env (new_orders env.uuid 0 env.now buyer ds) w
