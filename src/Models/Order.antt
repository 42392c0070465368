-- ===== src/Models/Order.antt =====
-- src/db/models/order.py and the columns of src/db/models/types.py that the orders use.
use saga_orchestrator_patter.Base.{
  ℕ, String, Bool, ◌&&◌, ◌≡◌, ◌≢◌, arith, Option, if◌then◌else◌, ◌==◌,
}
use saga_orchestrator_patter.Models.Enums.{
  SagaStepStatus, OrderGlobalStatus, PaymentWay, same_step, same_status, same_step→eq,
  same_status→eq,
}

pub record OrderShippingDetail : Type 0 where
  pub guest_email : String
  pub guest_phone : String
  pub region : String
  pub city : String
  pub delivery_service : String
  pub postal_address : String

pub record Order : Type 0 where
  pub id : ℕ
  pub buyer_id : Option ℕ
  pub good_id : ℕ
  pub idempotency_key : String
  pub billing_status : SagaStepStatus
  pub inventory_status : SagaStepStatus
  pub logistics_status : SagaStepStatus
  pub global_status : OrderGlobalStatus
  pub payment_type : PaymentWay
  pub quantity : ℕ
  pub created_at : ℕ
  pub updated_at : ℕ
  pub shipping_detail : Option OrderShippingDetail

-- No column that the program assigns to differs: the flush has nothing to update.
abbrev pub is_unchanged : Order → Order → Bool
is_unchanged old new =
    same_step old.billing_status new.billing_status
    && same_step old.inventory_status new.inventory_status
    && same_step old.logistics_status new.logistics_status
    && same_status old.global_status new.global_status
    && (old.updated_at == new.updated_at)

-- What a flush at time `now` writes for a row loaded as `old` and changed to `new`: the column
-- `updated_at` is declared with `onupdate=func.now()`, which applies to an UPDATE that does not
-- assign the column itself.
unfoldable pub flush : ℕ → Order → Order → Order
flush now old new =
    if is_unchanged old new
    then old
    else if old.updated_at == new.updated_at
    then record new { updated_at = now }
    else new

module _ (now : ℕ) (old new : Order) where
  pub flush-billing : (flush now old new).billing_status ≡ new.billing_status
  unfolding flush
  flush-billing = ground (arith, same_step→eq old.billing_status new.billing_status)

  pub flush-inventory : (flush now old new).inventory_status ≡ new.inventory_status
  unfolding flush
  flush-inventory = ground (arith, same_step→eq old.inventory_status new.inventory_status)

  pub flush-logistics : (flush now old new).logistics_status ≡ new.logistics_status
  unfolding flush
  flush-logistics = ground (arith, same_step→eq old.logistics_status new.logistics_status)

  pub flush-global : (flush now old new).global_status ≡ new.global_status
  unfolding flush
  flush-global = ground (arith, same_status→eq old.global_status new.global_status)

  -- A change of the key is no update: the code never makes one.
  pub flush-id : old.id ≡ new.id → (flush now old new).id ≡ new.id
  unfolding flush
  flush-id same = ground arith

  -- An UPDATE that assigns the column itself keeps the assigned time.
  pub flush-updated_at :
      old.updated_at ≢ new.updated_at → (flush now old new).updated_at ≡ new.updated_at
  unfolding flush
  flush-updated_at differ = ground arith

-- The four status columns.
abbrev pub statuses : Order → SagaStepStatus × SagaStepStatus × SagaStepStatus × OrderGlobalStatus
statuses o = (o.billing_status, o.inventory_status, o.logistics_status, o.global_status)
