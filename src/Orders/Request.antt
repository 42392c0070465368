-- ===== src/Orders/Request.antt =====
-- src/schemas/order.py: the request, and the order that the service makes from it.
use saga_orchestrator_patter.Base.{ℕ, String, Option, some}
use saga_orchestrator_patter.Models.Enums.{PaymentWay, pending, processing}
use saga_orchestrator_patter.Models.Order.{Order, OrderShippingDetail}

pub record OrderCreate : Type 0 where
  pub good_id : ℕ
  pub idempotency_key : String
  pub payment_type : PaymentWay
  pub quantity : ℕ
  pub order_details : OrderShippingDetail

-- The columns that the request does not give have the defaults of src/db/models.
unfoldable pub new_order : ℕ → ℕ → Option ℕ → OrderCreate → Order
new_order id now buyer d = record {
  id = id;
  buyer_id = buyer;
  good_id = d.good_id;
  idempotency_key = d.idempotency_key;
  billing_status = pending;
  inventory_status = pending;
  logistics_status = pending;
  global_status = processing;
  payment_type = d.payment_type;
  quantity = d.quantity;
  created_at = now;
  updated_at = now;
  shipping_detail = some d.order_details;
}
