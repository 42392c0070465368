-- ===== src/Orders/Validation.antt =====
-- The constraints of src/schemas/order.py, which pydantic checks before an endpoint runs. A negative
-- quantity is refused as 0 is. The format of an email address is a parameter.
use Prim.Native.String.{count}
use saga_orchestrator_patter.Base.{ℕ, ◌≡◌, String, Bool, true, not, ◌&&◌, Option, arith, leb}
use saga_orchestrator_patter.Models.Order.{OrderShippingDetail}
use saga_orchestrator_patter.Orders.Columns.{fits_integer, fits_columns, has_nul, is_storable}
use saga_orchestrator_patter.Orders.Request.{OrderCreate, new_order}

-- `OrderShippingDetailsCreate`
is_valid_detail : (String → Bool) → OrderShippingDetail → Bool
is_valid_detail is_email s =
    is_email s.guest_email
    && leb (count s.guest_email) 255
    && leb (count s.guest_phone) 20
    && leb (count s.region) 100
    && leb (count s.city) 100
    && leb (count s.delivery_service) 50

-- `OrderCreate`: the key is the text of a UUID, which has hexadecimal digits and dashes only.
unfoldable pub is_valid : (String → Bool) → OrderCreate → Bool
unfolding is_valid_detail
is_valid is_email d =
    leb 1 d.quantity
    && (leb (count d.idempotency_key) 36
        && not (has_nul d.idempotency_key)
        && is_valid_detail is_email d.order_details)

-- The order made from data that the schema accepts fits the columns of its tables if and only if
-- its quantity is below 2 ^ 31 and no text of its shipping details has the code point 0.
pub new_order-fits :
    (is_email : String → Bool) (d : OrderCreate) (id now : ℕ) (buyer : Option ℕ)
    → is_valid is_email d ≡ true
    → fits_columns (new_order id now buyer d)
      ≡ fits_integer d.quantity && is_storable d.order_details
unfolding is_valid fits_columns new_order
new_order-fits is_email d id now buyer valid = ground arith
