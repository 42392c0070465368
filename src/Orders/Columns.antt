-- ===== src/Orders/Columns.antt =====
-- The widths of the columns of `orders` and `order_shipping_details` (src/db/models): PostgreSQL
-- refuses a longer text, a text with the code point 0 and a larger number.
use Prim.Native.String.{count}
use saga_orchestrator_patter.Base.{
  ℕ, String, Bool, true, not, any, codes, ◌==◌, ◌&&◌, Option, none, some, ltb, leb,
}
use saga_orchestrator_patter.Models.Order.{Order, OrderShippingDetail}

-- `Integer` has 32 bits, and `BigInteger` 64.
abbrev pub fits_integer : ℕ → Bool
fits_integer n = ltb n 2147483648

abbrev pub fits_bigint : ℕ → Bool
fits_bigint n = ltb n 9223372036854775808

-- A text with the code point 0, which JSON can write and PostgreSQL does not store.
unfoldable pub has_nul : String → Bool
has_nul text = any (λ c. c == 0) (codes text)

abbrev pub is_storable : OrderShippingDetail → Bool
is_storable s =
    not (has_nul s.guest_email)
    && not (has_nul s.guest_phone)
    && not (has_nul s.region)
    && not (has_nul s.city)
    && not (has_nul s.delivery_service)
    && not (has_nul s.postal_address)

fits_detail : Option OrderShippingDetail → Bool
fits_detail none = true
fits_detail (some s) =
    leb (count s.guest_email) 255
    && leb (count s.guest_phone) 20
    && leb (count s.region) 100
    && leb (count s.city) 100
    && leb (count s.delivery_service) 50
    && is_storable s

unfoldable pub fits_columns : Order → Bool
unfolding fits_detail
fits_columns o =
    leb (count o.idempotency_key) 255
    && not (has_nul o.idempotency_key)
    && fits_integer o.quantity
    && fits_detail o.shipping_detail
