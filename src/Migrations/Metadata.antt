-- ===== src/Migrations/Metadata.antt =====
-- `Base.metadata`, the tables that the classes of src/db/models declare, with the column types of
-- src/db/models/types.py; and the names by which the columns store the values of
-- src/db/models/enums.py.
use saga_orchestrator_patter.Base.{
  ◌≡◌, refl, sym, ap, ◌∙◌, Bool-cases, inl, inr, String, Bool, true, false, Option, none, some,
  List, [], ◌∷◌, str_eq, if◌then◌else◌,
}
use saga_orchestrator_patter.Models.Enums.{
  SagaStepStatus, pending, failed, success, compensated, skipped, OrderGlobalStatus, processing,
  completed, compensating, manual_intervention_required, PaymentWay, prepayment, postpayment,
  UserPrivileges, user, admin,
}
use saga_orchestrator_patter.Migrations.{
  big_integer, integer, numeric_10_2, uuid, text, string, boolean, varchar, timestamp_tz, enum,
  Table, EnumType, contains,
}
use saga_orchestrator_patter.Migrations.Versions.{
  column, nullable_column, stamp_column, new_table, key_to,
}

abbrev pub user_model : Table
user_model =
    new_table "users"
      (column "id" big_integer
        ∷ column "username" (varchar 20)
        ∷ nullable_column "email" (varchar 255)
        ∷ column "password_hash" (varchar 255)
        ∷ nullable_column "slack_account" string
        ∷ column "role" (enum "userprivileges")
        ∷ stamp_column "created_at"
        ∷ [])
      "id" ("username" ∷ "email" ∷ "slack_account" ∷ []) []

abbrev pub good_model : Table
good_model =
    new_table "goods"
      (column "id" big_integer ∷ column "name" (varchar 250) ∷ column "price" numeric_10_2 ∷ [])
      "id" [] []

abbrev pub order_model : Table
order_model =
    new_table "orders"
      (column "id" uuid
        ∷ nullable_column "buyer_id" big_integer
        ∷ column "good_id" big_integer
        ∷ column "idempotency_key" (varchar 255)
        ∷ column "billing_status" (enum "sagastepstatus")
        ∷ column "inventory_status" (enum "sagastepstatus")
        ∷ column "logistics_status" (enum "sagastepstatus")
        ∷ column "global_status" (enum "orderglobalstatus")
        ∷ column "payment_type" (enum "paymentway")
        ∷ column "quantity" integer
        ∷ stamp_column "created_at"
        ∷ stamp_column "updated_at"
        ∷ [])
      "id" ("idempotency_key" ∷ []) (key_to "buyer_id" "users" ∷ key_to "good_id" "goods" ∷ [])

abbrev pub order_shipping_detail_model : Table
order_shipping_detail_model =
    new_table "order_shipping_details"
      (column "order_id" uuid
        ∷ column "guest_email" (varchar 255)
        ∷ column "guest_phone" (varchar 20)
        ∷ column "region" (varchar 100)
        ∷ column "city" (varchar 100)
        ∷ column "delivery_service" (varchar 50)
        ∷ column "postal_address" text
        ∷ [])
      "order_id" [] (key_to "order_id" "orders" ∷ [])

abbrev pub refresh_token_model : Table
refresh_token_model =
    new_table "refresh_tokens"
      (column "id" integer
        ∷ column "user_id" big_integer
        ∷ column "jti" (varchar 64)
        ∷ column "expires_at" timestamp_tz
        ∷ stamp_column "created_at"
        ∷ column "is_revoked" boolean
        ∷ [])
      "id" ("jti" ∷ []) (key_to "user_id" "users" ∷ [])

abbrev pub metadata : List Table
metadata =
    order_shipping_detail_model ∷ refresh_token_model ∷ order_model ∷ user_model ∷ good_model ∷ []

abbrev pub step_label : SagaStepStatus → String
step_label pending = "PENDING"
step_label failed = "FAILED"
step_label success = "SUCCESS"
step_label SagaStepStatus.cancelled = "CANCELLED"
step_label compensated = "COMPENSATED"
step_label skipped = "SKIPPED"

abbrev pub global_label : OrderGlobalStatus → String
global_label processing = "PROCESSING"
global_label completed = "COMPLETED"
global_label OrderGlobalStatus.cancelled = "CANCELLED"
global_label compensating = "COMPENSATING"
global_label manual_intervention_required = "MANUAL_INTERVENTION_REQUIRED"

abbrev pub payment_label : PaymentWay → String
payment_label prepayment = "PREPAYMENT"
payment_label postpayment = "POSTPAYMENT"

abbrev pub role_label : UserPrivileges → String
role_label user = "USER"
role_label admin = "ADMIN"

-- The two tables by that name are alike in all that is declared, their unique columns in any order.
pub record SameTable (a b : Table) : Type 0 where
  pub name : a.name ≡ b.name
  pub columns : a.columns ≡ b.columns
  pub primary_key : a.primary_key ≡ b.primary_key
  pub unique : (c : String) → contains c a.unique ≡ contains c b.unique
  pub foreign_keys : a.foreign_keys ≡ b.foreign_keys

abbrev pub get_table : String → List Table → Option Table
get_table name [] = none
get_table name (t ∷ ts) = if str_eq t.name name then some t else get_table name ts

abbrev pub accepts : String → String → List EnumType → Bool
accepts type label [] = false
accepts type label (e ∷ es) =
    if str_eq e.name type then contains label e.labels else accepts type label es

-- What is found by a name: the table of the model by that name, and else what there was before.
abbrev pub Matches : Option Table → Option Table → Option Table → Type 0
Matches none found old = found ≡ old
Matches (some m) found old = (t : Table) × (found ≡ some t) × SameTable m t

pub Matches-cons :
    (name : String) (m t : Table) (ms ts : List Table) (old : Option Table)
    → SameTable m t
    → Matches (get_table name ms) (get_table name ts) old
    → Matches (get_table name (m ∷ ms)) (get_table name (t ∷ ts)) old
Matches-cons name m t ms ts old same rest = elim (Bool-cases (str_eq m.name name)) [
  | inl here ↦
      let here' : str_eq t.name name ≡ true = ap (λ n. str_eq n name) (sym same.name) ∙ here in
      rw (here, here') (t, refl, same)
  | inr other ↦
      let other' : str_eq t.name name ≡ false = ap (λ n. str_eq n name) (sym same.name) ∙ other in
      rw (other, other') rest
]

pub SameTable-refl : (t : Table) → SameTable t t
SameTable-refl t = record {
  name = refl;
  columns = refl;
  primary_key = refl;
  unique = λ c. refl;
  foreign_keys = refl;
}
