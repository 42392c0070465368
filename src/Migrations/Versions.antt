-- ===== src/Migrations/Versions.antt =====
-- src/db/migrations/versions: the five revisions, with their operations up and down.
use saga_orchestrator_patter.Base.{String, true, false, Option, none, some, List, [], ◌∷◌}
use saga_orchestrator_patter.Migrations.{
  ColumnType, big_integer, integer, numeric_10_2, uuid, text, string, boolean, varchar, timestamp,
  timestamp_tz, enum, Column, ForeignKey, Table, EnumType, Op, create_table, drop_table, add_column,
  drop_column, set_nullable, add_value,
}

abbrev pub column : String → ColumnType → Column
column name type = record { name = name; type = type; nullable = false; has_default = false }

abbrev pub nullable_column : String → ColumnType → Column
nullable_column name type = record (column name type) { nullable = true }

-- `server_default=sa.text('now()')`
abbrev pub stamp_column : String → Column
stamp_column name = record (column name timestamp) { has_default = true }

abbrev pub new_table : String → List Column → String → List String → List ForeignKey → Table
new_table name columns primary_key unique foreign_keys = record {
  name = name;
  columns = columns;
  primary_key = primary_key;
  unique = unique;
  foreign_keys = foreign_keys;
  is_empty = true;
  nulls = [];
}

abbrev pub key_to : String → String → ForeignKey
key_to column table = record { column = column; table = table }

abbrev pub goods_table : Table
goods_table =
    new_table "goods"
      (column "id" big_integer ∷ column "name" (varchar 250) ∷ column "price" numeric_10_2 ∷ [])
      "id" [] []

abbrev pub userprivileges : EnumType
userprivileges = record { name = "userprivileges"; labels = "USER" ∷ "ADMIN" ∷ [] }

abbrev pub users_table : Table
users_table =
    new_table "users"
      (column "id" big_integer
        ∷ column "username" (varchar 20)
        ∷ nullable_column "email" (varchar 255)
        ∷ column "password_hash" (varchar 255)
        ∷ nullable_column "slack_account" string
        ∷ column "role" (enum "userprivileges")
        ∷ stamp_column "created_at"
        ∷ [])
      "id" ("email" ∷ "slack_account" ∷ "username" ∷ []) []

abbrev pub order_types : List EnumType
order_types =
    record {
      name = "sagastepstatus";
      labels =
          "PENDING" ∷ "FAILED" ∷ "SUCCESS" ∷ "CANCELLED" ∷ "COMPENSATING" ∷ "COMPENSATED"
          ∷ "SKIPPED" ∷ [];
    }
    ∷ record { name = "orderglobalstatus"; labels = "PROCESSING" ∷ "COMPLETED" ∷ "CANCELLED" ∷ [] }
    ∷ record { name = "paymentway"; labels = "PREPAYMENT" ∷ "POSTPAYMENT" ∷ [] }
    ∷ []

abbrev pub orders_table : Table
orders_table =
    new_table "orders"
      (column "id" uuid
        ∷ nullable_column "buyer_id" big_integer
        ∷ column "good_id" big_integer
        ∷ column "idempotency_key" (varchar 255)
        ∷ column "billing_status" (enum "sagastepstatus")
        ∷ column "inventory_status" (enum "sagastepstatus")
        ∷ column "logistics_status" (enum "sagastepstatus")
        ∷ column "global_status" (enum "orderglobalstatus")
        ∷ column "payment_type" (enum "paymentway")
        ∷ column "price" numeric_10_2
        ∷ column "quantity" integer
        ∷ stamp_column "created_at"
        ∷ stamp_column "updated_at"
        ∷ [])
      "id" ("idempotency_key" ∷ []) (key_to "buyer_id" "users" ∷ key_to "good_id" "goods" ∷ [])

abbrev pub refresh_tokens_table : Table
refresh_tokens_table =
    new_table "refresh_tokens"
      (column "id" integer
        ∷ column "user_id" big_integer
        ∷ column "jti" (varchar 64)
        ∷ column "expires_at" timestamp_tz
        ∷ stamp_column "created_at"
        ∷ column "is_revoked" boolean
        ∷ [])
      "id" ("jti" ∷ []) (key_to "user_id" "users" ∷ [])

abbrev pub order_shipping_details_table : Table
order_shipping_details_table =
    new_table "order_shipping_details"
      (column "order_id" uuid
        ∷ nullable_column "guest_email" (varchar 255)
        ∷ column "guest_phone" (varchar 20)
        ∷ column "region" (varchar 100)
        ∷ column "city" (varchar 100)
        ∷ column "delivery_service" (varchar 50)
        ∷ column "postal_address" text
        ∷ [])
      "order_id" [] (key_to "order_id" "orders" ∷ [])

abbrev pub saga_logs_table : Table
saga_logs_table =
    new_table "saga_logs"
      (column "id" uuid
        ∷ column "order_id" uuid
        ∷ column "action" (varchar 50)
        ∷ column "status" (varchar 20)
        ∷ nullable_column "error_details" text
        ∷ stamp_column "created_at"
        ∷ [])
      "id" [] (key_to "order_id" "orders" ∷ [])

-- By the revision id of each file.
pub data Revision : Type 0 where
  initial_migration change_email_to_neccessary delete_price_column : Revision
  add_enum_for_order_global_status remove_saga_log_table : Revision

abbrev pub down_revision : Revision → Option Revision
down_revision initial_migration = none
down_revision change_email_to_neccessary = some initial_migration
down_revision delete_price_column = some change_email_to_neccessary
down_revision add_enum_for_order_global_status = some delete_price_column
down_revision remove_saga_log_table = some add_enum_for_order_global_status

-- d5a5091fa9ae
abbrev pub create_tables : List Op
create_tables =
    create_table goods_table []
    ∷ create_table users_table (userprivileges ∷ [])
    ∷ create_table orders_table order_types
    ∷ create_table refresh_tokens_table []
    ∷ create_table order_shipping_details_table []
    ∷ create_table saga_logs_table []
    ∷ []

abbrev pub drop_tables : List Op
drop_tables =
    drop_table "saga_logs"
    ∷ drop_table "order_shipping_details"
    ∷ drop_table "refresh_tokens"
    ∷ drop_table "orders"
    ∷ drop_table "users"
    ∷ drop_table "goods"
    ∷ []

-- a0135918af04
abbrev pub require_email : List Op
require_email = set_nullable "order_shipping_details" "guest_email" false ∷ []

abbrev pub allow_no_email : List Op
allow_no_email = set_nullable "order_shipping_details" "guest_email" true ∷ []

-- 070b554fc230
abbrev pub drop_price : List Op
drop_price = drop_column "orders" "price" ∷ []

abbrev pub add_price : List Op
add_price = add_column "orders" (column "price" numeric_10_2) ∷ []

-- b27cbb9450a4, which has no way back
abbrev pub add_global_statuses : List Op
add_global_statuses =
    add_value "orderglobalstatus" "COMPENSATING"
    ∷ add_value "orderglobalstatus" "MANUAL_INTERVENTION_REQUIRED"
    ∷ []

abbrev pub keep_global_statuses : List Op
keep_global_statuses = []

-- c940bd637eda
abbrev pub drop_saga_logs : List Op
drop_saga_logs = drop_table "saga_logs" ∷ []

abbrev pub create_saga_logs : List Op
create_saga_logs = create_table saga_logs_table [] ∷ []

unfoldable pub upgrade : Revision → List Op
upgrade initial_migration = create_tables
upgrade change_email_to_neccessary = require_email
upgrade delete_price_column = drop_price
upgrade add_enum_for_order_global_status = add_global_statuses
upgrade remove_saga_log_table = drop_saga_logs

unfoldable pub downgrade : Revision → List Op
downgrade initial_migration = drop_tables
downgrade change_email_to_neccessary = allow_no_email
downgrade delete_price_column = add_price
downgrade add_enum_for_order_global_status = keep_global_statuses
downgrade remove_saga_log_table = create_saga_logs
