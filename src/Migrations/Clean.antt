-- ===== src/Migrations/Clean.antt =====
-- The schema that the versions of src/db/migrations/versions/ make, in their order.
use saga_orchestrator_patter.Base.{
  ◌≡◌, refl, String, false, not, ◌&&◌, some, List, [], ◌∷◌, ◌++◌, any, keep, arith, str_eq,
  Option-cases, inl, inr,
}
use saga_orchestrator_patter.Migrations.{
  Op, create_table, drop_table, set_nullable, drop_column, add_value, Table, EnumType, Schema,
  apply, apply_all, has_table, has_type, refers_to,
}
use saga_orchestrator_patter.Migrations.Versions.{
  initial_migration, goods_table, users_table, orders_table, refresh_tokens_table,
  order_shipping_details_table, saga_logs_table, userprivileges, order_types, upgrade,
}
use saga_orchestrator_patter.Migrations.Environment.{head, revisions_from, upgrade_ops}
use saga_orchestrator_patter.Migrations.Metadata.{
  order_model, order_shipping_detail_model, refresh_token_model,
}

-- None of the names that the versions make is taken, and no foreign key dangles.
pub record IsClean (s : Schema) : Type 0 where
  pub goods : has_table "goods" s.tables ≡ false
  pub users : has_table "users" s.tables ≡ false
  pub orders : has_table "orders" s.tables ≡ false
  pub tokens : has_table "refresh_tokens" s.tables ≡ false
  pub details : has_table "order_shipping_details" s.tables ≡ false
  pub saga_logs : has_table "saga_logs" s.tables ≡ false
  pub privileges : has_type "userprivileges" s.types ≡ false
  pub step_type : has_type "sagastepstatus" s.types ≡ false
  pub global_status : has_type "orderglobalstatus" s.types ≡ false
  pub payment : has_type "paymentway" s.types ≡ false
  pub references :
      (name : String) → has_table name s.tables ≡ false → any (refers_to name) s.tables ≡ false

pub keep_all :
    (name : String) (ts : List Table)
    → has_table name ts ≡ false
    → keep (λ t. not (str_eq t.name name)) ts ≡ ts
keep_all name [] absent = refl
keep_all name (t ∷ ts) absent = ground (arith, keep_all name ts)

pub other_references :
    (name : String) (ts : List Table)
    → any (refers_to name) ts ≡ false
    → any (λ t. not (str_eq t.name name) && refers_to name t) ts ≡ false
other_references name [] none_refers = refl
other_references name (t ∷ ts) none_refers = ground (arith, other_references name ts)

abbrev pub initial_schema : Schema → Schema
initial_schema s = record {
  tables =
      saga_logs_table ∷ order_shipping_details_table ∷ refresh_tokens_table ∷ orders_table
      ∷ users_table ∷ goods_table ∷ s.tables;
  types = order_types ++ userprivileges ∷ s.types;
}

abbrev pub made : Table → List EnumType → Schema → Schema
made t es s = record { tables = t ∷ s.tables; types = es ++ s.types }

module _ (to : Schema) where
  apply_all-create_table :
      (t : Table) (es : List EnumType) (ops : List Op) (s : Schema)
      → has_table t.name s.tables ≡ false
      → any (λ e. has_type e.name s.types) es ≡ false
      → any (λ k. not (has_table k.table s.tables)) t.foreign_keys ≡ false
      → apply_all ops (made t es s) ≡ some to
      → apply_all (create_table t es ∷ ops) s ≡ some to
  unfolding apply_all apply
  apply_all-create_table t es ops s new_name new_types known rest = ground arith

  apply_all-append :
      (ops ops' : List Op) (s s' : Schema)
      → apply_all ops s ≡ some s'
      → apply_all ops' s' ≡ some to
      → apply_all (ops ++ ops') s ≡ some to
  unfolding apply_all
  apply_all-append [] ops' s s' done rest = ground arith
  apply_all-append (op ∷ ops) ops' s s' done rest = elim (Option-cases (apply op s)) [
    | inl refused ↦ absurd (ground arith)
    | inr (t, next) ↦ ground (arith, next, apply_all-append ops ops' t s')
  ]

module _ (s : Schema) (c : IsClean s) where
  apply_all-initial : apply_all (upgrade initial_migration) s ≡ some (initial_schema s)
  unfolding upgrade apply_all
  apply_all-initial =
      let to = initial_schema s in
      let s1 = made goods_table [] s in
      let s2 = made users_table (userprivileges ∷ []) s1 in
      let s3 = made orders_table order_types s2 in
      let s4 = made refresh_tokens_table [] s3 in
      let s5 = made order_shipping_details_table [] s4 in
      let o5 = create_table saga_logs_table [] ∷ [] in
      let o4 = create_table order_shipping_details_table [] ∷ o5 in
      let o3 = create_table refresh_tokens_table [] ∷ o4 in
      let o2 = create_table orders_table order_types ∷ o3 in
      let o1 = create_table users_table (userprivileges ∷ []) ∷ o2 in
      let r5 = apply_all-create_table to saga_logs_table [] [] s5 c.saga_logs refl refl refl in
      let r4 =
        apply_all-create_table to order_shipping_details_table [] o5 s4 c.details refl refl r5 in
      let r3 = apply_all-create_table to refresh_tokens_table [] o4 s3 c.tokens refl refl r4 in
      let types : any (λ e. has_type e.name s2.types) order_types ≡ false =
        ground (arith, c.step_type, c.global_status, c.payment) in
      let r2 = apply_all-create_table to orders_table order_types o3 s2 c.orders types refl r3 in
      let privileges : any (λ e. has_type e.name s.types) (userprivileges ∷ []) ≡ false =
        ground (arith, c.privileges) in
      let r1 =
        apply_all-create_table to users_table (userprivileges ∷ []) o2 s1 c.users privileges refl
          r2 in
      apply_all-create_table to goods_table [] o1 s c.goods refl refl r1

-- The schema at the newest revision.
abbrev pub latest_types : List EnumType
latest_types =
    record {
      name = "sagastepstatus";
      labels =
          "PENDING" ∷ "FAILED" ∷ "SUCCESS" ∷ "CANCELLED" ∷ "COMPENSATING" ∷ "COMPENSATED"
          ∷ "SKIPPED" ∷ [];
    }
    ∷ record {
      name = "orderglobalstatus";
      labels =
          "PROCESSING" ∷ "COMPLETED" ∷ "CANCELLED" ∷ "COMPENSATING" ∷ "MANUAL_INTERVENTION_REQUIRED"
          ∷ [];
    }
    ∷ record { name = "paymentway"; labels = "PREPAYMENT" ∷ "POSTPAYMENT" ∷ [] }
    ∷ userprivileges
    ∷ []

abbrev pub latest_tables : List Table
latest_tables =
    order_shipping_detail_model ∷ refresh_token_model ∷ order_model ∷ users_table ∷ goods_table ∷ []

abbrev pub latest_schema : Schema → Schema
latest_schema s = record { tables = latest_tables ++ s.tables; types = latest_types ++ s.types }

module _ (s : Schema) (c : IsClean s) where
  pub apply_all-upgrade :
      apply_all (upgrade_ops (revisions_from 5 (some head))) s ≡ some (latest_schema s)
  unfolding upgrade_ops upgrade apply_all apply
  apply_all-upgrade =
      let to = latest_schema s in
      let later : List Op =
        set_nullable "order_shipping_details" "guest_email" false
        ∷ drop_column "orders" "price"
        ∷ add_value "orderglobalstatus" "COMPENSATING"
        ∷ add_value "orderglobalstatus" "MANUAL_INTERVENTION_REQUIRED"
        ∷ drop_table "saga_logs"
        ∷ [] in
      apply_all-append to (upgrade initial_migration) later s (initial_schema s)
        (apply_all-initial s c)
        (ground (
          arith,
          keep_all "saga_logs" s.tables c.saga_logs,
          other_references "saga_logs" s.tables (c.references "saga_logs" c.saga_logs),
        ))
