-- ===== src/Migrations/Downgrade.antt =====
-- All five downgrades, in one run, from the newest revision.
use saga_orchestrator_patter.Base.{
  ◌≡◌, refl, ap, ◌∙◌, String, true, false, ◌||◌, none, some, List, [], ◌∷◌, ◌++◌, arith,
}
use saga_orchestrator_patter.Migrations.{
  Table, Schema, apply, apply_all, Database, numeric_10_2, Column, change, with_column,
}
use saga_orchestrator_patter.Migrations.Versions.{column, upgrade, downgrade}
use saga_orchestrator_patter.Migrations.Environment.{
  head, revisions_from, upgrade_ops, downgrade_ops, do_run_migrations, do_run_migrations_lem,
  do_run_migrations_refused,
}
use saga_orchestrator_patter.Migrations.Metadata.{get_table}
use saga_orchestrator_patter.Migrations.Clean.{
  IsClean, keep_all, other_references, apply_all-upgrade, latest_schema, latest_types,
}

module _ (s : Schema) (c : IsClean s) where
  -- The schema before the first upgrade, with the types that the tables leave behind.
  apply_all-downgrade :
      apply_all (downgrade_ops (revisions_from 5 (some head))) (latest_schema s)
      ≡ some (record s { types = latest_types ++ s.types })
  unfolding downgrade_ops downgrade apply_all apply
  apply_all-downgrade = ground (
    arith,
    c.saga_logs,
    keep_all "saga_logs" s.tables c.saga_logs,
    keep_all "order_shipping_details" s.tables c.details,
    keep_all "refresh_tokens" s.tables c.tokens,
    keep_all "orders" s.tables c.orders,
    keep_all "users" s.tables c.users,
    keep_all "goods" s.tables c.goods,
    other_references "saga_logs" s.tables (c.references "saga_logs" c.saga_logs),
    other_references "order_shipping_details" s.tables
        (c.references "order_shipping_details" c.details),
    other_references "refresh_tokens" s.tables (c.references "refresh_tokens" c.tokens),
    other_references "orders" s.tables (c.references "orders" c.orders),
    other_references "users" s.tables (c.references "users" c.users),
    other_references "goods" s.tables (c.references "goods" c.goods),
  )

-- A column that may not be null and has no default is not added to a table with rows.
change-with_column :
    (name : String) (c : Column) (ts : List Table) (t : Table)
    → get_table name ts ≡ some t
    → t.is_empty ≡ false
    → (c.nullable || c.has_default) ≡ false
    → change name (with_column c) ts ≡ none
change-with_column name c [] t found rows strict = absurd (ground arith)
change-with_column name c (u ∷ ts) t found rows strict =
    ground (arith, change-with_column name c ts t)

apply_all-downgrade_orders :
    (s : Schema) (t : Table)
    → get_table "orders" s.tables ≡ some t
    → t.is_empty ≡ false
    → apply_all (downgrade_ops (revisions_from 5 (some head))) s ≡ none
unfolding downgrade_ops downgrade apply_all apply
apply_all-downgrade_orders s t found rows =
    let price = column "price" numeric_10_2 in
    ground (arith, change-with_column "orders" price s.tables t found rows refl)

apply_all-upgrade_again :
    (s : Schema)
    → apply_all
        (upgrade_ops (revisions_from 5 (some head)))
        (record s { types = latest_types ++ s.types })
      ≡ none
unfolding upgrade_ops upgrade apply_all apply
apply_all-upgrade_again s = ground arith

module _ (D : Database) (s : D.State) where
  -- On such a database, all upgrades and then all downgrades, with no row in between, succeed and
  -- give the tables back as they were; the four enum types stay behind, and the next upgrade is
  -- therefore refused and changes nothing.
  pub do_run_migrations_roundtrip :
      IsClean (D.schema s)
      → let up = upgrade_ops (revisions_from 5 (some head)) in
        let down = downgrade_ops (revisions_from 5 (some head)) in
        let r = do_run_migrations D down (do_run_migrations D up s).1 in
        (r.0 ≡ true)
        × (D.schema r.1 ≡ record (D.schema s) { types = latest_types ++ (D.schema s).types })
        × (do_run_migrations D up r.1 ≡ (false, r.1))
  do_run_migrations_roundtrip c =
      let up = upgrade_ops (revisions_from 5 (some head)) in
      let down = downgrade_ops (revisions_from 5 (some head)) in
      let s0 = D.schema s in
      let (_, made) = do_run_migrations_lem D up s (latest_schema s0) (apply_all-upgrade s0 c) in
      let s1 = (do_run_migrations D up s).1 in
      let to = record s0 { types = latest_types ++ s0.types } in
      let (done, gone) =
        do_run_migrations_lem D down s1 to (ap (apply_all down) made ∙ apply_all-downgrade s0 c) in
      (
        done,
        gone,
        do_run_migrations_refused D up (do_run_migrations D down s1).1
            (ap (apply_all up) gone ∙ apply_all-upgrade_again s0),
      )

  -- From the newest revision, all downgrades in one run are refused and change nothing if the
  -- table of orders has a row.
  do_run_migrations_orders :
      (t : Table)
      → get_table "orders" (D.schema s).tables ≡ some t
      → t.is_empty ≡ false
      → do_run_migrations D (downgrade_ops (revisions_from 5 (some head))) s ≡ (false, s)
  do_run_migrations_orders t found rows =
      do_run_migrations_refused D (downgrade_ops (revisions_from 5 (some head))) s
        (apply_all-downgrade_orders (D.schema s) t found rows)
