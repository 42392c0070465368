-- ===== src/Migrations/Upgrade.antt =====
-- All five upgrades, in one run, on a database in which none of the names is taken.
use saga_orchestrator_patter.Base.{◌≡◌, refl, String, true, some, List, [], ◌∷◌, ◌++◌, arith}
use saga_orchestrator_patter.Models.Enums.{
  pending, processing, prepayment, user, SagaStepStatus, OrderGlobalStatus, PaymentWay,
  UserPrivileges,
}
use saga_orchestrator_patter.Migrations.{Table, EnumType, Database}
use saga_orchestrator_patter.Migrations.Versions.{goods_table, users_table}
use saga_orchestrator_patter.Migrations.Environment.{
  head, revisions_from, upgrade_ops, do_run_migrations, do_run_migrations_lem,
}
use saga_orchestrator_patter.Migrations.Metadata.{
  metadata, user_model, good_model, order_model, order_shipping_detail_model, refresh_token_model,
  SameTable, SameTable-refl, Matches, Matches-cons, get_table, accepts, step_label, global_label,
  payment_label, role_label,
}
use saga_orchestrator_patter.Migrations.Clean.{
  IsClean, apply_all-upgrade, latest_schema, latest_types, latest_tables,
}

user_model-SameTable : SameTable user_model users_table
user_model-SameTable = record {
  name = refl;
  columns = refl;
  primary_key = refl;
  unique = λ c. ground arith;
  foreign_keys = refl;
}

latest-Matches :
    (name : String) (ts : List Table)
    → Matches (get_table name metadata) (get_table name (latest_tables ++ ts)) (get_table name ts)
latest-Matches name ts =
    let old = get_table name ts in
    let m1 = Matches-cons name good_model goods_table [] ts old (SameTable-refl good_model) refl in
    let m2 =
      Matches-cons name user_model users_table (good_model ∷ []) (goods_table ∷ ts) old
        user_model-SameTable m1 in
    let m3 =
      Matches-cons name order_model order_model (user_model ∷ good_model ∷ [])
        (users_table ∷ goods_table ∷ ts) old (SameTable-refl order_model) m2 in
    let m4 =
      Matches-cons name refresh_token_model refresh_token_model
        (order_model ∷ user_model ∷ good_model ∷ []) (order_model ∷ users_table ∷ goods_table ∷ ts)
        old (SameTable-refl refresh_token_model) m3 in
    Matches-cons name order_shipping_detail_model order_shipping_detail_model
      (refresh_token_model ∷ order_model ∷ user_model ∷ good_model ∷ [])
      (refresh_token_model ∷ order_model ∷ users_table ∷ goods_table ∷ ts) old
      (SameTable-refl order_shipping_detail_model) m4

-- Every value of the four enums can be stored.
pub record AcceptsEnums (types : List EnumType) : Type 0 where
  pub steps : (x : SagaStepStatus) → accepts "sagastepstatus" (step_label x) types ≡ true
  pub globals : (x : OrderGlobalStatus) → accepts "orderglobalstatus" (global_label x) types ≡ true
  pub payments : (x : PaymentWay) → accepts "paymentway" (payment_label x) types ≡ true
  pub roles : (x : UserPrivileges) → accepts "userprivileges" (role_label x) types ≡ true

module _ (es : List EnumType) where
  accepts-step_label :
      (x : SagaStepStatus) → accepts "sagastepstatus" (step_label x) (latest_types ++ es) ≡ true
  accepts-step_label pending = refl
  accepts-step_label _ = refl

  accepts-global_label :
      (x : OrderGlobalStatus)
      → accepts "orderglobalstatus" (global_label x) (latest_types ++ es) ≡ true
  accepts-global_label processing = refl
  accepts-global_label _ = refl

  accepts-payment_label :
      (x : PaymentWay) → accepts "paymentway" (payment_label x) (latest_types ++ es) ≡ true
  accepts-payment_label prepayment = refl
  accepts-payment_label _ = refl

  accepts-role_label :
      (x : UserPrivileges) → accepts "userprivileges" (role_label x) (latest_types ++ es) ≡ true
  accepts-role_label user = refl
  accepts-role_label _ = refl

  latest-AcceptsEnums : AcceptsEnums (latest_types ++ es)
  latest-AcceptsEnums = record {
    steps = accepts-step_label;
    globals = accepts-global_label;
    payments = accepts-payment_label;
    roles = accepts-role_label;
  }

module _ (D : Database) (s : D.State) where
  -- On a database in which none of the names of the migrations is taken and no foreign key
  -- dangles, running all upgrades in the order of down_revision succeeds, and leaves exactly the
  -- tables that the ORM classes declare, with their columns, types, nullability, server defaults,
  -- keys and unique columns, beside the tables that were there; and the enum types accept every
  -- value of the enums of the code.
  pub do_run_migrations_upgrade :
      IsClean (D.schema s)
      → let r = do_run_migrations D (upgrade_ops (revisions_from 5 (some head))) s in
        (r.0 ≡ true)
        × ((name : String)
            → Matches
                (get_table name metadata)
                (get_table name (D.schema r.1).tables)
                (get_table name (D.schema s).tables))
        × AcceptsEnums (D.schema r.1).types
  do_run_migrations_upgrade c =
      let s' = D.schema s in
      let (done, to) =
        do_run_migrations_lem D (upgrade_ops (revisions_from 5 (some head))) s (latest_schema s')
          (apply_all-upgrade s' c) in
      (done, λ name. rw to (latest-Matches name s'.tables), rw to (latest-AcceptsEnums s'.types))
