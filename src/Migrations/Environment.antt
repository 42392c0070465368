-- ===== src/Migrations/Environment.antt =====
-- src/db/migrations/env.py: alembic follows `down_revision` from the newest revision, and runs all
-- that is asked for in one transaction.
use mathlib.Core.Option
use saga_orchestrator_patter.Base.{
  ℕ, zero, suc, ◌≡◌, refl, Bool, true, false, Option, none, some, List, [], ◌∷◌, ◌++◌, arith,
  Option-cases, inl, inr,
}
use saga_orchestrator_patter.Migrations.{Op, Schema, apply_all, Database}
use saga_orchestrator_patter.Migrations.Versions.{
  Revision, remove_saga_log_table, down_revision, upgrade, downgrade,
}

-- The newest revision first; the fuel is the number of revisions.
abbrev pub revisions_from : ℕ → Option Revision → List Revision
revisions_from zero r = []
revisions_from (suc fuel) none = []
revisions_from (suc fuel) (some r) = r ∷ revisions_from fuel (down_revision r)

abbrev pub head : Revision
head = remove_saga_log_table

unfoldable pub downgrade_ops : List Revision → List Op
downgrade_ops [] = []
downgrade_ops (r ∷ rs) = downgrade r ++ downgrade_ops rs

unfoldable pub upgrade_ops : List Revision → List Op
upgrade_ops [] = []
upgrade_ops (r ∷ rs) = upgrade_ops rs ++ upgrade r

module _ (D : Database) where
  execute_all : List Op → D.State → Option D.State
  execute_all [] s = some s
  execute_all (op ∷ ops) s = elim (D.execute op s) [ none ↦ none | some s' ↦ execute_all ops s' ]

  -- `with context.begin_transaction(): context.run_migrations()`
  unfoldable pub do_run_migrations : List Op → D.State → Bool × D.State
  unfolding execute_all
  do_run_migrations ops s = elim (execute_all ops s) [ none ↦ (false, s) | some s' ↦ (true, s') ]

  execute_all-apply_all :
      (ops : List Op) (s : D.State)
      → Option.map D.schema (execute_all ops s) ≡ apply_all ops (D.schema s)
  unfolding execute_all apply_all
  execute_all-apply_all [] s = refl
  execute_all-apply_all (op ∷ ops) s = elim (Option-cases (D.execute op s)) [
    | inl refused ↦ ground (arith, D.execute-apply op s, refused)
    | inr (s', done) ↦ ground (arith, D.execute-apply op s, done, execute_all-apply_all ops s')
  ]

  -- A run ends with the schema that the operations make, or changes nothing at all.
  pub do_run_migrations_lem :
      (ops : List Op) (s : D.State) (to : Schema)
      → apply_all ops (D.schema s) ≡ some to
      → ((do_run_migrations ops s).0 ≡ true) × (D.schema (do_run_migrations ops s).1 ≡ to)
  unfolding do_run_migrations
  do_run_migrations_lem ops s to h = ground (arith, execute_all-apply_all ops s)

  pub do_run_migrations_refused :
      (ops : List Op) (s : D.State)
      → apply_all ops (D.schema s) ≡ none
      → do_run_migrations ops s ≡ (false, s)
  unfolding do_run_migrations
  do_run_migrations_refused ops s h = ground (arith, execute_all-apply_all ops s)
