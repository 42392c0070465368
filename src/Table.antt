-- ===== src/Table.antt =====
-- The `orders` table as the code uses it through SQLAlchemy sessions (src/core/database.py and the
-- `select(Order)` statements): the database is a parameter, given by its operations and their
-- documented laws. A SELECT returns the rows that satisfy its WHERE clause, ids are a primary key.
pub mod Rows
pub mod RowList
use saga_orchestrator_patter.Base.{
  ℕ, Bool, Option, none, some, List, ◌≡◌, ◌≢◌, ◌==◌, arith, if◌then◌else◌,
}
use saga_orchestrator_patter.Models.Order.{Order}
use saga_orchestrator_patter.Table.Rows.{keyed, matching, replaced, Distinct, replaced_other}

pub record OrderTable : Type 1 where
  pub Rows : Type 0
  -- `select(Order).where(Order.id == order_id)`, its only row
  pub find : ℕ → Rows → Option Order
  -- `select(Order).where(condition)`, all rows
  pub select : (Order → Bool) → Rows → List Order
  -- the UPDATE of a loaded row when its session commits
  pub write : Order → Rows → Rows
  -- the INSERT of a new row
  pub insert : Order → Rows → Rows
  pub find_id : (i : ℕ) (r : Rows) (o : Order) → find i r ≡ some o → o.id ≡ i
  pub find-write : (o : Order) (i : ℕ) (r : Rows) → find i (write o r) ≡ replaced o i (find i r)
  pub find-insert :
      (o : Order) (i : ℕ) (r : Rows)
      → find o.id r ≡ none
      → find i (insert o r) ≡ (if o.id == i then some o else find i r)
  pub keyed-select :
      (p : Order → Bool) (i : ℕ) (r : Rows) → keyed i (select p r) ≡ matching p (find i r)
  pub select-Distinct : (p : Order → Bool) (r : Rows) → Distinct (select p r)

module _ (T : OrderTable) where
  -- A write of the row that was found is found.
  pub find-write_self :
      (o new : Order) (i : ℕ) (r : T.Rows)
      → T.find i r ≡ some o
      → new.id ≡ o.id
      → T.find i (T.write new r) ≡ some new
  find-write_self o new i r found same = ground (arith, T.find-write new i r, T.find_id i r o found)

  -- A write leaves the rows with other ids alone.
  pub find-write_other :
      (new : Order) (i : ℕ) (r : T.Rows) → i ≢ new.id → T.find i (T.write new r) ≡ T.find i r
  find-write_other new i r other =
      ground (arith, T.find-write new i r, replaced_other new i (T.find i r))
