-- ===== src/Table/RowList.antt =====
-- A table that meets the laws of `OrderTable`: a list of rows with distinct ids.
use saga_orchestrator_patter.Base.{
  ℕ, none, some, List, [], ◌∷◌, ◌≡◌, ◌==◌, if◌then◌else◌, keep, arith, refl,
}
use saga_orchestrator_patter.Models.Order.{Order}
use saga_orchestrator_patter.Table.{OrderTable}
use saga_orchestrator_patter.Table.Rows.{
  keyed, replaced, Distinct, keyed_id, keyed-keep, Distinct-keep,
}

abbrev pub replace : Order → List Order → List Order
replace o [] = []
replace o (x ∷ rows) = (if o.id == x.id then o else x) ∷ replace o rows

abbrev pub add : Order → List Order → List Order
add o rows = elim (keyed o.id rows) [ none ↦ o ∷ rows | some x ↦ rows ]

pub keyed-replace :
    (o : Order) (i : ℕ) (rows : List Order) → keyed i (replace o rows) ≡ replaced o i (keyed i rows)
keyed-replace o i [] = refl
keyed-replace o i (x ∷ rows) = ground (arith, keyed-replace o i rows)

pub Distinct-replace : (o : Order) (rows : List Order) → Distinct rows → Distinct (replace o rows)
Distinct-replace o [] d = tt
Distinct-replace o (x ∷ rows) d =
    ground (
      arith,
      keyed-replace o x.id rows,
      keyed-replace o o.id rows,
      d.0,
      Distinct-replace o rows d.1,
    )

pub Distinct-add : (o : Order) (rows : List Order) → Distinct rows → Distinct (add o rows)
Distinct-add o rows d = ground arith

pub keyed-add :
    (o : Order) (i : ℕ) (rows : List Order)
    → keyed o.id rows ≡ none
    → keyed i (add o rows) ≡ (if o.id == i then some o else keyed i rows)
keyed-add o i rows h = ground arith

-- The table whose rows are a list together with the fact that its ids are distinct.
abbrev pub row_list : OrderTable
row_list = record {
  Rows = (rows : List Order) × Distinct rows;
  find = λ i r. keyed i r.0;
  select = λ p r. keep p r.0;
  write = λ o r. (replace o r.0, Distinct-replace o r.0 r.1);
  insert = λ o r. (add o r.0, Distinct-add o r.0 r.1);
  find_id = λ i r o h. keyed_id i r.0 o h;
  find-write = λ o i r. keyed-replace o i r.0;
  find-insert = λ o i r h. keyed-add o i r.0 h;
  keyed-select = λ p i r. keyed-keep p i r.0 r.1;
  select-Distinct = λ p r. Distinct-keep p r.0 r.1;
}
