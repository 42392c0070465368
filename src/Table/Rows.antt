-- ===== src/Table/Rows.antt =====
-- Rows by their primary key: the words in which the laws of the table are stated.
use saga_orchestrator_patter.Base.{
  ℕ, Bool, Option, none, some, List, [], ◌∷◌, ◌≡◌, ◌≢◌, ◌==◌, if◌then◌else◌, keep, arith, refl,
}
use saga_orchestrator_patter.Models.Order.{Order}

-- The row with the id `i`.
abbrev pub keyed : ℕ → List Order → Option Order
keyed i [] = none
keyed i (o ∷ rows) = let rest = keyed i rows in if o.id == i then some o else rest

-- The row, if it satisfies the condition.
abbrev pub matching : (Order → Bool) → Option Order → Option Order
matching p none = none
matching p (some o) = if p o then some o else none

-- The row with the id `i` after an UPDATE that writes `o`.
abbrev pub replaced : Order → ℕ → Option Order → Option Order
replaced o i none = none
replaced o i (some old) = if o.id == i then some o else some old

-- No two rows share an id.
abbrev pub Distinct : List Order → Type 0
Distinct [] = Unit
Distinct (o ∷ rows) = (keyed o.id rows ≡ none) × Distinct rows

pub keyed_id : (i : ℕ) (rows : List Order) (o : Order) → keyed i rows ≡ some o → o.id ≡ i
keyed_id i [] o h = ground arith
keyed_id i (x ∷ rows) o h = ground (arith, keyed_id i rows o)

pub keyed-keep :
    (p : Order → Bool) (i : ℕ) (rows : List Order)
    → Distinct rows
    → keyed i (keep p rows) ≡ matching p (keyed i rows)
keyed-keep p i [] d = refl
keyed-keep p i (o ∷ rows) d = ground (arith, keyed-keep p i rows d.1, d.0)

pub Distinct-keep : (p : Order → Bool) (rows : List Order) → Distinct rows → Distinct (keep p rows)
Distinct-keep p [] d = tt
Distinct-keep p (o ∷ rows) d =
    ground (arith, keyed-keep p o.id rows d.1, d.0, Distinct-keep p rows d.1)

pub replaced_other : (o : Order) (i : ℕ) (row : Option Order) → i ≢ o.id → replaced o i row ≡ row
replaced_other o i none h = refl
replaced_other o i (some x) h = ground arith
