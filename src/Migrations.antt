-- ===== src/Migrations.antt =====
-- src/db/migrations: the schema of the database, and what alembic's operations do to it.
pub mod Versions
pub mod Metadata
pub mod Environment
pub mod Command
pub mod Clean
pub mod Upgrade
pub mod Downgrade
use mathlib.Core.Option
use saga_orchestrator_patter.Base.{
  ℕ, ◌≡◌, String, Bool, true, false, not, ◌&&◌, ◌||◌, Option, none, some, List, [], ◌∷◌, ◌++◌, any,
  keep, str_eq, if◌then◌else◌,
}

pub data ColumnType : Type 0 where
  big_integer integer numeric_10_2 uuid text string boolean : ColumnType
  varchar : ℕ → ColumnType
  timestamp timestamp_tz : ColumnType
  enum : String → ColumnType

pub record Column : Type 0 where
  pub name : String
  pub type : ColumnType
  pub nullable : Bool
  pub has_default : Bool

-- A foreign key, by its column and the table that it refers to.
pub record ForeignKey : Type 0 where
  pub column : String
  pub table : String

-- A table with the columns of its primary key and its unique columns. Of its rows this keeps whether
-- there are any, and the columns in which one of them is null.
pub record Table : Type 0 where
  pub name : String
  pub columns : List Column
  pub primary_key : String
  pub unique : List String
  pub foreign_keys : List ForeignKey
  pub is_empty : Bool
  pub nulls : List String

pub record EnumType : Type 0 where
  pub name : String
  pub labels : List String

pub record Schema : Type 0 where
  pub tables : List Table
  pub types : List EnumType

-- The calls of the versions: `op.create_table` with the enum types that its columns bring along, and
-- so on; `set_nullable` is `op.alter_column`, and `add_value` the ALTER TYPE … ADD VALUE IF NOT EXISTS.
pub data Op : Type 0 where
  create_table : Table → List EnumType → Op
  drop_table : String → Op
  add_column : String → Column → Op
  drop_column : String → String → Op
  set_nullable : String → String → Bool → Op
  add_value : String → String → Op

abbrev pub has_table : String → List Table → Bool
has_table name = any (λ t. str_eq t.name name)

abbrev pub has_type : String → List EnumType → Bool
has_type name = any (λ e. str_eq e.name name)

abbrev pub contains : String → List String → Bool
contains name = any (λ s. str_eq s name)

abbrev pub refers_to : String → Table → Bool
refers_to name t = any (λ k. str_eq k.table name) t.foreign_keys

-- The tables with the first one of that name changed, if the change goes through.
abbrev pub change : String → (Table → Option Table) → List Table → Option (List Table)
change name f [] = none
change name f (t ∷ ts) =
    let rest = change name f ts in
    if str_eq t.name name then Option.map (λ u. u ∷ ts) (f t) else Option.map (λ us. t ∷ us) rest

abbrev pub with_column : Column → Table → Option Table
with_column c t =
    if any (λ d. str_eq d.name c.name) t.columns
    then none
    else if not (c.nullable || c.has_default || t.is_empty)
    then none
    else some (record t { columns = t.columns ++ c ∷ [] })

abbrev pub without_column : String → Table → Option Table
without_column name t =
    if any (λ d. str_eq d.name name) t.columns
    then some (record t { columns = keep (λ d. not (str_eq d.name name)) t.columns })
    else none

abbrev pub set_column : String → Bool → List Column → List Column
set_column name nullable [] = []
set_column name nullable (c ∷ cs) =
    (if str_eq c.name name then record c { nullable = nullable } else c)
    ∷ set_column name nullable cs

abbrev pub with_nullable : String → Bool → Table → Option Table
with_nullable name nullable t =
    if not (any (λ d. str_eq d.name name) t.columns) || (not nullable && contains name t.nulls)
    then none
    else some (record t { columns = set_column name nullable t.columns })

abbrev pub add_label : String → String → List EnumType → Option (List EnumType)
add_label name label [] = none
add_label name label (e ∷ es) =
    let rest = add_label name label es in
    if str_eq e.name name
    then some
        ((if contains label e.labels then e else record e { labels = e.labels ++ label ∷ [] }) ∷ es)
    else Option.map (λ us. e ∷ us) rest

-- What PostgreSQL does, as its documentation says; `none` is a refusal. A table that another one
-- refers to is not dropped, and a dropped table leaves the types of its columns.
unfoldable pub apply : Op → Schema → Option Schema
apply (create_table t es) s =
    if has_table t.name s.tables
      || any (λ e. has_type e.name s.types) es
      || any (λ k. not (has_table k.table s.tables)) t.foreign_keys
    then none
    else some (record { tables = t ∷ s.tables; types = es ++ s.types })
apply (drop_table name) s =
    if not (has_table name s.tables)
      || any (λ t. not (str_eq t.name name) && refers_to name t) s.tables
    then none
    else some (record s { tables = keep (λ t. not (str_eq t.name name)) s.tables })
apply (add_column name c) s =
    Option.map (λ ts. record s { tables = ts }) (change name (with_column c) s.tables)
apply (drop_column name column) s =
    Option.map (λ ts. record s { tables = ts }) (change name (without_column column) s.tables)
apply (set_nullable name column nullable) s =
    Option.map (λ ts. record s { tables = ts })
      (change name (with_nullable column nullable) s.tables)
apply (add_value name label) s =
    Option.map (λ es. record s { types = es }) (add_label name label s.types)

unfoldable pub apply_all : List Op → Schema → Option Schema
apply_all [] s = some s
apply_all (op ∷ ops) s = elim (apply op s) [ none ↦ none | some s' ↦ apply_all ops s' ]

-- A database behind alembic: each operation does to the schema what `apply` says.
pub record Database : Type 1 where
  pub State : Type 0
  pub schema : State → Schema
  pub execute : Op → State → Option State
  pub execute-apply : (op : Op) (s : State) → Option.map schema (execute op s) ≡ apply op (schema s)
