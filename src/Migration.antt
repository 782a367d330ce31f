-- ===== src/Migration.antt =====
-- alembic/versions/20260723_0001_initial_schema.py: the tables of the database, as the migration
-- declares them. What the operations do to a database is PostgreSQL's.
pub mod Tables
pub mod Reverse
pub mod Rows
pub mod Cells
pub mod Fits
use order_management_system.Prelude.{ℕ, String, Bool, true, false, Option, List}

pub data ColumnType : Type 0 where
  varchar : ℕ → ColumnType
  money integer uuid_column timestamp jsonb : ColumnType

pub record Column : Type 0 where
  pub name : String
  pub column_type : ColumnType
  pub nullable : Bool

-- `sa.Column(…, nullable=False)`, and with `nullable=True`.
abbrev pub required : String → ColumnType → Column
required name column_type = record { name = name; column_type = column_type; nullable = false }

abbrev pub optional : String → ColumnType → Column
optional name column_type = record { name = name; column_type = column_type; nullable = true }

-- The expressions of the check constraints.
pub data Term : Type 0 where
  column : String → Term
  literal : ℕ → Term
  plus : Term → Term → Term

pub data Condition : Type 0 where
  at_least at_most above equal : Term → Term → Condition
  is_null : String → Condition
  either : Condition → Condition → Condition
  one_of : String → List String → Condition

pub data Constraint : Type 0 where
  check_constraint : String → Condition → Constraint
  primary_key : String → Constraint
  unique : Option String → List String → Constraint
  -- a column, the table that it refers to, and the column there, always with `ondelete="RESTRICT"`
  foreign_key : String → String → String → Constraint

pub record Table : Type 0 where
  pub name : String
  pub columns : List Column
  pub constraints : List Constraint

pub data Operation : Type 0 where
  create_table : Table → Operation
  create_index : String → String → List String → Operation
  drop_index : String → String → Operation
  drop_table : String → Operation
