-- ===== src/Migration/Rows.antt =====
-- Rows under the names of their columns, and whether the columns of a table take them.
use Prim.Native.String.{count}
use order_management_system.Prelude.{
  String, Bool, true, false, List, [], ◌∷◌, ◌&&◌, ◌||◌, leb, str_eq, if◌then◌else◌,
}
use order_management_system.Prelude.Int.{ℤ}
use order_management_system.Migration.{ColumnType, varchar, Column, Table}

pub data Value : Type 0 where
  null : Value
  number : ℤ → Value
  words : String → Value
  json : Value

abbrev pub Row : Type 0
Row = List (String × Value)

abbrev pub cell : String → Row → Value
cell name [] = null
cell name ((key, value) ∷ row) = let rest = cell name row in if str_eq name key then value else rest

abbrev pub listed : String → List String → Bool
listed s [] = false
listed s (t ∷ ts) = str_eq s t || listed s ts

-- Whether a value is there where the column asks for one, and whether a text is as short as its column.
abbrev pub fits_type : ColumnType → Value → Bool
fits_type (varchar n) (words s) = leb (count s) n
fits_type _ _ = true

abbrev pub fits_column : Column → Value → Bool
fits_column c null = c.nullable
fits_column c value = fits_type c.column_type value

-- The columns that the rows of the models leave out: those of `TimestampMixin`, and one that nothing
-- writes.
abbrev pub left_out : List String
left_out = "created_at" ∷ "updated_at" ∷ "broker_order_id" ∷ []

abbrev fits_columns : List Column → Row → Bool
fits_columns [] row = true
fits_columns (c ∷ cs) row =
    let rest = fits_columns cs row in
    (listed c.name left_out || fits_column c (cell c.name row)) && rest

abbrev pub fits : Table → Row → Bool
fits t = fits_columns t.columns
