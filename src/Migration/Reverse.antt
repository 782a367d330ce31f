-- ===== src/Migration/Reverse.antt =====
-- `upgrade` and `downgrade` of alembic/versions/20260723_0001_initial_schema.py.
use order_management_system.Prelude.{
  String, Bool, true, false, ◌&&◌, ◌≡◌, refl, sym, arith, List, [], ◌∷◌, ◌++◌, Option, none, some,
  inl, inr, Option-cases,
}
use order_management_system.Migration.{
  Operation, Table, create_table, create_index, drop_index, drop_table,
}
use order_management_system.Migration.Tables.{
  accounts_table, market_prices_table, orders_table, positions_table, fills_table,
  order_events_table, processed_broker_events_table,
}

unfoldable pub upgrade : List Operation
upgrade =
    create_table accounts_table
    ∷ create_index "ix_accounts_user_id" "accounts" ("user_id" ∷ [])
    ∷ create_table market_prices_table
    ∷ create_table orders_table
    ∷ create_index "ix_orders_account_status" "orders" ("account_id" ∷ "status" ∷ [])
    ∷ create_index "ix_orders_expires_at" "orders" ("expires_at" ∷ [])
    ∷ create_index "ix_orders_symbol" "orders" ("symbol" ∷ [])
    ∷ create_table positions_table
    ∷ create_index "ix_positions_symbol" "positions" ("symbol" ∷ [])
    ∷ create_table fills_table
    ∷ create_index "ix_fills_order_id" "fills" ("order_id" ∷ [])
    ∷ create_table order_events_table
    ∷ create_index "ix_order_events_order_created" "order_events" ("order_id" ∷ "created_at" ∷ [])
    ∷ create_table processed_broker_events_table
    ∷ create_index "ix_processed_broker_events_order_id" "processed_broker_events" ("order_id" ∷ [])
    ∷ []

unfoldable pub downgrade : List Operation
downgrade =
    drop_index "ix_processed_broker_events_order_id" "processed_broker_events"
    ∷ drop_table "processed_broker_events"
    ∷ drop_index "ix_order_events_order_created" "order_events"
    ∷ drop_table "order_events"
    ∷ drop_index "ix_fills_order_id" "fills"
    ∷ drop_table "fills"
    ∷ drop_index "ix_positions_symbol" "positions"
    ∷ drop_table "positions"
    ∷ drop_index "ix_orders_symbol" "orders"
    ∷ drop_index "ix_orders_expires_at" "orders"
    ∷ drop_index "ix_orders_account_status" "orders"
    ∷ drop_table "orders"
    ∷ drop_table "market_prices"
    ∷ drop_index "ix_accounts_user_id" "accounts"
    ∷ drop_table "accounts"
    ∷ []

-- The operation that takes back a creation; a removal is not taken back.
abbrev pub undo : Operation → Operation
undo (create_table t) = drop_table t.name
undo (create_index name table columns) = drop_index name table
undo removal = removal

abbrev pub is_creation : Operation → Bool
is_creation (create_table t) = true
is_creation (create_index name table columns) = true
is_creation _ = false

-- Taken back one by one, the last one first.
abbrev pub undo_all : List Operation → List Operation
undo_all [] = []
undo_all (op ∷ ops) = undo_all ops ++ undo op ∷ []

abbrev pub creations : List Operation → Bool
creations [] = true
creations (op ∷ ops) = is_creation op && creations ops

reversed : downgrade ≡ undo_all upgrade
unfolding upgrade downgrade
reversed = refl

upgrade_creates : creations upgrade ≡ true
unfolding upgrade
upgrade_creates = refl

-- What the operations do to a database is the database's: `run` is an argument.
module _ {S : Type 0} (run : Operation → S → Option S) where
  -- One operation after the other, until one fails.
  abbrev pub run_all : List Operation → S → Option S
  run_all [] s = some s
  run_all (op ∷ ops) s = elim (run op s) [ none ↦ none | some s' ↦ run_all ops s' ]

  run_all-append :
      (xs ys : List Operation) (s : S)
      → run_all (xs ++ ys) s ≡ elim (run_all xs s) [ none ↦ none | some s' ↦ run_all ys s' ]
  run_all-append [] ys s = refl
  run_all-append (x ∷ xs) ys s = elim (Option-cases (run x s)) [
    | inl failed ↦ ground arith
    | inr (s', done) ↦ ground (arith, run_all-append xs ys s')
  ]

-- The removal of what has just been created leaves the database as it was before.
abbrev pub Restores : {S : Type 0} → (Operation → S → Option S) → Type 0
Restores {S} run =
    ((t : Table) (s s' : S)
      → run (create_table t) s ≡ some s'
      → run (drop_table t.name) s' ≡ some s)
    × ((name table : String) (columns : List String) (s s' : S)
        → run (create_index name table columns) s ≡ some s'
        → run (drop_index name table) s' ≡ some s)

module _ {S : Type 0} (run : Operation → S → Option S) (restores : Restores run) where
  undo-Restores :
      (op : Operation) (s s' : S)
      → is_creation op ≡ true
      → run op s ≡ some s'
      → run (undo op) s' ≡ some s
  undo-Restores (create_table t) s s' c h = restores.0 t s s' h
  undo-Restores (create_index name table columns) s s' c h = restores.1 name table columns s s' h
  undo-Restores (drop_index name table) s s' c h = absurd (cc c)
  undo-Restores (drop_table name) s s' c h = absurd (cc c)

  undone :
      (ops : List Operation) (s s' : S)
      → creations ops ≡ true
      → run_all run ops s ≡ some s'
      → run_all run (undo_all ops) s' ≡ some s
  undone [] s s' c h = sym h
  undone (op ∷ ops) s s' c h = elim (Option-cases (run op s)) [
    | inl failed ↦ absurd (ground arith)
    | inr (mid, done) ↦ ground (
      arith,
      run_all-append run (undo_all ops) (undo op ∷ []) s',
      undone ops mid s',
      undo-Restores op s mid,
    )
  ]

-- Where the upgrade goes through, the downgrade takes the database back to where it was, provided that
-- the removal of a table or an index that has just been created leaves no trace.
pub downgrade-upgrade :
    {S : Type 0} (run : Operation → S → Option S)
    → Restores run
    → (s s' : S) → run_all run upgrade s ≡ some s'
    → run_all run downgrade s' ≡ some s
downgrade-upgrade run restores s s' h =
    rw reversed (undone run restores upgrade s s' upgrade_creates h)
