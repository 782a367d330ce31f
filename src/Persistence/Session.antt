-- ===== src/Persistence/Session.antt =====
-- What runs inside `async with session.begin()`: a function of the database that returns a value and
-- the changed database, or raises. A raise rolls the whole block back. The row locks make the blocks
-- that touch one order run one after the other, so a block is one step.
use order_management_system.Prelude.{◌≡◌, arith, inl, inr, Bool, Option, none, some, not}
use order_management_system.Domain.Errors.{
  Result-cases, Error, Result, ok, err, raise_if, integrity_error, data_error,
}
use order_management_system.Models.{Db}

abbrev pub Tx : Type 0 → Type 0
Tx A = Db → Result (A × Db)

abbrev pub pure : {A : Type 0} → A → Tx A
pure a db = ok (a, db)

abbrev pub raise : {A : Type 0} → Error → Tx A
raise e db = err e

-- A computation that may raise and does not touch the database.
abbrev pub lift : {A : Type 0} → Result A → Tx A
lift r db = elim r [ ok a ↦ ok (a, db) | err e ↦ err e ]

abbrev pub gets : {A : Type 0} → (Db → A) → Tx A
gets f db = ok (f db, db)

abbrev pub modify : (Db → Db) → Tx (Unit {0})
modify f db = ok (tt, f db)

infixl 5 ◌>>=◌ ◌>>◌
abbrev pub ◌>>=◌ : {A B : Type 0} → Tx A → (A → Tx B) → Tx B
◌>>=◌ m f db = elim (m db) [ ok (a, db') ↦ f a db' | err e ↦ err e ]

abbrev pub ◌>>◌ : {A B : Type 0} → Tx A → Tx B → Tx B
m >> k = m >>= λ _. k

-- `if row is None: raise e`
abbrev pub or_raise : {A : Type 0} → Error → Option A → Tx A
or_raise e none = raise e
or_raise e (some a) = pure a

-- A constraint of the database.
abbrev pub check : Bool → Tx (Unit {0})
check b = lift (raise_if (not b) integrity_error)

-- What a column does not take is refused before the constraints are looked at.
abbrev pub check_columns : Bool → Tx (Unit {0})
check_columns b = lift (raise_if (not b) data_error)

-- The block as a whole: its result, and the database after the commit or the rollback.
abbrev pub begin : {A : Type 0} → Tx A → Db → Result A × Db
begin m db = elim (m db) [ ok (a, db') ↦ (ok a, db') | err e ↦ (err e, db) ]

-- A block that returns has returned at each of its steps.
pub >>=-inv :
    {A B : Type 0} (m : Tx A) (f : A → Tx B) {b : B} (db db' : Db)
    → (m >>= f) db ≡ ok (b, db')
    → (a : A) × (mid : Db) × (m db ≡ ok (a, mid)) × (f a mid ≡ ok (b, db'))
>>=-inv m f db db' h = elim (Result-cases (m db)) [
  | inl (e, failed) ↦ absurd (ground arith)
  | inr ((a, mid), done) ↦ (a, mid, done, ground arith)
]

pub >>pure-inv :
    {A B : Type 0} (m : Tx A) (c b : B) (db db' : Db)
    → (m >> pure c) db ≡ ok (b, db')
    → (a : A) × (m db ≡ ok (a, db'))
>>pure-inv m c b db db' h = elim (Result-cases (m db)) [
  | inl (e, failed) ↦ absurd (ground arith)
  | inr ((a, mid), done) ↦ (a, ground arith)
]

-- What every returning run of a block establishes holds after the commit or the rollback.
pub begin_keeps :
    {A : Type 0} (P : Db → Type 0) (m : Tx A) (db : Db)
    → P db
    → ((a : A) (db' : Db) → m db ≡ ok (a, db') → P db')
    → P (begin m db).1
begin_keeps P m db h step = elim (Result-cases (m db)) [
  | inl (e, failed) ↦ rw (failed, begin) h
  | inr ((a, db'), done) ↦ rw (done, begin) (step a db' done)
]
