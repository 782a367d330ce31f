-- ===== src/Persistence/Keeps.antt =====
-- What a computation keeps, step by step: rules for the parts of a `do` block.
use order_management_system.Prelude.{
  subst, if◌then◌else◌, ◌≡◌, Bool, true, false, Option, none, some,
}
use order_management_system.Domain.Errors.{Result, ok, err, Error}
use order_management_system.Models.{Db}
use order_management_system.Persistence.Session.{
  Tx, pure, raise, lift, gets, modify, or_raise, check, check_columns, begin, begin_keeps, ◌>>=◌,
  >>=-inv,
}

module _ (P : Db → Type 0) where
  -- Wherever the computation returns, it returns with P if it started with P.
  abbrev pub Keeps : {A : Type 0} → Tx A → Type 0
  Keeps {A} m = (db : Db) (a : A) (db' : Db) → m db ≡ ok (a, db') → P db → P db'

  pub pure-Keeps : {A : Type 0} (a : A) → Keeps (pure a)
  pure-Keeps a db b db' h p = subst P (cc h) p

  pub raise-Keeps : {A : Type 0} (e : Error) → Keeps {A = A} (raise e)
  raise-Keeps e db b db' h p = absurd (cc h)

  pub lift-Keeps : {A : Type 0} (r : Result A) → Keeps (lift r)
  lift-Keeps (ok a) db b db' h p = subst P (cc h) p
  lift-Keeps (err e) db b db' h p = absurd (cc h)

  pub gets-Keeps : {A : Type 0} (f : Db → A) → Keeps (gets f)
  gets-Keeps f db b db' h p = subst P (cc h) p

  pub check-Keeps : (b : Bool) → Keeps (check b)
  check-Keeps true db b db' h p = subst P (cc h) p
  check-Keeps false db b db' h p = absurd (cc h)

  pub check_columns-Keeps : (b : Bool) → Keeps (check_columns b)
  check_columns-Keeps true db b db' h p = subst P (cc h) p
  check_columns-Keeps false db b db' h p = absurd (cc h)

  pub or_raise-Keeps : {A : Type 0} (e : Error) (o : Option A) → Keeps (or_raise e o)
  or_raise-Keeps e none = raise-Keeps e
  or_raise-Keeps e (some a) = pure-Keeps a

  pub if-Keeps :
      {A : Type 0} (b : Bool) {m n : Tx A} → Keeps m → Keeps n → Keeps (if b then m else n)
  if-Keeps true first second = first
  if-Keeps false first second = second

  pub option-Keeps :
      {A B : Type 0} (o : Option B) {m : Tx A} {f : B → Tx A}
      → Keeps m
      → ((b : B) → Keeps (f b))
      → Keeps (elim o [ none ↦ m | some b ↦ f b ])
  option-Keeps none missing found = missing
  option-Keeps (some b) missing found = found b

  pub result-Keeps :
      {A B : Type 0} (r : Result B) {f : B → Tx A} {g : Error → Tx A}
      → ((b : B) → Keeps (f b))
      → ((e : Error) → Keeps (g e))
      → Keeps (elim r [ ok b ↦ f b | err e ↦ g e ])
  result-Keeps (ok b) done failed = done b
  result-Keeps (err e) done failed = failed e

  pub modify-Keeps : (f : Db → Db) → ((db : Db) → P db → P (f db)) → Keeps (modify f)
  modify-Keeps f keep db b db' h p = subst P (cc h) (keep db p)

  pub >>=-Keeps :
      {A B : Type 0} {m : Tx A} {f : A → Tx B} → Keeps m → ((a : A) → Keeps (f a)) → Keeps (m >>= f)
  >>=-Keeps {m = m} {f = f} first then_ db b db' h p =
      let (a, mid, done, rest) = >>=-inv m f db db' h in
      then_ a mid b db' rest (first db a mid done p)

  pub begin-Keeps : {A : Type 0} (m : Tx A) → Keeps m → (db : Db) → P db → P (begin m db).1
  begin-Keeps m keep db p = begin_keeps P m db p λ a db' run. keep db a db' run p
