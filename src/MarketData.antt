-- ===== src/MarketData.antt =====
-- app/market_data/websocket_client.py: how ticks are read from a message of the feed and applied. What
-- `json.loads` returns is given; `str` of a number, `Decimal` of a text, the two readers of a time and
-- the present time are arguments. A number counts units of 10^-8, and so do seconds.
pub mod Ticks
pub mod Connection
use order_management_system.Prelude.{
  ℕ, ◌/◌, String, Bool, true, false, not, Option, none, some, List, [], ◌∷◌, ltb, ◌==◌, ◌||◌,
  str_eq, if◌then◌else◌,
}
use order_management_system.Prelude.Int.{ℤ, pos, negsuc}
use order_management_system.Domain.Errors.{Result, ok, err, integrity_error, data_error}
use order_management_system.Models.{Db}
use order_management_system.Services.MarketDataService.{apply_tick}

-- A float or a `Decimal`.
pub data Number : Type 0 where
  finite : ℤ → Number
  infinity minus_infinity nan : Number

-- A value in a record. Of a list or an object only matters whether it is empty, and its text.
pub data Value : Type 0 where
  null : Value
  boolean : Bool → Value
  number : Number → Value
  text : String → Value
  compound : Bool → String → Value

-- An element of a message: a dictionary, or something else.
pub data Element : Type 0 where
  dictionary : List (String × Value) → Element
  other : Element

-- What `json.loads` makes of a message.
pub data Payload : Type 0 where
  not_json : Payload
  single : Element → Payload
  several : List Element → Payload

pub record Feed : Type 0 where
  pub show : Number → String
  pub read_decimal : String → Option Number
  pub upper : String → String
  -- `datetime.fromtimestamp`, which may raise, and `datetime.fromisoformat` with its correction of a text
  pub from_seconds : Number → Option ℕ
  pub from_text : String → Option ℕ
  pub now : ℕ

pub record Tick : Type 0 where
  pub symbol : String
  pub price : Number
  pub observed_at : ℕ

-- `record.get(key)`
abbrev get : String → List (String × Value) → Value
get key [] = null
get key ((k, v) ∷ fields) = let rest = get key fields in if str_eq k key then v else rest

abbrev pub truthy : Value → Bool
truthy null = false
truthy (boolean b) = b
truthy (number (finite (pos n))) = ltb 0 n
truthy (number _) = true
truthy (text s) = not (str_eq s "")
truthy (compound some_items s) = some_items

-- `a or b`
abbrev or_value : Value → Value → Value
or_value a b = if truthy a then a else b

abbrev pub is_none : Value → Bool
is_none null = true
is_none _ = false

-- `str`
abbrev pub value_text : Feed → Value → String
value_text feed null = "None"
value_text feed (boolean true) = "True"
value_text feed (boolean false) = "False"
value_text feed (number n) = feed.show n
value_text feed (text s) = s
value_text feed (compound some_items s) = s

abbrev billions : ℕ
billions = 1000000000000000000

-- Milliseconds are taken for what they are by their size.
abbrev as_seconds : Number → Number
as_seconds (finite (pos n)) = if ltb billions n then finite (pos (n / 1000)) else finite (pos n)
as_seconds n = n

-- `_parse_timestamp`, where it does not raise. A Boolean is an integer.
unfoldable pub parse_timestamp : Feed → Value → Option ℕ
parse_timestamp feed (number n) = feed.from_seconds (as_seconds n)
parse_timestamp feed (boolean true) = feed.from_seconds (finite (pos 100000000))
parse_timestamp feed (boolean false) = feed.from_seconds (finite (pos 0))
parse_timestamp feed (text s) = elim (feed.from_text s) [
  | none ↦ some feed.now
  | some time ↦ some time
]
parse_timestamp feed null = some feed.now
parse_timestamp feed (compound some_items s) = some feed.now

-- What becomes of one element: an exception leaves the method, the element is passed over, or it is a
-- tick.
pub data Reading : Type 0 where
  raises : Reading
  skipped : Reading
  tick : Tick → Reading

abbrev timed : String → Number → Option ℕ → Reading
timed symbol price none = raises
timed symbol price (some observed_at) =
    tick (record { symbol = symbol; price = price; observed_at = observed_at })

-- `if price <= 0`: a comparison with NaN raises, outside the `try`.
abbrev pub priced : String → Option Number → Option ℕ → Reading
priced symbol none time = skipped
priced symbol (some nan) time = raises
priced symbol (some minus_infinity) time = skipped
priced symbol (some (finite (negsuc n))) time = skipped
priced symbol (some (finite (pos n))) time =
    if ltb 0 n then timed symbol (finite (pos n)) time else skipped
priced symbol (some infinity) time = timed symbol infinity time

-- What is made of the symbol, the price and the time of a record.
unfoldable pub read_values : Feed → Value → Value → Value → Reading
read_values feed symbol raw_price raw_timestamp =
    if not (truthy symbol) || is_none raw_price
    then skipped
    else priced (feed.upper (value_text feed symbol))
        (feed.read_decimal (value_text feed raw_price)) (parse_timestamp feed raw_timestamp)

unfoldable pub read_element : Feed → Element → Reading
read_element feed other = skipped
read_element feed (dictionary fields) =
    read_values feed (or_value (get "symbol" fields) (get "s" fields))
      (or_value (get "price" fields)
        (or_value (get "ltp" fields) (or_value (get "last_price" fields) (get "p" fields))))
      (or_value (get "timestamp" fields) (get "time" fields))

abbrev pub with_tick : Reading → Option (List Tick) → Option (List Tick)
with_tick raises rest = none
with_tick skipped rest = rest
with_tick (tick t) none = none
with_tick (tick t) (some ticks) = some (t ∷ ticks)

-- The loop of `_extract_ticks`, where no exception leaves it.
unfoldable pub extract_elements : Feed → List Element → Option (List Tick)
extract_elements feed [] = some []
extract_elements feed (e ∷ es) = with_tick (read_element feed e) (extract_elements feed es)

unfoldable pub extract_ticks : Feed → Payload → Option (List Tick)
extract_ticks feed not_json = some []
extract_ticks feed (single e) = extract_elements feed (e ∷ [])
extract_ticks feed (several es) = extract_elements feed es

-- One tick, with its price as rounded to the eight places of the column: no column takes an infinite price,
-- and a negative one is not read. A price or a symbol that is too long is refused by `upsert`.
abbrev pub apply_priced : Feed → String → Number → ℕ → Db → Result (Unit {0}) × Db
apply_priced feed symbol (finite (pos price)) observed_at db =
    apply_tick feed.upper symbol price observed_at db
apply_priced feed symbol (finite (negsuc n)) observed_at db = (err integrity_error, db)
apply_priced feed symbol infinity observed_at db = (err data_error, db)
apply_priced feed symbol minus_infinity observed_at db = (err data_error, db)
apply_priced feed symbol nan observed_at db = (err integrity_error, db)

-- The ticks of one message are applied in turn, until one fails; with whether the connection is kept.
unfoldable pub apply_ticks : Feed → List Tick → Db → Bool × Db
apply_ticks feed [] db = (true, db)
apply_ticks feed (t ∷ ticks) db =
    let (r, db') = apply_priced feed t.symbol t.price t.observed_at db in
    let rest = apply_ticks feed ticks db' in elim r [ ok _ ↦ rest | err e ↦ (false, db') ]

-- One message in `run`.
unfoldable pub handle_message : Feed → Payload → Db → Bool × Db
handle_message feed payload db = elim (extract_ticks feed payload) [
  | none ↦ (false, db)
  | some ticks ↦ apply_ticks feed ticks db
]
