-- ===== src/Logging.antt =====
-- app/logging_config.py: what a line of the log holds. `json.dumps` makes the text of it; the time and
-- the text of an exception are given, and a value under a key may be of any type.
use Prim.Native.String.{slice}
use order_management_system.Prelude.{
  String, Bool, false, Option, none, some, List, [], ◌∷◌, ◌||◌, ◌≡◌, refl, arith, str_eq,
  str_eq_iff, if◌then◌else◌, inl, inr, Bool-cases, Option-cases, ◌&&◌,
}
use order_management_system.Prelude.Table.{is_some}

-- `_STANDARD_LOG_RECORD_FIELDS`
abbrev pub standard_log_record_fields : List String
standard_log_record_fields =
    "name" ∷ "msg" ∷ "args" ∷ "levelname" ∷ "levelno" ∷ "pathname" ∷ "filename" ∷ "module"
    ∷ "exc_info" ∷ "exc_text" ∷ "stack_info" ∷ "lineno" ∷ "funcName" ∷ "created" ∷ "msecs"
    ∷ "relativeCreated" ∷ "thread" ∷ "threadName" ∷ "processName" ∷ "process" ∷ "taskName" ∷ []

abbrev pub contains_text : String → List String → Bool
contains_text key [] = false
contains_text key (k ∷ ks) = str_eq key k || contains_text key ks

-- A dictionary from texts.
abbrev pub Fields : Type 0 → Type 0
Fields V = List (String × V)

pub record LogRecord (V : Type 0) : Type 0 where
  pub timestamp : V
  pub level : V
  pub logger : V
  pub message : V
  pub attributes : Fields V
  pub exception : Option V

-- `payload[key] = value`: in place of the value under the key, or at the end.
unfoldable pub put_value : {V : Type 0} → String → V → Fields V → Fields V
put_value key value [] = (key, value) ∷ []
put_value key value ((k, v) ∷ fields) =
    let rest = put_value key value fields in
    if str_eq k key then (k, value) ∷ fields else (k, v) ∷ rest

abbrev pub value_of : {V : Type 0} → String → Fields V → Option V
value_of key [] = none
value_of key ((k, v) ∷ fields) =
    let rest = value_of key fields in if str_eq k key then some v else rest

-- `key.startswith("_")`
abbrev pub is_private : String → Bool
is_private key = str_eq (slice key 0 1) "_"

-- Attributes that are the record's own, or private.
abbrev pub is_hidden : String → Bool
is_hidden key = contains_text key standard_log_record_fields || is_private key

-- The loop over the attributes.
abbrev pub copy_attributes : {V : Type 0} → Fields V → Fields V → Fields V
copy_attributes [] payload = payload
copy_attributes ((key, value) ∷ attributes) payload =
    let skipped = copy_attributes attributes payload in
    let copied = copy_attributes attributes (put_value key value payload) in
    if is_hidden key then skipped else copied

abbrev add_exception : {V : Type 0} → Option V → Fields V → Fields V
add_exception none payload = payload
add_exception (some text) payload = put_value "exception" text payload

abbrev own_fields : {V : Type 0} → LogRecord V → Fields V
own_fields record_ =
    ("timestamp", record_.timestamp)
    ∷ ("level", record_.level)
    ∷ ("logger", record_.logger)
    ∷ ("message", record_.message)
    ∷ []

unfoldable pub format : {V : Type 0} → LogRecord V → Fields V
format record_ =
    add_exception record_.exception (copy_attributes record_.attributes (own_fields record_))

-- The value that is written under a key last.
abbrev pub latest : {V : Type 0} → String → Fields V → Option V → Option V
latest key [] before = before
latest key ((k, v) ∷ attributes) before =
    latest key attributes (if is_hidden k then before else if str_eq k key then some v else before)

pub value_of-put_value :
    {V : Type 0} (key k : String) (value : V) (fields : Fields V)
    → value_of key (put_value k value fields)
      ≡ (if str_eq k key then some value else value_of key fields)
unfolding put_value
value_of-put_value key k value [] = refl
value_of-put_value key k value ((k', v) ∷ fields) = ground (
  arith,
  value_of-put_value key k value fields,
  str_eq_iff k' k,
  str_eq_iff k key,
  str_eq_iff k' key,
)

value_of-copy :
    {V : Type 0} (key : String) (attributes payload : Fields V)
    → value_of key (copy_attributes attributes payload)
      ≡ latest key attributes (value_of key payload)
value_of-copy key [] payload = refl
value_of-copy key ((k, v) ∷ attributes) payload = elim (Bool-cases (is_hidden k)) [
  | inl hidden ↦ rw hidden (value_of-copy key attributes payload)
  | inr shown ↦
      rw (shown, ← value_of-put_value key k v payload)
        (value_of-copy key attributes (put_value k v payload))
]

-- The four values that every line starts with.
abbrev pub own_value : {V : Type 0} → LogRecord V → String → Option V
own_value r key =
    if str_eq "timestamp" key
    then some r.timestamp
    else if str_eq "level" key
    then some r.level
    else if str_eq "logger" key
    then some r.logger
    else if str_eq "message" key
    then some r.message
    else none

-- Under a key, a line of the log has the text of the exception where there is one and the key is its; or
-- else the value of the last attribute of that name, unless the record or the logging library keeps the
-- name to itself; or else the time, the level, the logger or the message.
pub value_of-format :
    {V : Type 0} (r : LogRecord V) (key : String)
    → value_of key (format r) ≡ (
        if str_eq "exception" key && is_some r.exception
        then r.exception
        else latest key r.attributes (own_value r key))
unfolding format
value_of-format r key =
    let first = own_fields r in
    elim (Option-cases r.exception) [
      | inl quiet ↦ ground (arith, value_of-copy key r.attributes first)
      | inr (text, raised) ↦ ground (
        arith,
        value_of-copy key r.attributes first,
        value_of-put_value key "exception" text (copy_attributes r.attributes first),
      )
    ]
