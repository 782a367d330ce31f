-- ===== src/MarketData/Ticks.antt =====
-- What is read from a message of the feed.
use order_management_system.Prelude.{
  ℕ, ◌≡◌, refl, Bool, true, false, String, Option, none, some, List, [], ◌∷◌, ◌++◌, ◌&&◌, ◌||◌, not,
  ap, ◌∙◌, ltb, if◌then◌else◌, arith, inl, inr, Bool-cases,
}
use order_management_system.Prelude.Int.{pos, negsuc}
use order_management_system.Models.{Db}
use order_management_system.MarketData.{
  Number, finite, Feed, Element, dictionary, priced, Value, truthy, is_none, value_text,
  parse_timestamp, read_values, Payload, single, several, not_json, Tick, Reading, raises, skipped,
  tick, read_element, with_tick, extract_elements, extract_ticks, handle_message,
}

abbrev pub is_positive : Number → Bool
is_positive (finite (pos n)) = ltb 0 n
is_positive Number.infinity = true
is_positive (finite (negsuc n)) = false
is_positive Number.minus_infinity = false
is_positive Number.nan = false

abbrev pub all_positive : List Tick → Bool
all_positive [] = true
all_positive (t ∷ ticks) = is_positive t.price && all_positive ticks

priced-positive :
    (symbol : String) (price : Option Number) (time : Option ℕ) (t : Tick)
    → priced symbol price time ≡ tick t
    → is_positive t.price ≡ true
priced-positive symbol none time t h = absurd (cc h)
priced-positive symbol (some Number.nan) time t h = absurd (cc h)
priced-positive symbol (some Number.minus_infinity) time t h = absurd (cc h)
priced-positive symbol (some (finite (negsuc n))) time t h = absurd (cc h)
priced-positive symbol (some (finite (pos n))) none t h = ground arith
priced-positive symbol (some (finite (pos n))) (some at) t h = elim (Bool-cases (ltb 0 n)) [
  | inl more ↦ ground arith
  | inr nothing ↦ ground arith
]
priced-positive symbol (some Number.infinity) none t h = ground arith
priced-positive symbol (some Number.infinity) (some at) t h = ground arith

guarded-positive :
    (passed : Bool) (symbol : String) (price : Option Number) (time : Option ℕ) (t : Tick)
    → (if passed then skipped else priced symbol price time) ≡ tick t
    → is_positive t.price ≡ true
guarded-positive true symbol price time t h = absurd (cc h)
guarded-positive false symbol price time t h = priced-positive symbol price time t h

read_values-positive :
    (feed : Feed) (symbol raw_price raw_timestamp : Value) (t : Tick)
    → read_values feed symbol raw_price raw_timestamp ≡ tick t
    → is_positive t.price ≡ true
unfolding read_values
read_values-positive feed symbol raw_price raw_timestamp t h =
    guarded-positive (not (truthy symbol) || is_none raw_price)
      (feed.upper (value_text feed symbol)) (feed.read_decimal (value_text feed raw_price))
      (parse_timestamp feed raw_timestamp) t h

read_element-positive :
    (feed : Feed) (e : Element) (t : Tick)
    → read_element feed e ≡ tick t
    → is_positive t.price ≡ true
unfolding read_element
read_element-positive feed Element.other t h = absurd (cc h)
read_element-positive feed (dictionary fields) t h = read_values-positive feed _ _ _ t h

with_tick-positive :
    (r : Reading) (rest : Option (List Tick)) (ticks : List Tick)
    → ((t : Tick) → r ≡ tick t → is_positive t.price ≡ true)
    → ((later : List Tick) → rest ≡ some later → all_positive later ≡ true)
    → with_tick r rest ≡ some ticks
    → all_positive ticks ≡ true
with_tick-positive raises rest ticks first later h = absurd (cc h)
with_tick-positive skipped rest ticks first later h = later ticks h
with_tick-positive (tick t) none ticks first later h = absurd (cc h)
with_tick-positive (tick t) (some others) ticks first later h =
    ground (arith, first t refl, later others refl)

extract_elements-positive :
    (feed : Feed) (es : List Element) (ticks : List Tick)
    → extract_elements feed es ≡ some ticks
    → all_positive ticks ≡ true
unfolding extract_elements
extract_elements-positive feed [] ticks h = ground arith
extract_elements-positive feed (e ∷ es) ticks h =
    with_tick-positive (read_element feed e) (extract_elements feed es) ticks
      (read_element-positive feed e) (extract_elements-positive feed es) h

-- Every tick that is read from a message has a positive price.
pub extract_ticks-positive :
    (feed : Feed) (payload : Payload) (ticks : List Tick)
    → extract_ticks feed payload ≡ some ticks
    → all_positive ticks ≡ true
unfolding extract_ticks
extract_ticks-positive feed not_json ticks h = ground arith
extract_ticks-positive feed (single e) ticks h = extract_elements-positive feed (e ∷ []) ticks h
extract_ticks-positive feed (several es) ticks h = extract_elements-positive feed es ticks h

extract_elements_raises :
    (feed : Feed) (before after : List Element) (e : Element)
    → read_element feed e ≡ raises
    → extract_elements feed (before ++ e ∷ after) ≡ none
unfolding extract_elements
extract_elements_raises feed [] after e h = rw h refl
extract_elements_raises feed (x ∷ before) after e h =
    ground (arith, extract_elements_raises feed before after e h)

-- The elements that a message brings.
abbrev pub elements : Payload → List Element
elements not_json = []
elements (single e) = e ∷ []
elements (several es) = es

extract_ticks_raises :
    (feed : Feed) (message : Payload) (before after : List Element) (e : Element)
    → elements message ≡ before ++ e ∷ after
    → read_element feed e ≡ raises
    → extract_ticks feed message ≡ none
unfolding extract_ticks
extract_ticks_raises feed not_json [] after e brings h = absurd (cc brings)
extract_ticks_raises feed not_json (x ∷ before) after e brings h = absurd (cc brings)
extract_ticks_raises feed (single x) before after e brings h =
    ap (extract_elements feed) brings ∙ extract_elements_raises feed before after e h
extract_ticks_raises feed (several es) before after e brings h =
    ap (extract_elements feed) brings ∙ extract_elements_raises feed before after e h

-- An element whose reading raises, such as one whose price is not a number, costs the whole message:
-- no tick of it is applied, and the connection is dropped.
pub handle_message_raises :
    (feed : Feed) (message : Payload) (before after : List Element) (e : Element) (db : Db)
    → elements message ≡ before ++ e ∷ after
    → read_element feed e ≡ raises
    → handle_message feed message db ≡ (false, db)
unfolding handle_message
handle_message_raises feed message before after e db brings h =
    rw (extract_ticks_raises feed message before after e brings h, handle_message) refl
