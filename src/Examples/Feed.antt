-- ===== src/Examples/Feed.antt =====
-- The theorems on the messages of the feed, on a feed that knows a few texts.
use order_management_system.Prelude.{
  ◌≡◌, refl, true, String, Option, none, some, [], ◌∷◌, str_eq, if◌then◌else◌,
}
use order_management_system.Prelude.Int.{pos}
use order_management_system.MarketData.{
  Feed, Number, finite, nan, text, number, Element, dictionary, other, several, Tick, read_element,
  read_values, parse_timestamp, extract_elements, extract_ticks,
}
use order_management_system.MarketData.Ticks.{all_positive, extract_ticks-positive}

abbrev price_of : String → Option Number
price_of s =
    if str_eq s "105"
    then some (finite (pos 10500000000))
    else if str_eq s "NaN"
    then some nan
    else none

abbrev pub feed : Feed
feed = record {
  show = λ n. "0";
  read_decimal = price_of;
  upper = λ s. s;
  from_seconds = λ n. some 2000;
  from_text = λ s. none;
  now = 3000;
}

abbrev pub quote : String → Element
quote price =
    dictionary
      (("symbol", text "RELIANCE") ∷ ("ltp", text price) ∷ ("time", number (finite (pos 7))) ∷ [])

abbrev quoted : Tick
quoted = record { symbol = "RELIANCE"; price = finite (pos 10500000000); observed_at = 2000 }

reading :
    extract_ticks feed (several (quote "105" ∷ quote "soon" ∷ other ∷ [])) ≡ some (quoted ∷ [])
unfolding extract_ticks extract_elements read_element read_values parse_timestamp
reading = refl

extract_ticks-positive_example : all_positive (quoted ∷ []) ≡ true
extract_ticks-positive_example =
    extract_ticks-positive feed (several (quote "105" ∷ quote "soon" ∷ other ∷ [])) (quoted ∷ [])
      reading
