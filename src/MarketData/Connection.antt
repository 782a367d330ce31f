-- ===== src/MarketData/Connection.antt =====
-- app/market_data/websocket_client.py: the loop around the feed. What the network does is given as the
-- connections that are tried, one after the other, until the task is cancelled.
use order_management_system.Prelude.{
  String, Bool, true, false, Option, none, some, List, [], ◌∷◌, str_eq, if◌then◌else◌,
}
use order_management_system.Models.{Db}
use order_management_system.MarketData.{Feed, Payload, handle_message}

-- A connection cannot be opened or subscribed on, or brings messages and is closed, in order or not.
pub data Connection : Type 0 where
  refused : Connection
  opened : List Payload → Bool → Connection

-- The messages of a connection, until one fails; with whether it was closed in order.
unfoldable pub listen : Feed → List Payload → Bool → Db → Bool × Db
listen feed [] in_order db = (in_order, db)
listen feed (message ∷ messages) in_order db =
    let (kept, db') = handle_message feed message db in
    let rest = listen feed messages in_order db' in if kept then rest else (false, db')

-- `_subscribe`: the symbols that are sent, if any.
abbrev pub subscribe : List String → List (List String)
subscribe [] = []
subscribe (symbol ∷ symbols) = (symbol ∷ symbols) ∷ []

-- What a turn of the loop sends, and whether it ends with a pause before the next connection.
pub record Turn : Type 0 where
  pub sent : List (List String)
  pub pauses : Bool

unfoldable pub connect : Feed → List String → Connection → Db → Turn × Db
connect feed symbols refused db = (record { sent = []; pauses = true }, db)
connect feed symbols (opened messages in_order) db =
    let (kept, db') = listen feed messages in_order db in
    (record { sent = subscribe symbols; pauses = if kept then false else true }, db')

abbrev pub turns : Feed → List String → List Connection → Db → List Turn × Db
turns feed symbols [] db = ([], db)
turns feed symbols (c ∷ cs) db =
    let (turn, db') = connect feed symbols c db in
    let (rest, db'') = turns feed symbols cs db' in (turn ∷ rest, db'')

-- Without a URL, or with an empty one, `run` returns at once.
abbrev pub has_url : Option String → Bool
has_url none = false
has_url (some url) = if str_eq url "" then false else true

unfoldable pub run : Feed → Option String → List String → List Connection → Db → List Turn × Db
run feed url symbols connections db =
    if has_url url then turns feed symbols connections db else ([], db)
