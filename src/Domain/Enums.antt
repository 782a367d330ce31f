-- ===== src/Domain/Enums.antt =====
-- app/domain/enums.py: each `StrEnum` is a data type, with its Boolean equality and its text.
use order_management_system.Prelude.{
  ℕ, String, ◌≡◌, ◌↔◌, Bool, true, arith, ◌==◌, List, [], ◌∷◌, ◌||◌, false,
}

pub data OrderSide : Type 0 where
  buy sell : OrderSide

pub data OrderType : Type 0 where
  market limit : OrderType

pub data TimeInForce : Type 0 where
  day gtc ioc : TimeInForce

pub data OrderStatus : Type 0 where
  new validated routed partially_filled filled rejected cancel_pending cancelled : OrderStatus

pub data BrokerEventType : Type 0 where
  full_fill partial_fill rejected cancelled : BrokerEventType

pub data OrderEventType : Type 0 where
  order_created order_validated validation_failed order_routed : OrderEventType
  partial_fill_received full_fill_received cancel_requested : OrderEventType
  order_cancelled order_rejected broker_event_ignored : OrderEventType

abbrev pub is_buy : OrderSide → Bool
is_buy buy = true
is_buy sell = false

-- A number for each member, by which members are compared.
abbrev pub side_index : OrderSide → ℕ
side_index buy = 0
side_index sell = 1

abbrev pub type_index : OrderType → ℕ
type_index market = 0
type_index limit = 1

abbrev pub tif_index : TimeInForce → ℕ
tif_index day = 0
tif_index gtc = 1
tif_index ioc = 2

abbrev pub status_index : OrderStatus → ℕ
status_index new = 0
status_index validated = 1
status_index routed = 2
status_index partially_filled = 3
status_index filled = 4
status_index OrderStatus.rejected = 5
status_index cancel_pending = 6
status_index OrderStatus.cancelled = 7

abbrev pub status_eq : OrderStatus → OrderStatus → Bool
status_eq a b = status_index a == status_index b

pub status_eq_iff : (a b : OrderStatus) → (status_eq a b ≡ true) ↔ (a ≡ b)
status_eq_iff a b = ground arith

-- `status in {…}`
abbrev pub status_in : OrderStatus → List OrderStatus → Bool
status_in s [] = false
status_in s (t ∷ ts) = status_eq s t || status_in s ts

abbrev pub status_value : OrderStatus → String
status_value new = "NEW"
status_value validated = "VALIDATED"
status_value routed = "ROUTED"
status_value partially_filled = "PARTIALLY_FILLED"
status_value filled = "FILLED"
status_value OrderStatus.rejected = "REJECTED"
status_value cancel_pending = "CANCEL_PENDING"
status_value OrderStatus.cancelled = "CANCELLED"

abbrev pub broker_event_value : BrokerEventType → String
broker_event_value full_fill = "FULL_FILL"
broker_event_value partial_fill = "PARTIAL_FILL"
broker_event_value BrokerEventType.rejected = "REJECTED"
broker_event_value BrokerEventType.cancelled = "CANCELLED"
