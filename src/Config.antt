-- ===== src/Config.antt =====
-- app/config.py: the settings, their defaults and their bounds. Reading them from the environment is
-- pydantic's. A duration that may be a fraction of a second counts units of 10^-3 seconds.
use order_management_system.Prelude.{
  ℕ, ◌≡◌, refl, String, Bool, true, false, Option, none, List, [], ◌∷◌, ◌&&◌, ltb, str_eq, arith,
  if◌then◌else◌,
}
use order_management_system.Models.{OrderCreate}
use order_management_system.Services.OrderService.{Surroundings, initial_order}
use order_management_system.Persistence.Queries.{is_expired}

-- What is given for a list: a list already, or a text.
pub data CsvInput : Type 0 where
  listed : List String → CsvInput
  csv : String → CsvInput

-- `[item.strip() for item in … if item.strip()]`
abbrev stripped : (String → String) → List String → List String
stripped strip [] = []
stripped strip (item ∷ items) =
    let rest = stripped strip items in if str_eq (strip item) "" then rest else strip item ∷ rest

-- `_split_csv`; `split` is `value.split(",")`.
unfoldable pub split_csv : (String → List String) → (String → String) → CsvInput → List String
split_csv split strip (listed items) = items
split_csv split strip (csv value) = stripped strip (split value)

pub record Settings : Type 0 where
  pub app_name : String
  pub app_version : String
  pub environment : String
  pub log_level : String
  pub database_url : String
  pub broker_min_delay_milliseconds : ℕ
  pub broker_max_delay_milliseconds : ℕ
  pub broker_random_seed : ℕ
  pub day_order_expiry_seconds : ℕ
  pub day_order_scan_interval_milliseconds : ℕ
  pub market_data_enabled : Bool
  pub market_data_url : Option String
  pub market_data_symbols : List String
  pub market_data_reconnect_milliseconds : ℕ
  pub cors_origins : List String

-- What is not given; only the database's URL must be.
abbrev pub default_settings : String → Settings
default_settings database_url = record {
  app_name = "Order Management System";
  app_version = "1.0.0";
  environment = "development";
  log_level = "INFO";
  database_url = database_url;
  broker_min_delay_milliseconds = 200;
  broker_max_delay_milliseconds = 800;
  broker_random_seed = 42;
  day_order_expiry_seconds = 300;
  day_order_scan_interval_milliseconds = 1000;
  market_data_enabled = false;
  market_data_url = none;
  market_data_symbols = [];
  market_data_reconnect_milliseconds = 5000;
  cors_origins = "http://localhost:3000" ∷ [];
}

-- `gt=0`; `ge=0` holds of every natural number.
unfoldable pub settings_valid : Settings → Bool
settings_valid settings =
    ltb 0 settings.day_order_expiry_seconds
    && ltb 0 settings.day_order_scan_interval_milliseconds
    && ltb 0 settings.market_data_reconnect_milliseconds

default_settings-valid : (url : String) → settings_valid (default_settings url) ≡ true
unfolding settings_valid
default_settings-valid url = refl

-- What the order service takes from the settings and from the time.
abbrev pub surroundings_of : Settings → ℕ → ℕ → Surroundings
surroundings_of settings order_id now = record {
  order_id = order_id;
  now = now;
  day_order_expiry_seconds = settings.day_order_expiry_seconds;
}

-- With valid settings, the scan for expired orders does not find an order at the time of its creation.
pub new_order_not_expired :
    (settings : Settings) (id now : ℕ) (payload : OrderCreate)
    → settings_valid settings ≡ true
    → is_expired now (initial_order (surroundings_of settings id now) payload) ≡ false
unfolding settings_valid initial_order
new_order_not_expired settings id now payload valid = ground arith
