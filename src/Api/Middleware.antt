-- ===== src/Api/Middleware.antt =====
-- app/main.py: the log of requests. The handler's answer, a new UUID and the duration are given; an
-- exception that no handler knows is none.
use order_management_system.Prelude.{
  ℕ, String, Bool, true, false, Option, none, some, [], ◌∷◌, ◌++◌, leb,
}
use order_management_system.Logging.{Fields}

pub data LogValue : Type 0 where
  text : String → LogValue
  number : ℕ → LogValue

-- The header `X-Request-ID`, the method and the path.
pub record Request : Type 0 where
  pub request_id : Option String
  pub method : String
  pub path : String

-- The body does not matter here.
pub record HttpReply (B : Type 0) : Type 0 where
  pub status_code : ℕ
  pub request_id : Option String
  pub body : B

-- `request.headers.get("X-Request-ID", str(uuid4()))`
abbrev pub request_id_of : String → Request → String
request_id_of new_id request = elim request.request_id [ none ↦ new_id | some id ↦ id ]

abbrev about_request : String → Request → Fields LogValue
about_request request_id request =
    ("request_id", text request_id)
    ∷ ("method", text request.method)
    ∷ ("path", text request.path)
    ∷ []

-- The levels of `logging`.
pub data LogLevel : Type 0 where
  debug info warning error critical : LogLevel

abbrev pub level_number : LogLevel → ℕ
level_number debug = 10
level_number info = 20
level_number warning = 30
level_number error = 40
level_number critical = 50

-- What is handed to the logger, and whether with the exception.
pub record Entry : Type 0 where
  pub message : String
  pub extra : Fields LogValue
  pub level : LogLevel
  pub with_exception : Bool

-- Whether the logger writes the entry, at the level that `configure_logging` has set.
abbrev pub is_written : LogLevel → Entry → Bool
is_written threshold entry = leb (level_number threshold) (level_number entry.level)

unfoldable pub request_logging_middleware :
    {B : Type 0} → String → ℕ → Request → Option (HttpReply B) → Option (HttpReply B) × Entry
request_logging_middleware new_id duration_ms request none = (
  none,
  record {
    message = "Unhandled request failure";
    extra = about_request (request_id_of new_id request) request;
    level = error;
    with_exception = true;
  },
)
request_logging_middleware new_id duration_ms request (some response) = (
  some (record response { request_id = some (request_id_of new_id request) }),
  record {
    message = "Request completed";
    extra =
        about_request (request_id_of new_id request) request
        ++ ("status_code", number response.status_code) ∷ ("duration_ms", number duration_ms) ∷ [];
    level = info;
    with_exception = false;
  },
)
