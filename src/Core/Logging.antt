-- ===== src/Core/Logging.antt =====
-- The log lines of payment-system/app/core/logging_config.py: the two context variables, the two
-- formatters, and the set-up.
use Prim.Native.String.{◌++◌, count}
use payment_system.Base.{
  ℕ, zero, suc, ◌-◌, String, Option, none, some, List, [], ◌∷◌, if◌then◌else◌,
}
use payment_system.Core.Settings.{Settings}

-- `request_id_ctx` and `user_id_ctx`, each with its value if it was set.
pub record Context : Type 0 where
  pub request_id : Option String
  pub user_id : Option String

-- `variable.get(default)`
abbrev pub get : Option String → String → String
get none default = default
get (some value) default = value

-- What the formatters read of a `LogRecord`; `exc_info` is the name of the exception's class and its
-- text.
pub record LogRecord : Type 0 where
  pub levelname : String
  pub module_name : String
  pub func_name : String
  pub lineno : ℕ
  pub message : String
  pub exc_info : Option (String × String)

pub data Value : Type 0 where
  string : String → Value
  number : ℕ → Value
  object : List (String × String) → Value

abbrev pub exception_entry : Option (String × String) → List (String × Value)
exception_entry none = []
exception_entry (some (class, text)) =
    ("exception", object (("type", class) ∷ ("message", text) ∷ [])) ∷ []

-- The dict of `JSONFormatter.format`; `now` is the text of the moment.
unfoldable pub log_entry : Settings → Context → String → LogRecord → List (String × Value)
log_entry settings context now r =
    ("timestamp", string now)
    ∷ ("level", string r.levelname)
    ∷ ("service", string settings.app_name)
    ∷ ("module", string r.module_name)
    ∷ ("function", string r.func_name)
    ∷ ("line", number r.lineno)
    ∷ ("message", string r.message)
    ∷ ("request_id", string (get context.request_id "-"))
    ∷ ("user_id", string (get context.user_id "anonymous"))
    ∷ exception_entry r.exc_info

-- `dumps` is `json.dumps(log_entry, default=str)`.
unfoldable pub json_format :
    (List (String × Value) → String) → Settings → Context → String → LogRecord → String
unfolding log_entry
json_format dumps settings context now r = dumps (log_entry settings context now r)

-- `text[:n]`
abbrev pub prefix : ℕ → String → String
prefix zero text = ""
prefix (suc n) String.[] = ""
prefix (suc n) (String.◌∷◌ c rest) = String.◌∷◌ c (prefix n rest)

abbrev pub spaces : ℕ → String
spaces zero = ""
spaces (suc n) = String.◌∷◌ " " (spaces n)

-- `f"{text:<n}"`
abbrev pub pad : ℕ → String → String
pad n text = text ++ spaces (n - count text)

-- `DevFormatter.format`; `now` is the time of day.
unfoldable pub dev_format : Context → String → LogRecord → String
dev_format context now r =
    now
    ++ " | "
    ++ pad 8 r.levelname
    ++ " | rid="
    ++ prefix 8 (get context.request_id "-")
    ++ " uid="
    ++ prefix 8 (get context.user_id "anon")
    ++ " | "
    ++ r.module_name
    ++ "."
    ++ r.func_name
    ++ " | "
    ++ r.message

pub data Formatter : Type 0 where
  json_formatter dev_formatter : Formatter

pub data Level : Type 0 where
  info warning : Level

-- The loggers that the set-up touches; each handler writes to the standard output.
pub record Loggers : Type 0 where
  pub root_level : Level
  pub handlers : List Formatter
  pub sqlalchemy_engine_level : Level
  pub uvicorn_access_level : Level

unfoldable pub setup_logging : Settings → Loggers → Loggers
setup_logging settings loggers = record {
  root_level = info;
  handlers = (if settings.debug then dev_formatter else json_formatter) ∷ [];
  sqlalchemy_engine_level = warning;
  uvicorn_access_level = warning;
}
