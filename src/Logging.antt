-- ===== src/Logging.antt =====
-- src/core/logging.py: `setup_logging`, which the API and both workers call at their start. The
-- modules `logging` and `structlog` are parameters.
use saga_orchestrator_patter.Base.{
  ℕ, ◌≡◌, ap, ◌∙◌, String, Bool, true, false, not, ◌&&◌, ◌||◌, Option, none, some, List, [], ◌∷◌,
  ◌++◌, arith, leb, keep, str_eq, if◌then◌else◌, Option-cases, inl, inr,
}

-- The standard numbers of the levels.
abbrev pub debug_level : ℕ
debug_level = 10

abbrev pub info_level : ℕ
info_level = 20

pub data Processor : Type 0 where
  merge_contextvars add_logger_name add_log_level positional_arguments_formatter : Processor
  time_stamper_iso stack_info_renderer unicode_decoder : Processor
  filter_by_level wrap_for_formatter : Processor

pub data Renderer : Type 0 where
  json_renderer console_renderer : Renderer

-- A `ProcessorFormatter` with its `foreign_pre_chain`.
pub record Formatter : Type 0 where
  pub renderer : Renderer
  pub foreign_pre_chain : List Processor

-- A StreamHandler on the standard output.
pub record Handler : Type 0 where
  pub level : ℕ
  pub formatter : Formatter

-- The name of a logger by its parts, the last one first: "saga.worker" is "worker" ∷ "saga" ∷ [], its
-- parent is the rest, and the root has no part.
abbrev pub Name : Type 0
Name = List String

pub record Logger : Type 0 where
  pub handlers : List Handler
  pub level : ℕ
  pub propagate : Bool

pub record LoggingConfig : Type 0 where
  pub root : Logger
  pub loggers : List (Name × Logger)

abbrev pub processors : List Processor
processors =
    merge_contextvars ∷ add_logger_name ∷ add_log_level ∷ positional_arguments_formatter
    ∷ time_stamper_iso ∷ stack_info_renderer ∷ unicode_decoder ∷ []

abbrev pub log_level : Bool → ℕ
log_level debug_mode = if debug_mode then debug_level else info_level

abbrev pub default_handler : Bool → Handler
default_handler debug_mode = record {
  level = log_level debug_mode;
  formatter = record {
    renderer = if debug_mode then console_renderer else json_renderer;
    foreign_pre_chain = processors;
  };
}

abbrev pub logger : Bool → Bool → Logger
logger debug_mode propagate = record {
  handlers = default_handler debug_mode ∷ [];
  level = log_level debug_mode;
  propagate = propagate;
}

-- The dictionary for `dictConfig`.
unfoldable pub logging_config : Bool → LoggingConfig
logging_config debug_mode = record {
  root = logger debug_mode true;
  loggers =
      ("uvicorn" ∷ [], logger debug_mode false)
      ∷ ("engine" ∷ "sqlalchemy" ∷ [], logger debug_mode false)
      ∷ ("saga" ∷ [], logger debug_mode false)
      ∷ [];
}

-- The processors for `structlog.configure`.
abbrev pub structlog_processors : List Processor
structlog_processors = filter_by_level ∷ (processors ++ wrap_for_formatter ∷ [])

abbrev pub same_name : Name → Name → Bool
same_name [] [] = true
same_name (a ∷ as') (b ∷ bs) = str_eq a b && same_name as' bs
same_name _ _ = false

abbrev pub get_logger : Name → List (Name × Logger) → Option Logger
get_logger name [] = none
get_logger name ((n, l) ∷ ls) = if same_name n name then some l else get_logger name ls

-- The module `logging` of a process, once `dictConfig` has run. `is_set_up` tells the loggers that
-- the process had given a handler, a level or a setting of `propagate` before, such as those of arq's
-- command line: with `disable_existing_loggers` False they stay as they are, unless the dictionary
-- names them. Any other logger that it does not name has no handler, no level, and propagates. A
-- record goes to the handlers of its logger and, while the loggers propagate, of its ancestors; the
-- level of a logger is its own or that of the nearest ancestor that has one.
pub record StandardLogging : Type 0 where
  pub is_set_up : Name → Bool
  pub handlers : LoggingConfig → Name → List Handler
  pub level : LoggingConfig → Name → ℕ
  pub handlers-root : (c : LoggingConfig) → handlers c [] ≡ c.root.handlers
  pub handlers-none :
      (c : LoggingConfig) (part : String) (parent : Name)
      → get_logger (part ∷ parent) c.loggers ≡ none
      → is_set_up (part ∷ parent) ≡ false
      → handlers c (part ∷ parent) ≡ handlers c parent
  pub handlers-some :
      (c : LoggingConfig) (part : String) (parent : Name) (l : Logger)
      → get_logger (part ∷ parent) c.loggers ≡ some l
      → handlers c (part ∷ parent) ≡ l.handlers ++ (if l.propagate then handlers c parent else [])
  pub level-root : (c : LoggingConfig) → level c [] ≡ c.root.level
  pub level-none :
      (c : LoggingConfig) (part : String) (parent : Name)
      → get_logger (part ∷ parent) c.loggers ≡ none
      → is_set_up (part ∷ parent) ≡ false
      → level c (part ∷ parent) ≡ level c parent
  pub level-some :
      (c : LoggingConfig) (part : String) (parent : Name) (l : Logger)
      → get_logger (part ∷ parent) c.loggers ≡ some l
      → level c (part ∷ parent) ≡ l.level

abbrev is_named : Option Logger → Bool
is_named none = false
is_named (some l) = true

-- Up to the nearest ancestor that the dictionary names, the logger itself included, no logger was
-- set up before.
abbrev pub is_fresh : StandardLogging → LoggingConfig → Name → Bool
is_fresh std c [] = true
is_fresh std c (part ∷ parent) =
    is_named (get_logger (part ∷ parent) c.loggers)
    || (not (std.is_set_up (part ∷ parent)) && is_fresh std c parent)

-- The handlers that write a record of level `n`: the logger lets it pass, and so does the handler.
unfoldable pub written_by : StandardLogging → LoggingConfig → Name → ℕ → List Handler
written_by std c name n =
    if leb (std.level c name) n then keep (λ h. leb h.level n) (std.handlers c name) else []

get_logger-logging_config :
    (debug_mode : Bool) (name : Name) (l : Logger)
    → get_logger name (logging_config debug_mode).loggers ≡ some l
    → l ≡ logger debug_mode false
unfolding logging_config
get_logger-logging_config debug_mode name l found = ground arith

module _ (std : StandardLogging) (debug_mode : Bool) where
  abbrev config : LoggingConfig
  config = logging_config debug_mode

  handlers_once :
      (name : Name)
      → is_fresh std config name ≡ true
      → std.handlers config name ≡ default_handler debug_mode ∷ []
  unfolding logging_config
  handlers_once [] fresh = std.handlers-root config
  handlers_once (part ∷ parent) fresh =
      elim (Option-cases (get_logger (part ∷ parent) config.loggers)) [
        | inl unset ↦
            std.handlers-none config part parent unset (ground arith)
            ∙ handlers_once parent (ground arith)
        | inr (l, found) ↦
            std.handlers-some config part parent l found
            ∙ ap
                (λ (m : Logger).
                  m.handlers ++ (if m.propagate then std.handlers config parent else []))
                (get_logger-logging_config debug_mode (part ∷ parent) l found)
      ]

  level_everywhere :
      (name : Name) → is_fresh std config name ≡ true → std.level config name ≡ log_level debug_mode
  unfolding logging_config
  level_everywhere [] fresh = std.level-root config
  level_everywhere (part ∷ parent) fresh =
      elim (Option-cases (get_logger (part ∷ parent) config.loggers)) [
        | inl unset ↦
            std.level-none config part parent unset (ground arith)
            ∙ level_everywhere parent (ground arith)
        | inr (l, found) ↦
            std.level-some config part parent l found
            ∙ ap (λ (m : Logger). m.level)
                (get_logger-logging_config debug_mode (part ∷ parent) l found)
      ]

  -- By the rules of the module logging, a record of a logger is written exactly once if its level
  -- is at least INFO, or at least DEBUG in debug mode, as JSON or, in debug mode, for the console;
  -- a record below that level is not written. The logger must not have been set up before, and
  -- neither may any ancestor below the nearest one that the configuration names.
  pub written_once :
      (name : Name) (n : ℕ)
      → is_fresh std config name ≡ true
      → written_by std config name n ≡ (
          if leb (if debug_mode then 10 else 20) n
          then record {
            level = if debug_mode then 10 else 20;
            formatter = record {
              renderer = if debug_mode then console_renderer else json_renderer;
              foreign_pre_chain = processors;
            };
          }
            ∷ []
          else [])
  unfolding written_by
  written_once name n fresh = ground (arith, handlers_once name fresh, level_everywhere name fresh)
