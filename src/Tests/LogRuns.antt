-- ===== src/Tests/LogRuns.antt =====
-- The logging of the services, with a plain reading of what the module `logging` does.
use saga_orchestrator_patter.Base.{
  ℕ, ◌≡◌, String, refl, true, false, Bool, Option, none, some, List, [], ◌∷◌, ◌++◌, arith,
  if◌then◌else◌,
}
use saga_orchestrator_patter.Logging.{
  StandardLogging, LoggingConfig, Logger, Handler, Name, same_name, get_logger, default_handler,
  logging_config, json_renderer, processors, written_by, written_once,
}

-- arq's command line gives the logger "arq" a handler of its own.
abbrev is_arq : Name → Bool
is_arq = same_name ("arq" ∷ [])

abbrev own_handlers : Name → List Handler
own_handlers name = if is_arq name then default_handler true ∷ [] else []

handlers_at : Option Logger → List Handler → List Handler → List Handler
handlers_at none own above = own ++ above
handlers_at (some l) own above = l.handlers ++ (if l.propagate then above else [])

level_at : Option Logger → ℕ → ℕ
level_at none above = above
level_at (some l) above = l.level

handlers_of : LoggingConfig → Name → List Handler
handlers_of c [] = c.root.handlers
handlers_of c (part ∷ parent) =
    handlers_at (get_logger (part ∷ parent) c.loggers) (own_handlers (part ∷ parent))
      (handlers_of c parent)

level_of : LoggingConfig → Name → ℕ
level_of c [] = c.root.level
level_of c (part ∷ parent) = level_at (get_logger (part ∷ parent) c.loggers) (level_of c parent)

module _ (c : LoggingConfig) (part : String) (parent : Name) where
  handlers_of-unset :
      get_logger (part ∷ parent) c.loggers ≡ none
      → is_arq (part ∷ parent) ≡ false
      → handlers_of c (part ∷ parent) ≡ handlers_of c parent
  unfolding handlers_of handlers_at
  handlers_of-unset h other = rw (h, other) refl

  handlers_of-set :
      (l : Logger)
      → get_logger (part ∷ parent) c.loggers ≡ some l
      → handlers_of c (part ∷ parent)
        ≡ l.handlers ++ (if l.propagate then handlers_of c parent else [])
  unfolding handlers_of handlers_at
  handlers_of-set l h = rw h

  level_of-unset :
      get_logger (part ∷ parent) c.loggers ≡ none
      → is_arq (part ∷ parent) ≡ false
      → level_of c (part ∷ parent) ≡ level_of c parent
  unfolding level_of level_at
  level_of-unset h _ = rw h

  level_of-set :
      (l : Logger)
      → get_logger (part ∷ parent) c.loggers ≡ some l
      → level_of c (part ∷ parent) ≡ l.level
  unfolding level_of level_at
  level_of-set l h = rw h

handlers_of-root : (c : LoggingConfig) → handlers_of c [] ≡ c.root.handlers
unfolding handlers_of
handlers_of-root c = ground arith

level_of-root : (c : LoggingConfig) → level_of c [] ≡ c.root.level
unfolding level_of
level_of-root c = ground arith

abbrev plain_logging : StandardLogging
plain_logging = record {
  is_set_up = is_arq;
  handlers = handlers_of;
  level = level_of;
  handlers-root = handlers_of-root;
  handlers-none = handlers_of-unset;
  handlers-some = handlers_of-set;
  level-root = level_of-root;
  level-none = level_of-unset;
  level-some = level_of-set;
}

-- A statement of the engine, when the debug mode is off.
written_once_example :
    written_by plain_logging (logging_config false) ("Engine" ∷ "engine" ∷ "sqlalchemy" ∷ []) 20
    ≡ record {
      level = 20;
      formatter = record { renderer = json_renderer; foreign_pre_chain = processors };
    }
      ∷ []
unfolding logging_config
written_once_example =
    written_once plain_logging false ("Engine" ∷ "engine" ∷ "sqlalchemy" ∷ []) 20 refl

-- A record of arq goes to its own handler as well.
arq_twice :
    written_by plain_logging (logging_config false) ("arq" ∷ []) 20
    ≡ default_handler true ∷ default_handler false ∷ []
unfolding written_by logging_config handlers_of handlers_at level_of level_at
arq_twice = refl
