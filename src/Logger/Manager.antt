-- ===== src/Logger/Manager.antt =====
-- log_system/logs_code/Manager.hpp, MyLog.cpp: the loggers by their names. A shared pointer to a logger is
-- its place in `store`; `loggers` lists the map's entries, and a null pointer is `none`.
use tcp_server.Logger.{AsyncLogger, stop, new_logger_builder, build_logger_name, build}
use tcp_server.LogBuffer.{Config}
use tcp_server.Base.{
  ℕ, zero, suc, Bool, true, false, Option, none, some, List, [], ◌∷◌, ◌++◌, if◌then◌else◌, codes,
  same_text, length, get_elem?,
}

pub record LoggerManager : Type 0 where
  pub store : List AsyncLogger
  pub default_logger : ℕ
  pub loggers : List (List ℕ × ℕ)

-- `find`
unfoldable pub find : List ℕ → List (List ℕ × ℕ) → Option ℕ
find name [] = none
find name ((k, p) ∷ es) = if same_text k name then some p else find name es

abbrev pub is_some : Option ℕ → Bool
is_some none = false
is_some (some p) = true

unfoldable pub logger_exist : List ℕ → LoggerManager → Bool
logger_exist name m = is_some (find name m.loggers)

-- `loggers_[name] = p`
unfoldable pub assign : List ℕ → ℕ → List (List ℕ × ℕ) → List (List ℕ × ℕ)
assign name p [] = (name, p) ∷ []
assign name p ((k, q) ∷ es) = if same_text k name then (k, p) ∷ es else (k, q) ∷ assign name p es

-- The second part of `AddLogger`, under a lock of its own.
unfoldable pub put_named : ℕ → List ℕ → LoggerManager → LoggerManager
put_named p name m = record m { loggers = assign name p m.loggers }

-- `AddLogger`, by the name that the logger has, where no other call comes between its two parts.
unfoldable pub add_named : ℕ → List ℕ → LoggerManager → LoggerManager
add_named p name m = if logger_exist name m then m else put_named p name m

-- `AddLogger`, where no other call comes between its two parts.
unfoldable pub add_logger : ℕ → LoggerManager → LoggerManager
add_logger p m = elim (get_elem? m.store p) [ none ↦ m | some l ↦ add_named p l.logger_name m ]

unfoldable pub get_logger : List ℕ → LoggerManager → Option ℕ
get_logger name m = find name m.loggers

-- `Stop` of the logger that the pointer points to.
unfoldable pub stop_at : ℕ → List AsyncLogger → List AsyncLogger
stop_at p [] = []
stop_at zero (l ∷ ls) = stop l ∷ ls
stop_at (suc p) (l ∷ ls) = l ∷ stop_at p ls

-- The loop of `StopAll`.
unfoldable pub stop_entries : List (List ℕ × ℕ) → List AsyncLogger → List AsyncLogger
stop_entries [] ls = ls
stop_entries ((k, p) ∷ es) ls = stop_entries es (stop_at p ls)

unfoldable pub stop_all : LoggerManager → LoggerManager
stop_all m = record m { store = stop_entries m.loggers m.store }

-- The constructor, with the default logger behind those that are there.
unfoldable pub new_logger_manager : Config → List AsyncLogger → Option LoggerManager
new_logger_manager cfg store =
    elim (build cfg (build_logger_name (codes "default") new_logger_builder)) [
      | none ↦ none
      | some l ↦ some (record {
        store = store ++ (l ∷ []);
        default_logger = length store;
        loggers = (codes "default", length store) ∷ [];
      })
    ]
