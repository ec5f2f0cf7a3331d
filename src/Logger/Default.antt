-- ===== src/Logger/Default.antt =====
-- log_system/logs_code/Manager.hpp, AsyncLogger.hpp: the default logger, and what a builder builds.
use tcp_server.Logger.{AsyncLogger, new_async_logger, new_logger_builder, build_logger_name, build}
use tcp_server.Logger.Manager.{
  LoggerManager, find, add_named, add_logger, get_logger, new_logger_manager,
}
use tcp_server.Logger.Named.{add_all, add_named-store, get_logger-add_all}
use tcp_server.LogFlush.Sinks.{stdout_flush}
use tcp_server.Worker.{async_safe}
use tcp_server.LogBuffer.{Config}
use tcp_server.Base.{
  ℕ, ◌≡◌, refl, ap, ◌∙◌, Option, none, some, List, [], ◌∷◌, ◌++◌, codes, length, get_elem?,
}

abbrev default_name : List ℕ
default_name = codes "default"

-- The default logger: it writes to the standard output alone.
abbrev pub default_of : Config → AsyncLogger
default_of cfg = new_async_logger cfg default_name (stdout_flush [] ∷ []) async_safe

get_last {ℓ} : {A : Type ℓ} (xs : List A) (x : A) → get_elem? (xs ++ (x ∷ [])) (length xs) ≡ some x
get_last [] x = refl
get_last (y ∷ xs) x = get_last xs x

add_logger-store : (p : ℕ) (m : LoggerManager) → (add_logger p m).store ≡ m.store
unfolding add_logger
add_logger-store p m = by_pointer (get_elem? m.store p)
  where
    by_pointer :
        (o : Option AsyncLogger)
        → (elim o as (λ _. LoggerManager) [ none ↦ m | some l ↦ add_named p l.logger_name m ]).store
          ≡ m.store
    by_pointer none = refl
    by_pointer (some l) = add_named-store p l.logger_name m

add_all-store : (ps : List ℕ) (m : LoggerManager) → (add_all ps m).store ≡ m.store
add_all-store [] m = refl
add_all-store (p ∷ ps) m = add_all-store ps (add_logger p m) ∙ add_logger-store p m

-- The manager can always be made, and whatever loggers are added to it, even others of that name, the
-- name "default" stands for the default logger, which writes to the standard output.
pub default_stays :
    (cfg : Config) (store : List AsyncLogger) (ps : List ℕ)
    → (m : LoggerManager) × (new_logger_manager cfg store ≡ some m)
      × (get_logger (codes "default") (add_all ps m) ≡ some m.default_logger)
      × (get_elem? (add_all ps m).store m.default_logger ≡ some (default_of cfg))
unfolding new_logger_manager build new_logger_builder build_logger_name find
default_stays cfg store ps =
    let m : LoggerManager = record {
      store = store ++ (default_of cfg ∷ []);
      default_logger = length store;
      loggers = (default_name, length store) ∷ [];
    } in
    (
      m,
      refl,
      get_logger-add_all default_name ps m,
      ap (λ (z : List AsyncLogger). get_elem? z (length store)) (add_all-store ps m)
          ∙ get_last store (default_of cfg),
    )
