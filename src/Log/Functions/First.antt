-- ===== src/Log/Functions/First.antt =====
-- Which function of the client gets the messages.
use libnitrokey.Prelude.{
  ℕ, ◌≡◌, refl, ap, ◌∙◌, arith, leb, if◌then◌else◌, List, [], ◌∷◌, Option, none, some, ◌++◌,
}
use libnitrokey.Prelude.Bytes.{Bytes}
use libnitrokey.Log.{Loglevel, level_number, Log, set_handler, print}
use libnitrokey.Log.Functions.{
  Logging, initialised, set_log_function_raw, nk_set_log_function, to_raw_function, handle,
  log_message, set_log_functions,
}

-- The state in which the raw handler calls a function.
abbrev calling : ℕ → Log → Option ℕ → Logging
calling fn log functional = record {
  log = set_handler (some 2) log;
  functional = functional;
  raw = some fn;
}

set_log_functions-calling :
    (fn : ℕ) (log : Log) (functional : Option ℕ) (later : List ℕ)
    → set_log_functions later (calling fn log functional) ≡ calling fn log functional
unfolding set_log_functions nk_set_log_function set_log_function_raw set_handler
set_log_functions-calling fn log functional [] = refl
set_log_functions-calling fn log functional (g ∷ later) =
    set_log_functions-calling fn log functional later

log_message-calling :
    (fn : ℕ) (log : Log) (functional : Option ℕ) (time logstr : Bytes) (lvl : Loglevel)
    → (log_message time logstr lvl (calling fn log functional)).0 ≡ (
        if leb (level_number lvl) (level_number (log.loglevel))
        then to_raw_function fn (log.log_prefix ++ logstr) (level_number lvl) ∷ []
        else [])
unfolding log_message print handle set_handler
log_message-calling fn log functional time logstr lvl = ground arith

-- The first function that a client sets gets all messages that are logged, with the prefix and the
-- number of the level, and no function that it sets later gets any: the handler is a static variable that only
-- the first call initialises.
pub log_message-first :
    (fn : ℕ) (later : List ℕ) (l : Logging) (time logstr : Bytes) (lvl : Loglevel)
    → l.raw ≡ none
    → (log_message time logstr lvl (set_log_functions later (nk_set_log_function fn l))).0 ≡ (
        if leb (level_number lvl) (level_number (l.log.loglevel))
        then to_raw_function fn (l.log.log_prefix ++ logstr) (level_number lvl) ∷ []
        else [])
unfolding nk_set_log_function set_log_function_raw
log_message-first fn later l time logstr lvl fresh =
    let start : nk_set_log_function fn l ≡ calling fn (l.log) (l.functional) =
      ap
        (λ r. record {
          log = set_handler (some 2) (l.log);
          functional = l.functional;
          raw = initialised r fn;
        })
        fresh in
    ap (λ s. (log_message time logstr lvl (set_log_functions later s)).0) start
    ∙ ap (λ s. (log_message time logstr lvl s).0)
        (set_log_functions-calling fn (l.log) (l.functional) later)
    ∙ log_message-calling fn (l.log) (l.functional) time logstr lvl
