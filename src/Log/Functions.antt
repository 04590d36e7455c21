-- ===== src/Log/Functions.antt =====
-- The handlers of log.cc that call a function of the client, and the calls that set one
-- (`set_log_function` and `set_log_function_raw` of NitrokeyManager.cc, `NK_set_log_function`). Functions
-- are numbers.
pub mod First
use libnitrokey.Prelude.Int.{ℤ}
use libnitrokey.Prelude.{ℕ, Bool, ◌==◌, if◌then◌else◌, List, [], ◌∷◌, Option, none, some}
use libnitrokey.Prelude.Bytes.{Bytes}
use libnitrokey.Log.{
  Loglevel, level_number, Log, set_handler, set_debug, set_loglevel, Message, print,
  format_message_to_string,
}

-- Handler 1 and handler 2 are the static variables of the two functions; `none` stands for one that is
-- not initialised yet. Handler 0 writes to `std::clog`.
pub record Logging : Type 0 where
  pub log : Log
  pub functional : Option ℕ
  pub raw : Option ℕ

-- A static variable is initialised by the first call only.
abbrev initialised : Option ℕ → ℕ → Option ℕ
initialised none log_function = some log_function
initialised (some first) log_function = some first

unfoldable pub set_log_function : ℕ → Logging → Logging
set_log_function log_function l = record {
  log = set_handler (some 1) (l.log);
  functional = initialised (l.functional) log_function;
  raw = l.raw;
}

unfoldable pub set_log_function_raw : ℕ → Logging → Logging
set_log_function_raw log_function l = record {
  log = set_handler (some 2) (l.log);
  functional = l.functional;
  raw = initialised (l.raw) log_function;
}

-- `NK_set_log_function`: the function that is passed on casts the level to an `int`.
unfoldable pub nk_set_log_function : ℕ → Logging → Logging
nk_set_log_function fn l = set_log_function_raw fn l

-- `NK_set_debug` and `NK_set_debug_level`
pub nk_set_debug : Bool → Logging → Logging
nk_set_debug state l = record l { log = set_debug state (l.log) }

pub nk_set_debug_level : ℤ → Logging → Logging
nk_set_debug_level level l = record l { log = set_loglevel level (l.log) }

-- What a message becomes: text on `std::clog`, a call with text, or a call with text and level.
pub data Output : Type 0 where
  to_clog : Bytes → Output
  to_function : ℕ → Bytes → Output
  to_raw_function : ℕ → Bytes → ℕ → Output

abbrev sent : Option ℕ → (ℕ → Output) → List Output
sent none f = []
sent (some log_function) f = f log_function ∷ []

-- The handler's `print`, at a time whose text is given.
unfoldable pub handle : Bytes → Message → Logging → List Output × Logging
handle time m l =
    let (text, log) = format_message_to_string time (m.text) (m.level) (l.log) in
    if m.handler == 2
    then (sent (l.raw) (λ f. to_raw_function f (m.text) (level_number (m.level))), l)
    else if m.handler == 1
    then (sent (l.functional) (λ f. to_function f text), record l { log = log })
    else (to_clog text ∷ [], record l { log = log })

abbrev handle_some : Bytes → Option Message → Logging → List Output × Logging
handle_some time none l = ([], l)
handle_some time (some m) l = handle time m l

-- `LOG`
unfoldable pub log_message : Bytes → Bytes → Loglevel → Logging → List Output × Logging
log_message time logstr lvl l = handle_some time (print logstr lvl (l.log)) l

-- Later calls of the client, one after the other.
unfoldable pub set_log_functions : List ℕ → Logging → Logging
set_log_functions [] l = l
set_log_functions (fn ∷ rest) l = set_log_functions rest (nk_set_log_function fn l)
