-- ===== src/Log.antt =====
-- The log (log.cc, libnitrokey/log.h) and the calls of `NitrokeyManager` that set its level. Messages
-- are lists of bytes; what a handler does with one is in Functions.
pub mod Laws
pub mod Functions
use libnitrokey.Prelude.{
  ℕ, Bool, true, false, ◌==◌, leb, min, if◌then◌else◌, List, [], ◌∷◌, ◌++◌, Option, none, some,
  length,
}
use libnitrokey.Prelude.Int.{ℤ, pos, negsuc}
use libnitrokey.Prelude.Bytes.{Bytes}

pub data Loglevel : Type 0 where
  error warning info debug_l1 debug debug_l2 : Loglevel

unfoldable pub level_number : Loglevel → ℕ
level_number error = 0
level_number warning = 1
level_number info = 2
level_number debug_l1 = 3
level_number debug = 4
level_number debug_l2 = 5

-- `static_cast<Loglevel>` of a number up to 5.
level_of : ℕ → Loglevel
level_of n =
    if n == 0
    then error
    else if n == 1
    then warning
    else if n == 2
    then info
    else if n == 3
    then debug_l1
    else if n == 4
    then debug
    else debug_l2

-- The members of `Log`, its static prefix, and the static variable of `format_message_to_string`.
-- `handler` is the handler, by a number; `none` is a null pointer.
pub record Log : Type 0 where
  pub handler : Option ℕ
  pub loglevel : Loglevel
  pub log_prefix : Bytes
  pub last_short : Bool

-- `stdlog_handler` is handler 0.
unfoldable pub new_log : Log
new_log = record { handler = some 0; loglevel = warning; log_prefix = []; last_short = false }

pub set_handler : Option ℕ → Log → Log
set_handler handler l = record l { handler = handler }

-- The clamped level of `NitrokeyManager::set_loglevel(int)`.
pub clamp : ℤ → ℕ
clamp (negsuc n) = 0
clamp (pos n) = min n 5

pub set_loglevel : ℤ → Log → Log
set_loglevel loglevel l = record l { loglevel = level_of (clamp loglevel) }

pub set_debug : Bool → Log → Log
set_debug true l = record l { loglevel = debug }
set_debug false l = record l { loglevel = error }

pub set_prefix : Bytes → Log → Log
set_prefix [] l = record l { log_prefix = [] }
set_prefix (c ∷ rest) l = record l { log_prefix = (b'[' ∷ c ∷ rest) ++ (b']' ∷ []) }

-- `operator()`: what is passed to a handler's `print`, and to which.
pub record Message : Type 0 where
  pub handler : ℕ
  pub text : Bytes
  pub level : Loglevel

abbrev to_handler : Option ℕ → Bytes → Loglevel → Option Message
to_handler none text lvl = none
to_handler (some h) text lvl = some (record { handler = h; text = text; level = lvl })

pub print : Bytes → Loglevel → Log → Option Message
print logstr lvl l =
    let message = to_handler l.handler (l.log_prefix ++ logstr) lvl in
    if leb (level_number lvl) (level_number l.loglevel) then message else none

pub loglevel_to_str : Loglevel → Bytes
loglevel_to_str debug_l1 = b'D' ∷ b'E' ∷ b'B' ∷ b'U' ∷ b'G' ∷ b'_' ∷ b'L' ∷ b'1' ∷ []
loglevel_to_str debug_l2 = b'D' ∷ b'E' ∷ b'B' ∷ b'U' ∷ b'G' ∷ b'_' ∷ b'L' ∷ b'2' ∷ []
loglevel_to_str debug = b'D' ∷ b'E' ∷ b'B' ∷ b'U' ∷ b'G' ∷ []
loglevel_to_str info = b'I' ∷ b'N' ∷ b'F' ∷ b'O' ∷ []
loglevel_to_str warning = b'W' ∷ b'A' ∷ b'R' ∷ b'N' ∷ b'I' ∷ b'N' ∷ b'G' ∷ []
loglevel_to_str error = b'E' ∷ b'R' ∷ b'R' ∷ b'O' ∷ b'R' ∷ []

abbrev line_feed : ℕ
line_feed = 10

abbrev opening : Bool → Bytes
opening true = line_feed ∷ []
opening false = []

abbrev message_line : Bytes → Bytes → Loglevel → Bool → Bytes
message_line time str lvl last_short =
    opening last_short
    ++ ((b'[' ∷ time)
        ++ ((b']' ∷ b'[' ∷ loglevel_to_str lvl) ++ ((b']' ∷ 9 ∷ str) ++ (line_feed ∷ []))))

-- With the text that `put_time` gives for the present time.
pub format_message_to_string : Bytes → Bytes → Loglevel → Log → Bytes × Log
format_message_to_string time str lvl l =
    if length str == 1
    then (str, record l { last_short = true })
    else (message_line time str lvl l.last_short, record l { last_short = false })
