-- ===== src/Log.antt =====
-- log.c of PunchHole: the level filter, the log file, and the
-- places that `logging` writes in its buffer.
use Prim.Native.String.{String}
use edge_compute.Base.{
  ℕ, ◌+◌, ◌≤◌, ◌≡◌, ◌≢◌, Bool, true, false, Option, none, some, List, [], ◌∷◌, ℤ, pos, negsuc,
  minus_one, int_eq, ltb, leb, if◌then◌else◌, get_elem?, arith, ◌++◌,
}

abbrev pub en_print_debug : ℤ
en_print_debug = pos 0

abbrev pub en_print_info : ℤ
en_print_info = pos 1

abbrev pub en_print_notice : ℤ
en_print_notice = pos 2

abbrev pub en_print_warn : ℕ
en_print_warn = 3

abbrev pub en_print_error : ℕ
en_print_error = 4

abbrev level_names : List String
level_names = "DEBUG" ∷ "INFO" ∷ "NOTICE" ∷ "WARN" ∷ "ERROR" ∷ "FATAL" ∷ []

-- The static variables of log.c; `log_stream` holds the name of the open file.
pub record LogState : Type 0 where
  pub enable_console : ℤ
  pub log_stream : Option String
  pub log_level : ℕ

abbrev pub initial : LogState
initial = record { enable_console = pos 1; log_stream = none; log_level = 1 }

clamp_level : ℤ → ℕ
clamp_level (pos lvl) = if ltb en_print_error lvl then en_print_error else lvl
clamp_level (negsuc lvl) = 0

open_stream : Option String → Bool → LogState → LogState × ℤ
open_stream none opened s = (s, pos 0)
open_stream (some file) opened s =
    if opened then (record s { log_stream = some file }, pos 0) else (s, pos 1)

-- `opened` is whether `fopen` succeeds.
unfoldable pub configure_log : ℤ → Option String → ℤ → Bool → LogState → LogState × ℤ
unfolding clamp_level open_stream
configure_log lvl file use_console opened s =
    open_stream file opened (record s { log_level = clamp_level lvl; enable_console = use_console })

-- Whether `destroy_log` closes the log file.
pub destroy_log : LogState → Bool
destroy_log s = elim s.log_stream [ none ↦ false | some f ↦ true ]

pub data Target : Type 0 where
  to_stdout to_stderr : Target
  to_file : String → Target

-- What one call of `logging` does: the places of the newline and of the final NUL in
-- `buffer[512]`, and the streams that get the line. `stamp`, `head` and `body` are what `strftime`
-- and the two `printf` calls return.
pub record Logged : Type 0 where
  pub newline_at : ℕ
  pub nul_at : ℕ
  pub level_name : Option String
  pub targets : List Target

console_targets : ℤ → ℕ → List Target
console_targets enabled lvl =
    if int_eq enabled (pos 0)
    then []
    else if leb en_print_warn lvl
    then to_stderr ∷ []
    else to_stdout ∷ []

file_targets : Option String → List Target
file_targets none = []
file_targets (some f) = to_file f ∷ []

unfoldable pub logging : LogState → ℕ → (stamp head body : ℕ) → Option Logged
unfolding console_targets file_targets
logging s lvl stamp head body =
    if ltb lvl s.log_level
    then none
    else some (record {
      newline_at = stamp + head + body;
      nul_at = stamp + head + body + 1;
      level_name = get_elem? level_names lvl;
      targets = console_targets s.enable_console lvl ++ file_targets s.log_stream;
    })

-- Whatever `configure_log` is given, it never returns -1, a failed `fopen` included; and from then
-- on `logging` passes every message of level ERROR or above.
pub configure_log-passes :
    (lvl : ℤ) (file : Option String) (use_console : ℤ) (opened : Bool) (s : LogState)
    (m stamp head body : ℕ)
    → en_print_error ≤ m
    → (int_eq (configure_log lvl file use_console opened s).1 minus_one ≡ false)
      × (logging (configure_log lvl file use_console opened s).0 m stamp head body ≢ none)
unfolding configure_log logging
configure_log-passes lvl file use_console opened s m stamp head body high = ground arith
