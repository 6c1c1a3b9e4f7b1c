-- ===== src/EdgeFs/MediaLog.antt =====
-- EdgeFS/src/common/logger.cpp: which log lines pass, and what the buffer of a line holds.
use edge_compute.Base.{
  ℕ, ◌-◌, ◌≤◌, ◌<◌, ◌≡◌, ◌||◌, Option, none, some, [], ◌∷◌, ◌++◌, ◌==◌, ltb, length, take,
  length-append, length-take, arith, if◌then◌else◌, Bool-cases, inl, inr, ap,
}
use edge_compute.Sys.{Bytes}

-- LogLevel
abbrev pub log_level_info : ℕ
log_level_info = 1

abbrev pub log_level_none : ℕ
log_level_none = 6

abbrev pub log_max_buf_size : ℕ
log_max_buf_size = 2048

-- What stands behind the last slash; `name` is what was read since the last one.
unfoldable pub file_name : Bytes → (name : Bytes) → Bytes
file_name [] name = name
file_name (c ∷ file) name = if c == b'/' then file_name file [] else file_name file (name ++ c ∷ [])

-- `snprintf` and `vsnprintf` into a buffer of `size` bytes, whose last byte is the NUL.
abbrev pub printed : (size : ℕ) → Bytes → Bytes
printed size text = take (size - 1) text

unfoldable pub line_start : (level_str file : Bytes) → Bytes
unfolding file_name
line_start level_str file = printed 30 (level_str ++ 32 ∷ (b'[' ∷ file_name file []))

-- The text that is handed to `AsyncLogging::log`, if any; `text` is what the format makes of the
-- arguments, and `instance` is the level of the log, if there is one.
unfoldable pub media_log :
    (instance_level : Option ℕ) → (level : ℕ) → (level_str file text : Bytes) → Option Bytes
unfolding line_start
media_log none level level_str file text = none
media_log (some current) level level_str file text =
    if level == log_level_none || ltb level current
    then none
    else (let start = line_start level_str file in
        some (start ++ printed (log_max_buf_size - 1 - length start) text))

-- The line with its NUL fits in the buffer, whatever the arguments print.
pub media_log-fits :
    (instance_level : Option ℕ) (level : ℕ) (level_str file text out : Bytes)
    → media_log instance_level level level_str file text ≡ some out
    → length out < log_max_buf_size
unfolding media_log line_start
media_log-fits none level level_str file text out e = cc
media_log-fits (some current) level level_str file text out e =
    let start = line_start level_str file in
    let rest = printed (log_max_buf_size - 1 - length start) text in
    let short : length start ≤ 29 =
      omega (arith, length-take 29 (level_str ++ 32 ∷ (b'[' ∷ file_name file []))) in
    elim (Bool-cases (level == log_level_none || ltb level current)) [
      | inl silent ↦ let e' = rw silent at e in cc
      | inr passes ↦
          let e' = rw passes at e in
          let same : start ++ rest ≡ out = cc in
          omega (
            arith,
            ap (λ (b : Bytes). length b) same,
            length-append start rest,
            length-take (log_max_buf_size - 1 - length start - 1) text,
            short,
          )
    ]
