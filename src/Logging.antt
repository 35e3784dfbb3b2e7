-- ===== src/Logging.antt =====
-- internal/logging/logging.go: the level of the process's log. Writing the lines is the standard library's.
use bankstmt_analyzer.Prelude.{◌||◌, if◌then◌else◌}
use bankstmt_analyzer.Text.{Bytes, codes, bytes_eq, to_lower}
use bankstmt_analyzer.Text.Space.{trim_space}

-- `slog.Level`
pub data Level : Type 0 where
  debug info warn error : Level

-- `parseLevel`
unfoldable pub parse_level : Bytes → Level
unfolding to_lower trim_space bytes_eq
parse_level level =
    let s = to_lower (trim_space level) in
    if bytes_eq s (codes "debug")
    then debug
    else if bytes_eq s (codes "warn") || bytes_eq s (codes "warning")
    then warn
    else if bytes_eq s (codes "error")
    then error
    else info
