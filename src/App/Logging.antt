-- ===== src/App/Logging.antt =====
-- `init_logger` of src/logger.hpp.
use ioh_robodog_webrtc.Prelude.{ℕ, String, Option, none, some, if◌then◌else◌, text_eq, text_empty}
use ioh_robodog_webrtc.Prelude.Int.{scale_ℤ, to_int32, wrap_unsigned}
use ioh_robodog_webrtc.Prelude.Results.{Result, ok, ◌>>=◌}
use ioh_robodog_webrtc.Config.{LoggingConfig}

pub data Level : Type 0 where
  trace debug info warn error critical : Level

unfoldable pub level_of : String → Level
level_of s =
    if text_eq s "trace"
    then trace
    else if text_eq s "debug"
    then debug
    else if text_eq s "info"
    then info
    else if text_eq s "warn"
    then warn
    else if text_eq s "error"
    then error
    else if text_eq s "critical"
    then critical
    else info

-- A file that rotates: its name, its greatest size, and the number of files, where the sink's
-- constructor takes each `int` as a `size_t`.
pub record FileSink : Type 0 where
  pub file : String
  pub max_size : ℕ
  pub max_files : ℕ

pub record Logger : Type 0 where
  pub file_sink : Option FileSink
  pub level : Level
  pub flush_on : Level

-- The sinks and the level that are asked for.
unfoldable pub logger : LoggingConfig → Logger
unfolding level_of
logger c = record {
  file_sink =
      if text_empty c.file
      then none
      else some (record {
        file = c.file;
        max_size =
            wrap_unsigned 64 (to_int32 (scale_ℤ (to_int32 (scale_ℤ c.max_file_size_mb 1024)) 1024));
        max_files = wrap_unsigned 64 c.max_files;
      });
  level = level_of c.level;
  flush_on = warn;
}

-- `init_logger`: making the sink of a file opens the file, which may throw; `open_file` is what
-- spdlog answers.
unfoldable pub init_logger : (FileSink → Result (Unit {0})) → LoggingConfig → Result Logger
unfolding logger
init_logger open_file c = elim (logger c).file_sink [
  | none ↦ ok (logger c)
  | some sink ↦ (do _ ← open_file sink; ok (logger c))
]
