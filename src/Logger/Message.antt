-- ===== src/Logger/Message.antt =====
-- log_system/logs_code/Level.hpp, Message.hpp: the line that a message becomes. `time` is what
-- `strftime` made of the time, `tid` the thread's id as a text.
use tcp_server.Base.{ℕ, List, ◌++◌, codes, to_string}

pub data LogLevel : Type 0 where
  debug info warn error fatal : LogLevel

-- `ToString`
unfoldable pub level_to_string : LogLevel → List ℕ
level_to_string debug = codes "DEBUG"
level_to_string info = codes "INFO"
level_to_string warn = codes "WARN"
level_to_string error = codes "ERROR"
level_to_string fatal = codes "FATAL"

pub record LogMessage : Type 0 where
  pub level : LogLevel
  pub line : ℕ
  pub time : List ℕ
  pub tid : List ℕ
  pub name : List ℕ
  pub file_name : List ℕ
  pub payload : List ℕ

-- `format`
unfoldable pub format : LogMessage → List ℕ
format m =
    let tmp1 = (codes "[" ++ m.time) ++ codes "][" in
    let tmp2 =
      codes "]["
      ++ level_to_string m.level
      ++ codes "]["
      ++ m.name
      ++ codes "]["
      ++ m.file_name
      ++ codes ": "
      ++ to_string m.line
      ++ codes "]\t"
      ++ m.payload
      ++ codes "\n" in
    tmp1 ++ (m.tid ++ tmp2)
