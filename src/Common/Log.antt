-- ===== src/Common/Log.antt =====
-- drop/common/Log.h and Log.cpp. The formatted UTC time of a line is an argument; what is printed
-- to the standard output is the result.
pub mod Threshold
use Prim.Native.String.{◌++◌}
use mini_drop.Base.{
  ℕ, String, Bool, true, false, ◌==◌, string_eq, ltb, if◌then◌else◌, Option, none, some, List, [],
  ◌∷◌,
}

pub data Level : Type 0 where
  debug info warn error : Level

-- The value of the enumerator, by which `<` compares.
abbrev pub severity : Level → ℕ
severity debug = 0
severity info = 1
severity warn = 2
severity error = 3

unfoldable pub level_name : Level → String
level_name debug = "debug"
level_name info = "info"
level_name warn = "warn"
level_name error = "error"

unfoldable pub parse_level : String → Level
parse_level s =
    if s == "debug"
    then debug
    else if s == "warn"
    then warn
    else if s == "error"
    then error
    else info

-- `Log::min_level_`, which is `INFO` before `Init`.
pub record Log : Type 0 where
  pub min_level : Level

unfoldable pub initial : Log
initial = record { min_level = info }

unfoldable pub init : String → Log
init level = record { min_level = parse_level level }

unfoldable pub line : String → Level → String → String
unfolding level_name
line time level msg =
    "{\"time\":\""
    ++ (time ++ ("\",\"level\":\"" ++ (level_name level ++ ("\",\"msg\":\"" ++ (msg ++ "\"}")))))

-- `Write`: the line that is printed, if one is.
unfoldable pub write : Log → String → Level → String → Option String
write log time level msg =
    if ltb (severity level) (severity log.min_level) then none else some (line time level msg)

abbrev pub append_line : Option String → List String → List String
append_line none printed = printed
append_line (some l) printed = l ∷ printed

-- What a sequence of calls, each at its time, prints.
unfoldable pub write_all : Log → List (String × Level × String) → List String
write_all log [] = []
write_all log ((time, level, msg) ∷ calls) =
    append_line (write log time level msg) (write_all log calls)
