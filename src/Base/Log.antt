-- ===== src/Base/Log.antt =====
-- The log of czrpc/base/czlog.hpp. The clock and the time zone are an argument, the local time as
-- `localtime_r` gives it; what goes to the standard output is a text. Windows is left aside.
pub mod Time
pub mod Lines
use czrpc.Prelude.{
  ℕ, zero, suc, ◌+◌, ◌-◌, Bytes, codes, Bool, true, false, List, [], ◌∷◌, ◌++◌, Option, none, some,
  length, take, drop, replicate, ◌==◌, if◌then◌else◌,
}
use czrpc.Prelude.Decimal.{to_string}

-- An `enum class` over `int`, eight of whose values have names.
abbrev pub PriorityLevel : Type 0
PriorityLevel = ℕ

-- The fields of `struct tm` that are printed, as they are printed, and the microseconds.
pub record LocalTime : Type 0 where
  pub year : ℕ
  pub month : ℕ
  pub day : ℕ
  pub hour : ℕ
  pub minute : ℕ
  pub second : ℕ
  pub microsecond : ℕ

-- `%0wd` of a number that is not negative.
unfoldable pub padded : ℕ → ℕ → Bytes
padded w n = let digits = to_string n in replicate (w - length digits) 48 ++ digits

-- What the format "%04d-%02d-%02d %02d:%02d:%02d.%06d" asks for.
unfoldable pub time_text : LocalTime → Bytes
unfolding padded
time_text t =
    padded 4 t.year
    ++ codes "-"
    ++ padded 2 t.month
    ++ codes "-"
    ++ padded 2 t.day
    ++ codes " "
    ++ padded 2 t.hour
    ++ codes ":"
    ++ padded 2 t.minute
    ++ codes ":"
    ++ padded 2 t.second
    ++ codes "."
    ++ padded 6 t.microsecond

abbrev pub time_str_size : ℕ
time_str_size = 27

-- `snprintf` writes one byte less than the buffer has, and a zero byte behind them.
unfoldable pub current_time : LocalTime → Bytes
current_time t = take (time_str_size - 1) (time_text t)

unfoldable pub get_level_str : PriorityLevel → Bytes
get_level_str level =
    if level == 0
    then codes "[FATAL]"
    else if level == 1
    then codes "[ALERT]"
    else if level == 2
    then codes "[CRIT]"
    else if level == 3
    then codes "[ERROR]"
    else if level == 4
    then codes "[WARN]"
    else if level == 5
    then codes "[NOTICE]"
    else if level == 6
    then codes "[INFO]"
    else if level == 7
    then codes "[DEBUG]"
    else codes "[DEBUG]"

-- `find_last_of` of one byte; `none` is `npos`.
unfoldable pub find_last_of : ℕ → Bytes → Option ℕ
find_last_of c [] = none
find_last_of c (d ∷ ds) = elim (find_last_of c ds) [
  | some i ↦ some (suc i)
  | none ↦ if d == c then some 0 else none
]

-- `file_path.substr(pos + 1)`: `npos` becomes the `int` -1.
unfoldable pub file_name : Bytes → Bytes
unfolding find_last_of
file_name file_path = elim (find_last_of 47 file_path) [
  | none ↦ file_path
  | some pos ↦ drop (suc pos) file_path
]

pub record LoggerStream : Type 0 where
  pub buffer : Bytes
  pub level : PriorityLevel

-- `log()` of a `logger` that was made at a place of the program.
unfoldable pub log : Bytes → Bytes → ℕ → PriorityLevel → LoggerStream
log file_path func_name line level = record {
  buffer =
      file_name file_path ++ codes " " ++ func_name ++ codes "(" ++ to_string line ++ codes ") ";
  level = level;
}

-- `operator <<`, with the text that its argument is written as.
unfoldable pub write : Bytes → LoggerStream → LoggerStream
write text s = record s { buffer = s.buffer ++ text }

unfoldable pub write_all : List Bytes → LoggerStream → LoggerStream
unfolding write
write_all [] s = s
write_all (text ∷ texts) s = write_all texts (write text s)

-- A text as `printf` takes it by `c_str()`.
unfoldable pub c_string : Bytes → Bytes
c_string [] = []
c_string (c ∷ cs) = let rest = c_string cs in if c == 0 then [] else c ∷ rest

-- `print_log`, which the destructor calls.
unfoldable pub print_log : LocalTime → LoggerStream → Bytes
print_log now s =
    c_string (current_time now ++ codes " " ++ get_level_str s.level ++ codes " " ++ s.buffer)
    ++ codes "\n"
