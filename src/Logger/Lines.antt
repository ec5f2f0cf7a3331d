-- ===== src/Logger/Lines.antt =====
-- log_system/logs_code/Message.hpp: a reader of the lines of the log.
use tcp_server.Logger.Message.{
  LogLevel, level_to_string, LogMessage, format, debug, info, warn, error, fatal,
}
use tcp_server.Base.{
  to_string, Digits, to_string-Digits, ℕ, ◌-◌, ◌≡◌, refl, ◌≢◌, false, Option, none, some, List, [],
  ◌∷◌, ◌++◌, append_assoc, arith, ◌==◌, if◌then◌else◌, codes, same_text, length, take, drop,
  length-append, take_prefix,
}

abbrev bracket : ℕ
bracket = b']'

-- The text up to the next closing bracket, and what follows it.
abbrev until : List ℕ → List ℕ × List ℕ
until [] = ([], [])
until (c ∷ cs) =
    let (field, rest) = until cs in if c == bracket then ([], cs) else (c ∷ field, rest)

-- The text without its last code.
abbrev but_last : List ℕ → List ℕ
but_last s = take (length s - 1) s

abbrev read_level : List ℕ → Option LogLevel
read_level s =
    if same_text s (codes "DEBUG")
    then some debug
    else if same_text s (codes "INFO")
    then some info
    else if same_text s (codes "WARN")
    then some warn
    else if same_text s (codes "ERROR")
    then some error
    else if same_text s (codes "FATAL")
    then some fatal
    else none

-- The fields of a line; `place` is the file's name and the line in it.
pub record Fields : Type 0 where
  pub time : List ℕ
  pub tid : List ℕ
  pub level : Option LogLevel
  pub name : List ℕ
  pub place : List ℕ
  pub payload : List ℕ

unfoldable pub read_line : List ℕ → Fields
read_line s =
    let (time, a) = until (drop 1 s) in
    let (tid, b) = until (drop 1 a) in
    let (level, c) = until (drop 1 b) in
    let (name, d) = until (drop 1 c) in
    let (place, e) = until (drop 1 d) in
    record {
      time = time;
      tid = tid;
      level = read_level level;
      name = name;
      place = place;
      payload = but_last (drop 1 e);
    }

-- No code is a closing bracket.
abbrev pub Free : List ℕ → Type 0
Free [] = Unit {0}
Free (c ∷ cs) = (c ≢ bracket) × Free cs

append-Free : (s t : List ℕ) → Free s → Free t → Free (s ++ t)
append-Free [] t h k = k
append-Free (c ∷ s) t h k = (h.0, append-Free s t h.1 k)

Digits-Free : (s : List ℕ) → Digits s → Free s
Digits-Free [] h = tt
Digits-Free (c ∷ s) h = (omega (arith, h.1), Digits-Free s h.2)

until_lem : (s t : List ℕ) → Free s → until (s ++ (bracket ∷ t)) ≡ (s, t)
until_lem [] t h = refl
until_lem (c ∷ s) t h =
    let other : (c == bracket) ≡ false = ground (arith, h.0) in rw (other, until_lem s t h.1) refl

but_last_lem : (s : List ℕ) (c : ℕ) → but_last (s ++ (c ∷ [])) ≡ s
but_last_lem s c =
    take_prefix (length (s ++ (c ∷ [])) - 1) s (c ∷ []) (omega (arith, length-append s (c ∷ [])))

read_level_lem :
    (l : LogLevel) → (read_level (level_to_string l) ≡ some l) × Free (level_to_string l)
unfolding level_to_string
read_level_lem debug =
    (refl, (omega arith, (omega arith, (omega arith, (omega arith, (omega arith, tt))))))
read_level_lem info = (refl, (omega arith, (omega arith, (omega arith, (omega arith, tt)))))
read_level_lem warn = (refl, (omega arith, (omega arith, (omega arith, (omega arith, tt)))))
read_level_lem error =
    (refl, (omega arith, (omega arith, (omega arith, (omega arith, (omega arith, tt))))))
read_level_lem fatal =
    (refl, (omega arith, (omega arith, (omega arith, (omega arith, (omega arith, tt))))))

abbrev place_of : LogMessage → List ℕ
place_of m = m.file_name ++ (codes ": " ++ to_string m.line)

-- A field with its brackets, and what follows.
abbrev field : List ℕ → List ℕ → List ℕ
field s rest = b'[' ∷ (s ++ (bracket ∷ rest))

abbrev last_part : LogMessage → List ℕ
last_part m = 9 ∷ (m.payload ++ (10 ∷ []))

abbrev place_part : LogMessage → List ℕ
place_part m = field (place_of m) (last_part m)

abbrev level_part : LogMessage → List ℕ
level_part m = field (level_to_string m.level) (field m.name (place_part m))

format_lem : (m : LogMessage) → format m ≡ field m.time (field m.tid (level_part m))
unfolding format
format_lem m = simp append_assoc

-- What the message was made of, as the reader gives it.
abbrev pub fields_of : LogMessage → Fields
fields_of m = record {
  time = m.time;
  tid = m.tid;
  level = some m.level;
  name = m.name;
  place = m.file_name ++ (codes ": " ++ to_string m.line);
  payload = m.payload;
}

-- A reader that takes the line apart at the closing brackets gets back the time, the thread, the level,
-- the logger's name, the place in the source and the text, whatever the text is, if the time, the
-- thread, the logger's name and the file's name have no closing bracket in them.
pub read_line-format :
    (m : LogMessage)
    → Free m.time
    → Free m.tid
    → Free m.name
    → Free m.file_name
    → read_line (format m) ≡ fields_of m
unfolding read_line
read_line-format m ti td na fi =
    let (known, le) = read_level_lem m.level in
    let pl : Free (place_of m) =
      append-Free m.file_name (codes ": " ++ to_string m.line) fi
        (omega arith, (omega arith, Digits-Free (to_string m.line) (to_string-Digits m.line))) in
    let a = until_lem m.time (field m.tid (level_part m)) ti in
    let b = until_lem m.tid (level_part m) td in
    let c = until_lem (level_to_string m.level) (field m.name (place_part m)) le in
    let d = until_lem m.name (place_part m) na in
    let e = until_lem (place_of m) (last_part m) pl in
    rw (format_lem m, a, b, c, d, e, known, but_last_lem m.payload 10) refl
