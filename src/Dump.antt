-- ===== src/Dump.antt =====
-- include/co_net/dump.hpp: class Dump, by the text that it makes. A text is a list of character
-- codes; `show` prints a number, and the place in the source is an argument.
pub mod Escape
use co_net.Base.{
  ℕ, zero, suc, Bool, true, false, List, [], ◌∷◌, ◌++◌, Option, none, some, ◌==◌, if◌then◌else◌,
}

abbrev pub Text : Type 0
Text = List ℕ

-- '\0', '\n', '/', '\\', 'n'
abbrev pub nul : ℕ
nul = 0

abbrev pub newline : ℕ
newline = 10

abbrev pub slash : ℕ
slash = 47

abbrev pub backslash : ℕ
backslash = 92

abbrev pub letter_n : ℕ
letter_n = 110

-- "\033[", "\033[0m", ": ", ", "
abbrev pub escape_start : Text
escape_start = 27 ∷ 91 ∷ []

abbrev pub reset : Text
reset = 27 ∷ 91 ∷ 48 ∷ 109 ∷ []

abbrev pub colon_space : Text
colon_space = 58 ∷ 32 ∷ []

abbrev pub comma_space : Text
comma_space = 44 ∷ 32 ∷ []

-- enum class Color
pub data Color : Type 0 where
  black red green yellow blue magenta cyan white : Color

unfoldable pub code : Color → ℕ
code Color.black = 30
code Color.red = 31
code Color.green = 32
code Color.yellow = 33
code Color.blue = 34
code Color.magenta = 35
code Color.cyan = 36
code Color.white = 37

pub record Location : Type 0 where
  pub file_name : Text
  pub line : ℕ
  pub function_name : Text

pub record Dump : Type 0 where
  pub color : Color
  pub formatted : Text

-- What the split of a text puts in front of its words: one more character of the first word, which
-- an empty rest does not have yet.
unfoldable pub extend_word : ℕ → List Text → List Text
extend_word c [] = (c ∷ []) ∷ []
extend_word c (w ∷ ws) = (c ∷ w) ∷ ws

-- `std::views::split('/')`: no words for an empty text, else one more than there are slashes.
unfoldable pub words : Text → List Text
unfolding extend_word
words [] = []
words (c ∷ []) = if c == slash then [] ∷ [] ∷ [] else (c ∷ []) ∷ []
words (c ∷ d ∷ cs) =
    let rest = words (d ∷ cs) in if c == slash then [] ∷ rest else extend_word c rest

-- `*words.rbegin()`; `none` is the access to an empty vector.
unfoldable pub last_word : List Text → Option Text
last_word [] = none
last_word (w ∷ []) = some w
last_word (w ∷ v ∷ ws) = last_word (v ∷ ws)

-- The loop over the characters of a message.
unfoldable pub transfer : Text → Text
transfer [] = []
transfer (c ∷ cs) =
    let rest = transfer cs in
    (if c == newline then backslash ∷ letter_n ∷ [] else c ∷ []) ++ (if c == nul then [] else rest)

module _ (show : ℕ → Text) where
  -- "\033[1;{}m{}\033[0m"
  unfoldable pub colored : ℕ → Text → Text
  colored n text = escape_start ++ show 1 ++ 59 ∷ show n ++ 109 ∷ text ++ reset

  unfoldable pub construct : Color → Bool → Location → Option Dump
  unfolding colored words last_word
  construct color func_name loc = elim (last_word (words loc.file_name)) [
    | none ↦ none
    | some file ↦ some (record {
      color = color;
      formatted =
          colored 31 file
          ++ colon_space
          ++ colored 36 (show loc.line)
          ++ comma_space
          ++ colored 35 (if func_name then loc.function_name else [])
          ++ newline ∷ [];
    })
  ]

  -- `operator,` for what `std::format` prints as `msg`, and for what is converted to a string.
  unfoldable pub put : Text → Dump → Dump
  unfolding colored code
  put msg d = record d { formatted = d.formatted ++ colored (code d.color) msg ++ newline ∷ [] }

  unfoldable pub put_string : Text → Dump → Dump
  unfolding put transfer
  put_string msg d = put (transfer msg) d

  -- "Thread {id}, ", the text and a newline.
  unfoldable pub print : Text → Dump → Text
  print thread_id d =
      (84 ∷ 104 ∷ 114 ∷ 101 ∷ 97 ∷ 100 ∷ 32 ∷ thread_id)
      ++ comma_space
      ++ d.formatted
      ++ newline ∷ []
