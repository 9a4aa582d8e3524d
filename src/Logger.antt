-- ===== src/Logger.antt =====
-- src/logger.hpp: the levels, the file name that a message carries, and which messages are printed.
-- A file name is a string literal, which ends in a byte 0; `name` of a level is its text.
pub mod Names
use virtual_media.Base.{
  ℕ, zero, suc, Bool, List, [], ◌∷◌, ◌++◌, Text, codes, if◌then◌else◌, leb, ◌==◌, ◌||◌, drop,
  length, get_or,
}

pub data Level : Type 0 where
  struct debug info warning error critical : Level

abbrev pub level_value : Level → ℕ
level_value struct = 6
level_value debug = 5
level_value info = 4
level_value warning = 3
level_value error = 2
level_value critical = 1

-- Padded to eight characters.
abbrev pub level_name : Level → Text
level_name struct = codes "Struct  "
level_name debug = codes "Debug   "
level_name info = codes "Info    "
level_name warning = codes "Warning "
level_name error = codes "Error   "
level_name critical = codes "Critical"

-- `LOG_LEVEL`.
abbrev pub log_level : Level
log_level = info

abbrev pub is_separator : ℕ → Bool
is_separator c = c == b'/' || c == b'\\'

-- `baseNameImpl`: from a position down to the first, which is not looked at.
unfoldable pub base_name_from : Text → ℕ → Text
base_name_from str zero = str
base_name_from str (suc pos) =
    let rest = base_name_from str pos in
    if is_separator (get_or str (suc pos) 0) then drop (suc (suc pos)) str else rest

-- `baseName`: from the byte 0 at the end.
unfoldable pub base_name : Text → Text
unfolding base_name_from
base_name str = base_name_from str (length str)

concat : List Text → Text
concat [] = []
concat (t ∷ ts) = t ++ concat ts

-- `logImpl`: what is written, nothing for a level above the defined one. The line and the arguments
-- are given as the texts that the stream writes for them.
unfoldable pub log_impl : Level → Level → Text → Text → Text → List Text → Text
unfolding concat
log_impl defined level file line fname args =
    if leb (level_value level) (level_value defined)
    then codes "["
      ++ (level_name level
          ++ (codes "] ["
              ++ (file
                  ++ (codes ":"
                      ++ (line
                          ++ (codes "] "
                              ++ (fname ++ (codes "(): " ++ (concat args ++ codes "\n")))))))))
    else []

-- `LogMsg(level, ...)` in a file.
unfoldable pub log_msg : Level → Text → Text → Text → List Text → Text
unfolding log_impl base_name
log_msg level file line fname args = log_impl log_level level (base_name file) line fname args

-- A vector is printed with a space after each element.
unfoldable pub print_vector : List Text → Text
print_vector [] = []
print_vector (t ∷ ts) = t ++ (b' ' ∷ print_vector ts)
