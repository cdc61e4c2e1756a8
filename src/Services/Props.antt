-- ===== src/Services/Props.antt =====
-- src/services/props.rs: the names of properties, and the lines that `getprop` prints.
pub mod Names
use rsadb.Base.{
  ℕ, Bytes, ascii, Bool, true, false, not, ◌&&◌, ◌||◌, ◌==◌, leb, if◌then◌else◌, Option, none, some,
  length, List, [], ◌∷◌, ◌++◌,
}
use rsadb.Error.{Result, ok, err, invalid_argument, invalid_property}
use rsadb.Text.{contains_byte, is_empty, is_alphanumeric, lines, split_once, strip_prefix, trim_end}
use rsadb.Text.TextMap.{TextMap, insert}

unfoldable pub is_name_byte : ℕ → Bool
is_name_byte b = is_alphanumeric b || contains_byte b (ascii "._-:@")

abbrev pub all_name_bytes : Bytes → Bool
all_name_bytes [] = true
all_name_bytes (b ∷ bs) = is_name_byte b && all_name_bytes bs

unfoldable pub is_valid : Bytes → Bool
is_valid name = not (is_empty name) && (leb (length name) 255 && all_name_bytes name)

unfoldable pub validate_name : Bytes → Result (Unit {0})
validate_name name = if is_valid name then ok tt else err (invalid_argument (invalid_property name))

cons_front : ℕ → Option Bytes → Option Bytes
cons_front c none = none
cons_front c (some s) = some (c ∷ s)

-- `strip_suffix(']')`
unfoldable pub strip_bracket : Bytes → Option Bytes
unfolding cons_front
strip_bracket [] = none
strip_bracket (c ∷ []) = if c == b']' then some [] else none
strip_bracket (c ∷ d ∷ s) = cons_front c (strip_bracket (d ∷ s))

-- The properties so far, and the name and the value that a line has not ended.
abbrev pub Scanned : Type 0
Scanned = TextMap × Option (Bytes × Bytes)

value_end : TextMap → Bytes → Bytes → Option Bytes → Scanned
value_end props name value none = (props, some (name, value))
value_end props name value (some v) = (insert name v props, none)

line_start : TextMap → Option (Bytes × Bytes) → Scanned
unfolding value_end
line_start props none = (props, none)
line_start props (some (name, value)) = value_end props name value (strip_bracket value)

name_and_value : Option Bytes → Option (Bytes × Bytes)
name_and_value none = none
name_and_value (some rest) = split_once (ascii "]: [") rest

scan_line : Bytes → Scanned → Scanned
unfolding value_end line_start name_and_value
scan_line line (props, some (name, value)) =
    let longer = value ++ (b'\n' ∷ line) in value_end props name longer (strip_bracket longer)
scan_line line (props, none) = line_start props (name_and_value (strip_prefix (ascii "[") line))

scan_lines : List Bytes → Scanned → Scanned
unfolding scan_line
scan_lines [] p = p
scan_lines (l ∷ ls) p = scan_lines ls (scan_line (trim_end (λ c. c == b'\r') l) p)

unfoldable pub parse_all : Bytes → TextMap
unfolding scan_lines
parse_all output = (scan_lines (lines output) ([], none)).0
