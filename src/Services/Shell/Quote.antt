-- ===== src/Services/Shell/Quote.antt =====
-- `quote` of src/services/shell.rs against the rules of the POSIX shell for one word.
use rsadb.Base.{
  ℕ, Bytes, ascii, Bool, false, ◌||◌, ◌==◌, if◌then◌else◌, Option, none, some, [], ◌∷◌,
}
use rsadb.Text.{contains_byte}
use rsadb.Services.Shell.{is_plain}

-- Outside of quotes, behind a backslash, between single quotes.
pub data Mode : Type 0 where
  bare escaped quoted : Mode

cons_byte : ℕ → Option Bytes → Option Bytes
cons_byte c none = none
cons_byte c (some s) = some (c ∷ s)

-- The bytes that part words, start an expansion or have another meaning in a word of a command, by
-- section 2.2 of the POSIX shell's language, with the braces, `!` and `^` that some shells add. The
-- `=` of that section has its meaning in front of the command's name only.
abbrev pub specials : Bytes
specials = ascii "|&;<>()$`\\\"'*?[]#~%!{}^ \t\n\r"

-- The word that the shell reads, quotes removed: between single quotes each byte stands for itself,
-- a backslash outside of them lets the next byte stand for itself, and any other byte that has a
-- meaning to the shell is refused.
pub word : Mode → Bytes → Option Bytes
unfolding cons_byte
word bare [] = some []
word escaped [] = none
word quoted [] = none
word bare (c ∷ s) =
    let opened = word quoted s in
    let escape = word escaped s in
    let rest = word bare s in
    if c == b'\''
    then opened
    else if c == b'\\'
    then escape
    else if contains_byte c specials
    then none
    else cons_byte c rest
word escaped (c ∷ s) = cons_byte c (word bare s)
word quoted (c ∷ s) =
    let close = word bare s in
    let rest = word quoted s in if c == b'\'' then close else cons_byte c rest

abbrev quote_mark : Bytes
quote_mark = b'\'' ∷ []

any_plain : Bytes → Bool
any_plain [] = false
any_plain (d ∷ ds) = is_plain d || any_plain ds
