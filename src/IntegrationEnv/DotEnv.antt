-- ===== src/IntegrationEnv/DotEnv.antt =====
-- readDotEnv of internal/testutil/integrationenv/env.go.
pub mod Last
use Prim.Native.String.{[], ◌∷◌}
use platform_mihomo_service.Base.{
  ℕ, Char, String, Option, none, some, Bool, not, ◌&&◌, ◌||◌, leb, ◌==◌, if◌then◌else◌, List, [],
  ◌∷◌,
}
use platform_mihomo_service.IntegrationEnv.Text.{
  size, same_char, trim, trim_space, begins_with, ends_with, cut,
}
use platform_mihomo_service.IntegrationEnv.Defs.{
  EnvError, read_failed, invalid_line, empty_key, Checked, done, failed, Table, put, Host, contents,
  missing, unreadable,
}

abbrev pub onto_first : Char → List String → List String
onto_first c [] = (c ∷ []) ∷ []
onto_first c (l ∷ ls) = (c ∷ l) ∷ ls

-- `strings.Split(s, "\n")`
unfoldable pub split_lines : String → List String
split_lines [] = [] ∷ []
split_lines (c ∷ s) =
    let rest = split_lines s in if same_char "\n" c then [] ∷ rest else onto_first c rest

unfoldable pub unquote_with : Char → String → String
unfolding trim begins_with ends_with
unquote_with q value =
    if begins_with q value && ends_with q value then trim (same_char q) value else value

-- A text of one character outside ASCII has two bytes or more, but no quote.
unfoldable pub unquote : String → String
unfolding unquote_with
unquote value = if leb 2 (size value) then unquote_with "'" (unquote_with "\"" value) else value

-- What the body of the loop does with a line: `continue`, an assignment, or an error.
pub data Line : Type 0 where
  skip : Line
  assign : String → String → Line
  refuse : EnvError → Line

abbrev assignment : String → String → String → String → Line
unfolding trim_space unquote
assignment path raw_line key value =
    if trim_space key == ""
    then refuse (empty_key path raw_line)
    else assign (trim_space key) (unquote (trim_space value))

unfoldable pub read_line : String → String → Line
unfolding trim_space begins_with cut assignment
read_line path raw_line =
    if trim_space raw_line == "" || begins_with "#" (trim_space raw_line)
    then skip
    else elim (cut "=" (trim_space raw_line)) [
      | none ↦ refuse (invalid_line path raw_line)
      | some (key, value) ↦ assignment path raw_line key value
    ]

unfoldable pub read_lines : String → List String → Table String → Checked (Table String)
unfolding read_line
read_lines path [] values = done values
read_lines path (l ∷ ls) values = elim (read_line path l) [
  | skip ↦ read_lines path ls values
  | assign key value ↦ read_lines path ls (put key value values)
  | refuse e ↦ failed e
]

unfoldable pub read_dot_env : Host → String → Checked (Table String)
unfolding read_lines split_lines
read_dot_env host path = elim (host.read_file path) [
  | missing ↦ done []
  | unreadable ↦ failed (read_failed path)
  | contents text ↦ read_lines path (split_lines text) []
]
