-- ===== src/MySql/Reconstruct.antt =====
-- `reconstruct_stmt_execute_sql` of protocol.py: the literals in place of the placeholders.
pub mod Template
pub mod Outcomes
pub mod Splice
use mathlib.Core.List.{head?}
use ohmydb_proxy.Prelude.{
  Bool, Error, List, Result, Text, [], drop, elem, err, false, if◌then◌else◌, is_empty, is_space,
  length, map, not, ok, raise_if, suc, take, true, zero, ℕ, ◌!=◌, ◌&&◌, ◌++◌, ◌+◌, ◌==◌, ◌>>=◌,
  ◌>>◌, ◌||◌, ◌∷◌,
}
use ohmydb_proxy.MySql.Command.{mysql_error}
use ohmydb_proxy.MySql.Params.Values.{MySqlDecodedParameter}

-- The variable `state`: "sql", a quote character, "line_comment" or "block_comment".
pub data State : Type 0 where
  sql : State
  quoted : ℕ → State
  line_comment : State
  block_comment : State

-- What one round of the loop does: it raises, takes a literal, or copies one or two characters.
pub data Action : Type 0 where
  refuse : Error → Action
  placeholder : Action
  copy_one : State → Action
  copy_two : State → Action

-- `following == char`
abbrev pub follows : ℕ → Text → Bool
follows char [] = false
follows char (f ∷ rest) = f == char

-- `index + 2 == len(sql_template) or sql_template[index + 2].isspace()`, at the text behind index.
abbrev pub blank_after_next : Text → Bool
blank_after_next (f ∷ c ∷ rest) = is_space c
blank_after_next _ = true

-- The test of `comment_prefix` for "/*!" and "/*M!" in either case, at the text behind "/".
-- No character but M and m becomes M by `upper`, and none but ! becomes !.
abbrev pub is_executable_comment : Text → Bool
is_executable_comment (star ∷ c ∷ []) = c == b'!'
is_executable_comment (star ∷ c ∷ d ∷ rest) = c == b'!' || (c == b'M' || c == b'm') && d == b'!'
is_executable_comment _ = false

unfoldable pub step_sql : ℕ → Text → Action
step_sql char rest =
    if char == b'?'
    then placeholder
    else if elem char (0x27 ∷ 0x22 ∷ 0x60 ∷ [])
    then copy_one (quoted char)
    else if char == b'#'
    then copy_one line_comment
    else if (char == b'-' && follows b'-' rest) && blank_after_next rest
    then copy_two line_comment
    else if char == b'/' && follows b'*' rest
    then if is_executable_comment rest
      then refuse (
          mysql_error
            "Prepared SQL contains an executable comment and cannot be reconstructed safely")
      else copy_two block_comment
    else copy_one sql

-- Inside quotes a doubled quote stays inside.
unfoldable pub step_quoted : ℕ → ℕ → Text → Action
step_quoted quote char rest =
    if char == 0x5c
    then refuse (
        mysql_error
          "Prepared SQL contains a mode-dependent backslash escape and cannot be reconstructed safely")
    else if char == quote
    then if follows quote rest then copy_two (quoted quote) else copy_one sql
    else copy_one (quoted quote)

unfoldable pub step : State → ℕ → Text → Action
unfolding step_sql step_quoted
step sql char rest = step_sql char rest
step (quoted quote) char rest = step_quoted quote char rest
step line_comment char rest = copy_one (if elem char (0x0a ∷ 0x0d ∷ []) then sql else line_comment)
step block_comment char rest =
    if char == b'*' && follows b'/' rest then copy_two sql else copy_one block_comment

-- The variables of the loop at its end.
pub record Scan : Type 0 where
  pub state : State
  pub literals : List Text
  pub output : Text
  pub replacements : ℕ

abbrev pub too_many : Error
too_many = mysql_error "Prepared SQL contains more placeholders than COM_STMT_PREPARE reported"

-- `next(literals)`
abbrev pub take_literal : List Text → Result (Text × List Text)
take_literal [] = err too_many
take_literal (l ∷ ls) = ok (l, ls)

-- A round takes one character at least, so the length of the text is fuel enough.
unfoldable pub scan : ℕ → State → Text → List Text → Text → ℕ → Result Scan
scan zero state text literals output replacements =
    ok (record { state = state; literals = literals; output = output; replacements = replacements })
scan (suc fuel) state [] literals output replacements =
    ok (record { state = state; literals = literals; output = output; replacements = replacements })
scan (suc fuel) state (char ∷ rest) literals output replacements = elim (step state char rest) [
  | refuse e ↦ err e
  | placeholder ↦
      take_literal literals >>= λ (l, ls). scan fuel state rest ls (output ++ l) (replacements + 1)
  | copy_one state' ↦ scan fuel state' rest literals (output ++ (char ∷ [])) replacements
  | copy_two state' ↦
      scan fuel state' (drop 1 rest) literals (output ++ (char ∷ take 1 rest)) replacements
]

abbrev pub is_open : State → Bool
is_open sql = false
is_open (quoted q) = true
is_open line_comment = false
is_open block_comment = true

unfoldable pub finish : ℕ → Scan → Result Text
finish parameter_count s = do
  raise_if (is_open s.state)
      (mysql_error "Prepared SQL has an unterminated quoted value or comment")
  raise_if (not (is_empty s.literals))
      (mysql_error "Prepared SQL contains fewer placeholders than COM_STMT_PREPARE reported")
  raise_if (s.replacements != parameter_count)
      (mysql_error "Prepared SQL placeholder count does not match parameter count")
  ok s.output

-- The function on the literals of the parameters.
unfoldable pub reconstruct : Text → List Text → Result Text
unfolding scan step finish
reconstruct sql_template literals = do
  s ← scan (length sql_template) sql sql_template literals [] 0
  finish (length literals) s

unfoldable pub reconstruct_stmt_execute_sql : Text → List MySqlDecodedParameter → Result Text
unfolding reconstruct
reconstruct_stmt_execute_sql sql_template parameters =
    reconstruct sql_template (map (λ p. p.sql_literal) parameters)
