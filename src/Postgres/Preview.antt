-- ===== src/Postgres/Preview.antt =====
-- param_decoder.py and preview_builder.py: the literals of bound parameters, and the preview query
-- with its placeholders replaced by them.
pub mod Laws
use ohmydb_proxy.Prelude.{
  Bool, Bytes, List, Option, Result, Text, [], decode_utf8, decode_utf8_replace, err, false,
  get_elem?, if◌then◌else◌, index_error, int_text, is_some, leb, length, lit, map, none, ok, some,
  suc, true, unpack_signed, value_or, zero, ℕ, ◌!=◌, ◌&&◌, ◌*◌, ◌++◌, ◌+◌, ◌-◌, ◌==◌, ◌>>=◌, ◌>>◌,
  ◌||◌, ◌∷◌,
}
use ohmydb_proxy.Postgres.Protocol.{}

-- The strings that `confidence` takes.
pub data Confidence : Type 0 where
  exact : Confidence
  heuristic : Confidence
  undecoded : Confidence

pub record DecodedParam : Type 0 where
  pub sql_literal : Text
  pub confidence : Confidence

-- text.replace("'", "''")
unfoldable pub double_quotes : Text → Text
double_quotes [] = []
double_quotes (c ∷ cs) =
    if c == b'\'' then b'\'' ∷ b'\'' ∷ double_quotes cs else c ∷ double_quotes cs

unfoldable pub quote : Text → Text
unfolding double_quotes
quote text = b'\'' ∷ (double_quotes text ++ (b'\'' ∷ []))

abbrev pub decoded : Text → Confidence → DecodedParam
decoded sql_literal confidence = record { sql_literal = sql_literal; confidence = confidence }

-- Bytes of no size that has an integer's or a Boolean's meaning.
abbrev pub decode_text : Bytes → DecodedParam
decode_text raw = elim (decode_utf8 raw) [
  | none ↦ decoded (lit "NULL") undecoded
  | some text ↦ decoded (quote text) heuristic
]

abbrev pub is_nonzero : Bytes → Bool
is_nonzero [] = false
is_nonzero (b ∷ bs) = b != 0

unfoldable pub decode_binary : Bytes → DecodedParam
unfolding quote
decode_binary raw =
    let size = length raw in
    if size == 1
    then decoded (if is_nonzero raw then lit "TRUE" else lit "FALSE") heuristic
    else if size == 2
    then decoded (int_text (unpack_signed 16 raw)) heuristic
    else if size == 4
    then decoded (int_text (unpack_signed 32 raw)) heuristic
    else if size == 8
    then decoded (int_text (unpack_signed 64 raw)) heuristic
    else decode_text raw

unfoldable pub decode_param : Option Bytes → ℕ → DecodedParam
unfolding decode_binary quote
decode_param none format_code = decoded (lit "NULL") exact
decode_param (some raw) format_code =
    if format_code == 0 then decoded (quote (decode_utf8_replace raw)) exact else decode_binary raw

-- The code points of the zeros of Unicode's decimal digits, which `\d` and `int` accept. Nine digits
-- follow each.
abbrev pub decimal_zeros : List ℕ
decimal_zeros =
    0x30 ∷ 0x660 ∷ 0x6f0 ∷ 0x7c0 ∷ 0x966 ∷ 0x9e6 ∷ 0xa66 ∷ 0xae6 ∷ 0xb66 ∷ 0xbe6 ∷ 0xc66 ∷ 0xce6
    ∷ 0xd66 ∷ 0xde6 ∷ 0xe50 ∷ 0xed0 ∷ 0xf20 ∷ 0x1040 ∷ 0x1090 ∷ 0x17e0 ∷ 0x1810 ∷ 0x1946 ∷ 0x19d0
    ∷ 0x1a80 ∷ 0x1a90 ∷ 0x1b50 ∷ 0x1bb0 ∷ 0x1c40 ∷ 0x1c50 ∷ 0xa620 ∷ 0xa8d0 ∷ 0xa900 ∷ 0xa9d0
    ∷ 0xa9f0 ∷ 0xaa50 ∷ 0xabf0 ∷ 0xff10 ∷ 0x104a0 ∷ 0x10d30 ∷ 0x11066 ∷ 0x110f0 ∷ 0x11136 ∷ 0x111d0
    ∷ 0x112f0 ∷ 0x11450 ∷ 0x114d0 ∷ 0x11650 ∷ 0x116c0 ∷ 0x11730 ∷ 0x118e0 ∷ 0x11950 ∷ 0x11c50
    ∷ 0x11d50 ∷ 0x11da0 ∷ 0x11f50 ∷ 0x16a60 ∷ 0x16ac0 ∷ 0x16b50 ∷ 0x1d7ce ∷ 0x1d7d8 ∷ 0x1d7e2
    ∷ 0x1d7ec ∷ 0x1d7f6 ∷ 0x1e140 ∷ 0x1e2f0 ∷ 0x1e4f0 ∷ 0x1e950 ∷ 0x1fbf0 ∷ []

unfoldable pub digit_in : List ℕ → ℕ → Option ℕ
digit_in [] c = none
digit_in (zero_char ∷ zeros) c =
    if leb zero_char c && leb c (zero_char + 9) then some (c - zero_char) else digit_in zeros c

unfoldable pub digit_value : ℕ → Option ℕ
unfolding digit_in
digit_value c = digit_in decimal_zeros c

-- The text in pieces: what stands between the matches of `\$(\d+)`, and each match as its digits.
pub data Piece : Type 0 where
  char : ℕ → Piece
  placeholder : Text → Piece

-- A `$` in front of the pieces of the text behind it, and the digits that the text begins with.
abbrev pub dollar : Text → List Piece → List Piece
dollar [] rest = char b'$' ∷ rest
dollar (d ∷ digits) rest = placeholder (d ∷ digits) ∷ rest

-- The digits in front, and the pieces of what stands behind them.
unfoldable pub split_digits : Text → Text × List Piece
unfolding digit_value
split_digits [] = ([], [])
split_digits (c ∷ cs) =
    let (digits, rest) = split_digits cs in
    if is_some (digit_value c)
    then (c ∷ digits, rest)
    else if c == b'$'
    then ([], dollar digits rest)
    else ([], char c ∷ (map char digits ++ rest))

unfoldable pub pieces : Text → List Piece
unfolding split_digits
pieces text = let (digits, rest) = split_digits text in map char digits ++ rest

-- int(digits)
unfoldable pub number : ℕ → Text → ℕ
unfolding digit_value
number n [] = n
number n (c ∷ digits) = number (n * 10 + value_or (digit_value c) 0) digits

-- The last parameter, which the index -1 names.
abbrev pub last_param : List DecodedParam → Result DecodedParam
last_param [] = err index_error
last_param (p ∷ []) = ok p
last_param (p ∷ q ∷ ps) = last_param (q ∷ ps)

-- The parameter that `$n` stands for: none when there are fewer. For `$0` the index is -1.
unfoldable pub find_param : List DecodedParam → ℕ → Result (Option DecodedParam)
find_param params zero = do p ← last_param params; ok (some p)
find_param params (suc i) = ok (get_elem? params i)

pub record Substituted : Type 0 where
  pub text : Text
  pub failed : Bool
  pub any_heuristic : Bool

abbrev pub is_undecoded : Confidence → Bool
is_undecoded undecoded = true
is_undecoded _ = false

abbrev pub is_heuristic : Confidence → Bool
is_heuristic heuristic = true
is_heuristic _ = false

-- What one match is replaced by, in front of the rest.
abbrev pub replace : Text → Option DecodedParam → Substituted → Substituted
replace digits none s = record s { text = b'$' ∷ (digits ++ s.text); failed = true }
replace digits (some p) s = record {
  text = p.sql_literal ++ s.text;
  failed = is_undecoded p.confidence || s.failed;
  any_heuristic = is_heuristic p.confidence || s.any_heuristic;
}

unfoldable pub substitute : List DecodedParam → List Piece → Result Substituted
unfolding find_param number
substitute params [] = ok (record { text = []; failed = false; any_heuristic = false })
substitute params (char c ∷ rest) = do
  s ← substitute params rest
  ok (record s { text = c ∷ s.text })
substitute params (placeholder digits ∷ rest) = do
  p ← find_param params (number 0 digits)
  s ← substitute params rest
  ok (replace digits p s)

unfoldable pub substitute_params : Text → List DecodedParam → Result (Option Text × Bool)
unfolding substitute pieces
substitute_params preview_query params = do
  s ← substitute params (pieces preview_query)
  ok (if s.failed then (none, false) else (some s.text, s.any_heuristic))
