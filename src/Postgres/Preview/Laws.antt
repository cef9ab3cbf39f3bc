-- ===== src/Postgres/Preview/Laws.antt =====
-- The texts of bound parameters as literals.
use ohmydb_proxy.Prelude.{
  ==_iff, All, Bool, Bool-cases, Bytes, Option, Option-cases, Text, [], append_assoc, decode_utf8,
  decode_utf8_replace, false, if◌then◌else◌, inl, inr, length, lit, none, refl, some, true,
  unpack_signed, ℕ, ◌++◌, ◌==◌, ◌∷◌, ◌≡◌, ◌⊎◌,
}
use ohmydb_proxy.Prelude.Plain.{IsPlain, int_text-IsPlain}
use ohmydb_proxy.Postgres.Preview.{
  DecodedParam, decode_binary, decode_param, decode_text, double_quotes, is_nonzero, quote,
}

-- How PostgreSQL reads a string literal behind its opening quote: the text, in which two quotes stand
-- for one, and what follows the closing quote.
unfoldable pub read_body : Text → Option (Text × Text)
read_body [] = none
read_body (c ∷ []) = if c == b'\'' then some ([], []) else none
read_body (c ∷ d ∷ cs) =
    let behind = read_body (d ∷ cs) in
    let doubled = read_body cs in
    if c == b'\''
    then (if d == b'\''
        then (elim doubled [ none ↦ none | some (t, rest) ↦ some (b'\'' ∷ t, rest) ])
        else some ([], d ∷ cs))
    else elim behind [ none ↦ none | some (t, rest) ↦ some (c ∷ t, rest) ]

unfoldable pub read_literal : Text → Option (Text × Text)
unfolding read_body
read_literal [] = none
read_literal (c ∷ cs) = if c == b'\'' then read_body cs else none

abbrev pub starts_with_quote : Text → Bool
starts_with_quote [] = false
starts_with_quote (c ∷ cs) = c == b'\''

read_body_end :
    (rest : Text) → starts_with_quote rest ≡ false → read_body (b'\'' ∷ rest) ≡ some ([], rest)
unfolding read_body
read_body_end [] h = refl
read_body_end (c ∷ rest) h = rw h refl

read_body_char :
    (c : ℕ) (cs t rest : Text)
    → (c == b'\'') ≡ false
    → read_body cs ≡ some (t, rest)
    → read_body (c ∷ cs) ≡ some (c ∷ t, rest)
unfolding read_body
read_body_char c [] t rest n h = cc
read_body_char c (d ∷ cs) t rest n h = rw n (rw h refl)

read_body_doubled :
    (cs t rest : Text)
    → read_body cs ≡ some (t, rest)
    → read_body (b'\'' ∷ b'\'' ∷ cs) ≡ some (b'\'' ∷ t, rest)
unfolding read_body
read_body_doubled cs t rest h = rw h refl

read_body-double_quotes :
    (t rest : Text)
    → starts_with_quote rest ≡ false
    → read_body (double_quotes t ++ (b'\'' ∷ rest)) ≡ some (t, rest)
unfolding double_quotes
read_body-double_quotes [] rest h = read_body_end rest h
read_body-double_quotes (c ∷ t) rest h =
    let ih = read_body-double_quotes t rest h in
    elim (Bool-cases (c == b'\'')) [
      | inl q ↦ let e : c ≡ b'\'' = (==_iff c b'\'').0 q in rw e (read_body_doubled _ t rest ih)
      | inr q ↦ rw q (read_body_char c _ t rest q ih)
    ]

-- A quoted text is read back, up to its last quote and no further, whatever follows but a quote.
read_literal-quote :
    (t rest : Text)
    → starts_with_quote rest ≡ false
    → read_literal (quote t ++ rest) ≡ some (t, rest)
unfolding read_literal quote
read_literal-quote t rest h =
    rw (append_assoc (double_quotes t) (b'\'' ∷ []) rest) (read_body-double_quotes t rest h)

-- Plain characters, or a quoted text.
abbrev IsQuoted : Text → Type 0
IsQuoted literal = All IsPlain literal ⊎ ((t : Text) × (literal ≡ quote t))

decode_text-IsQuoted : (raw : Bytes) → IsQuoted (decode_text raw).sql_literal
decode_text-IsQuoted raw = elim (Option-cases (decode_utf8 raw)) [
  | inl e ↦ rw (e, decode_text) (inl (unfold lit in (refl, (refl, (refl, (refl, tt))))))
  | inr (t, e) ↦ rw (e, decode_text) (inr (t, refl))
]

truth-IsQuoted : (b : Bool) → All IsPlain (if b then lit "TRUE" else lit "FALSE")
unfolding lit
truth-IsQuoted true = (refl, (refl, (refl, (refl, tt))))
truth-IsQuoted false = (refl, (refl, (refl, (refl, (refl, tt)))))

literal-if :
    (b : Bool) (p q : DecodedParam)
    → IsQuoted p.sql_literal
    → IsQuoted q.sql_literal
    → IsQuoted (if b then p else q).sql_literal
literal-if true p q hp hq = hp
literal-if false p q hp hq = hq

decode_binary-IsQuoted : (raw : Bytes) → IsQuoted (decode_binary raw).sql_literal
unfolding decode_binary
decode_binary-IsQuoted raw =
    literal-if (length raw == 1) _ _ (inl (truth-IsQuoted (is_nonzero raw))) (
      literal-if (length raw == 2) _ _ (inl (int_text-IsPlain (unpack_signed 16 raw))) (
        literal-if (length raw == 4) _ _ (inl (int_text-IsPlain (unpack_signed 32 raw))) (
          literal-if (length raw == 8) _ _ (inl (int_text-IsPlain (unpack_signed 64 raw)))
            (decode_text-IsQuoted raw))))

decode_param-IsQuoted :
    (value : Option Bytes) (format_code : ℕ) → IsQuoted (decode_param value format_code).sql_literal
unfolding decode_param
decode_param-IsQuoted none format_code = inl (unfold lit in (refl, (refl, (refl, (refl, tt)))))
decode_param-IsQuoted (some raw) format_code =
    literal-if (format_code == 0) _ _ (inr (decode_utf8_replace raw, refl))
      (decode_binary-IsQuoted raw)

-- Whatever value a client binds, in either format, its literal is made of plain characters alone, or it
-- is a string literal that PostgreSQL reads back up to its last quote and no further, as long as no
-- quote follows it.
pub decode_param-IsLiteral :
    (value : Option Bytes) (format_code : ℕ) (rest : Text)
    → starts_with_quote rest ≡ false
    → All IsPlain (decode_param value format_code).sql_literal
      ⊎ ((t : Text) × (read_literal ((decode_param value format_code).sql_literal ++ rest)
            ≡ some (t, rest)))
decode_param-IsLiteral value format_code rest h = elim (decode_param-IsQuoted value format_code) [
  | inl p ↦ inl p
  | inr (t, e) ↦ inr (t, rw e (read_literal-quote t rest h))
]
