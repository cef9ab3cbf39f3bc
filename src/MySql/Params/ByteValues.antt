-- ===== src/MySql/Params/ByteValues.antt =====
-- The values that a payload of bytes decodes to hold bytes only.
use ohmydb_proxy.Prelude.{
  All, All-drop, All-take, Bool-cases, Bytes, IsByte, List, Option, Option-cases, Result-cases,
  Text, [], arith, drop, elem, from_bytes_le, if◌then◌else◌, index, inl, inr, length, ok, pos, refl,
  slice, take, to_signed, ℕ, ℤ, ◌!=◌, ◌*◌, ◌+◌, ◌-◌, ◌/◌, ◌==◌, ◌∷◌, ◌≡◌, ◌⊎◌,
}
use ohmydb_proxy.Prelude.Plain.{IsPlain}
use ohmydb_proxy.MySql.Constants.{mysql_type_float}
use ohmydb_proxy.MySql.Command.{MySqlStmtExecute}
use ohmydb_proxy.MySql.Params.{
  MySqlStmtExecuteParameters, parameter_types_of, parse_parameters, parse_stmt_execute_parameters,
  read_parameter, read_parameters,
}
use ohmydb_proxy.MySql.Params.Types.{MySqlParameterType, float_types, integer_size, string_types}
use ohmydb_proxy.MySql.Params.Values.{
  MySqlDecodedParameter, decode_float, decode_integer, decode_other, decode_stmt_parameter,
  decode_string, float, integer, null, raw_bytes, read_stmt_lenenc_bytes, read_stmt_lenenc_size,
  take_stmt_bytes,
}
use ohmydb_proxy.MySql.Params.Literals.{IsWritten, parse_parameters-IsWritten}
use ohmydb_proxy.MySql.Params.Inert.{HasByteValue, IsByteValue, IsInert, literal_of-IsInert}

-- A value that is read as bytes is a slice of the payload.
read_stmt_lenenc_bytes-slice :
    (payload : Bytes) (offset i : ℕ) (value : Bytes) (end : ℕ)
    → read_stmt_lenenc_bytes payload offset i ≡ ok (value, end)
    → (from to : ℕ) × (value ≡ slice payload from to)
unfolding read_stmt_lenenc_bytes take_stmt_bytes
read_stmt_lenenc_bytes-slice payload offset i value end h =
    elim (Result-cases (index payload offset)) [
      | inr (x, f) ↦ absurd (ground (arith, f))
      | inl (marker, f) ↦
          elim (Result-cases (read_stmt_lenenc_size payload (offset + 1) marker i)) [
            | inr (x, q) ↦ absurd (ground (arith, f, q))
            | inl ((size, offset'), q) ↦ (offset', offset' + size, ground (arith, f, q))
          ]
    ]

module _ (float_repr : Bytes → Text) (payload : Bytes) (bytes : All IsByte payload) where
  slice-IsByte : (from to : ℕ) → All IsByte (slice payload from to)
  slice-IsByte from to =
      All-take IsByte (to - from) (drop from payload) (All-drop IsByte from payload bytes)

  decode_string-IsByteValue :
      (offset i : ℕ) (m : MySqlParameterType) (p : MySqlDecodedParameter) (end : ℕ)
      → decode_string payload offset i m ≡ ok (p, end)
      → IsByteValue p.value
  unfolding decode_string
  decode_string-IsByteValue offset i m p end h =
      elim (Result-cases (read_stmt_lenenc_bytes payload offset i)) [
        | inr (x, q) ↦ absurd (ground (arith, q))
        | inl ((value, end'), q) ↦
            let e : p.value ≡ raw_bytes value = ground (arith, q) in
            let (from, to, s) = read_stmt_lenenc_bytes-slice payload offset i value end' q in
            rw (e, s) (slice-IsByte from to)
      ]

  decode_integer-IsByteValue :
      (offset size i : ℕ) (m : MySqlParameterType) (p : MySqlDecodedParameter) (end : ℕ)
      → decode_integer payload offset size i m ≡ ok (p, end)
      → IsByteValue p.value
  unfolding decode_integer
  decode_integer-IsByteValue offset size i m p end h =
      elim (Result-cases (take_stmt_bytes payload offset size i)) [
        | inr (x, q) ↦ absurd (ground (arith, q))
        | inl ((raw, end'), q) ↦
            let n : ℤ =
              if m.unsigned
              then pos (from_bytes_le raw)
              else to_signed (8 * size) (from_bytes_le raw) in
            let e : p.value ≡ integer n = ground (arith, q) in rw e tt
      ]

  decode_float-IsByteValue :
      (offset i : ℕ) (m : MySqlParameterType) (p : MySqlDecodedParameter) (end : ℕ)
      → decode_float float_repr payload offset i m ≡ ok (p, end)
      → IsByteValue p.value
  unfolding decode_float
  decode_float-IsByteValue offset i m p end h =
      elim (Result-cases
        (take_stmt_bytes payload offset (if m.type_code == mysql_type_float then 4 else 8) i)) [
          | inr (x, q) ↦ absurd (ground (arith, q))
          | inl ((raw, end'), q) ↦ let e : p.value ≡ float raw = ground (arith, q) in rw e tt
        ]

  decode_other-IsByteValue :
      (offset i : ℕ) (m : MySqlParameterType) (p : MySqlDecodedParameter) (end : ℕ)
      → decode_other float_repr payload offset i m ≡ ok (p, end)
      → IsByteValue p.value
  unfolding decode_other
  decode_other-IsByteValue offset i m p end h = elim (Bool-cases m.unsigned) [
    | inl u ↦ absurd (ground (arith, u))
    | inr u ↦ elim (Bool-cases (elem m.type_code float_types)) [
      | inl f ↦ decode_float-IsByteValue offset i m p end (ground (arith, u, f))
      | inr f ↦ elim (Bool-cases (elem m.type_code string_types)) [
        | inl s ↦ decode_string-IsByteValue offset i m p end (ground (arith, u, f, s))
        | inr s ↦ absurd (ground (arith, u, f, s))
      ]
    ]
  ]

  decode_stmt_parameter-IsByteValue :
      (offset i : ℕ) (m : MySqlParameterType) (p : MySqlDecodedParameter) (end : ℕ)
      → decode_stmt_parameter float_repr payload offset i m ≡ ok (p, end)
      → IsByteValue p.value
  unfolding decode_stmt_parameter
  decode_stmt_parameter-IsByteValue offset i m p end h =
      elim (Option-cases (integer_size m.type_code)) [
        | inl n ↦ decode_other-IsByteValue offset i m p end (ground (arith, n))
        | inr (size, n) ↦ decode_integer-IsByteValue offset size i m p end (ground (arith, n))
      ]

  read_parameter_value :
      (null_bitmap : Bytes) (i offset : ℕ) (m : MySqlParameterType) (p : MySqlDecodedParameter)
      (end : ℕ)
      → read_parameter float_repr payload null_bitmap i offset m ≡ ok (p, end)
      → (p.value ≡ null) ⊎ (decode_stmt_parameter float_repr payload offset i m ≡ ok (p, end))
  unfolding read_parameter
  read_parameter_value null_bitmap i offset m p end h = ground arith

  read_parameter-IsByteValue :
      (null_bitmap : Bytes) (i offset : ℕ) (m : MySqlParameterType) (p : MySqlDecodedParameter)
      (end : ℕ)
      → read_parameter float_repr payload null_bitmap i offset m ≡ ok (p, end)
      → IsByteValue p.value
  read_parameter-IsByteValue null_bitmap i offset m p end h =
      elim (read_parameter_value null_bitmap i offset m p end h) [
        | inl e ↦ rw e tt
        | inr d ↦ decode_stmt_parameter-IsByteValue offset i m p end d
      ]

  read_parameters-IsByteValue :
      (null_bitmap : Bytes) (i offset : ℕ) (types : List MySqlParameterType)
      (ps : List MySqlDecodedParameter) (end : ℕ)
      → read_parameters float_repr payload null_bitmap i offset types ≡ ok (ps, end)
      → All HasByteValue ps
  unfolding read_parameters
  read_parameters-IsByteValue null_bitmap i offset [] [] end h = tt
  read_parameters-IsByteValue null_bitmap i offset [] (p ∷ ps) end h = absurd (ground arith)
  read_parameters-IsByteValue null_bitmap i offset (m ∷ ms) ps end h =
      elim (Result-cases (read_parameter float_repr payload null_bitmap i offset m)) [
        | inr (x, q) ↦ absurd (ground (arith, q))
        | inl ((p, offset'), q) ↦
            elim (Result-cases
              (read_parameters float_repr payload null_bitmap (i + 1) offset' ms)) [
                | inr (x, r) ↦ absurd (ground (arith, q, r))
                | inl ((qs, end'), r) ↦
                    let e : ps ≡ p ∷ qs = ground (arith, q, r) in
                    rw e (
                      read_parameter-IsByteValue null_bitmap i offset m p offset' q,
                      read_parameters-IsByteValue null_bitmap (i + 1) offset' ms qs end' r,
                    )
              ]
      ]

  parse_parameters-IsByteValue :
      (count : ℕ) (previous : Option (List MySqlParameterType)) (r : MySqlStmtExecuteParameters)
      → parse_parameters float_repr payload count previous ≡ ok r
      → All HasByteValue r.parameters
  unfolding parse_parameters
  parse_parameters-IsByteValue count previous r h =
      let size : ℕ = (count + 7) / 8 in
      elim (Result-cases (index payload size)) [
        | inr (x, f) ↦ absurd (ground (arith, f))
        | inl (flag, f) ↦
            elim (Result-cases (parameter_types_of payload (size + 1) (flag != 0) count previous)) [
              | inr (x, p) ↦ absurd (ground (arith, f, p))
              | inl ((types, offset), p) ↦
                  elim (Result-cases
                    (read_parameters float_repr payload (take size payload) 0 offset types)) [
                      | inr (x, q) ↦ absurd (ground (arith, f, p, q))
                      | inl ((ps, end), q) ↦
                          let e : r.parameters ≡ ps = ground (arith, f, p, q) in
                          rw e (
                            read_parameters-IsByteValue (take size payload) 0 offset types ps end q)
                    ]
            ]
      ]

abbrev pub HasInertLiteral : MySqlDecodedParameter → Type 0
HasInertLiteral p = IsInert p.sql_literal

All-HasInertLiteral :
    (float_repr : Bytes → Text)
    → ((raw : Bytes) → All IsPlain (float_repr raw))
    → (ps : List MySqlDecodedParameter) → All (IsWritten float_repr) ps
    → All HasByteValue ps
    → All HasInertLiteral ps
All-HasInertLiteral float_repr f [] w b = tt
All-HasInertLiteral float_repr f (p ∷ ps) w b = (
  rw w.0 (literal_of-IsInert float_repr p.value f b.0),
  All-HasInertLiteral float_repr f ps w.1 b.1,
)

parse_stmt_execute_parameters_cases :
    (float_repr : Bytes → Text) (execution : MySqlStmtExecute) (count : ℕ)
    (previous : Option (List MySqlParameterType)) (r : MySqlStmtExecuteParameters)
    → parse_stmt_execute_parameters float_repr execution count previous ≡ ok r
    → ((count ≡ 0) × (r.parameters ≡ []) × (r.parameter_types ≡ []))
      ⊎ (parse_parameters float_repr execution.parameter_payload count previous ≡ ok r)
unfolding parse_stmt_execute_parameters
parse_stmt_execute_parameters_cases float_repr execution count previous r h = ground arith

-- Decoding the parameters of an execution returns exactly as many parameters as the statement has,
-- with as many types. Each literal is the text of its decoded value and is inert: a hexadecimal
-- string literal, or a text of letters, digits, signs and points. The payload must consist of
-- bytes and the text of a float of plain characters.
pub parse_stmt_execute_parameters-IsInert :
    (float_repr : Bytes → Text) (execution : MySqlStmtExecute) (count : ℕ)
    (previous : Option (List MySqlParameterType)) (r : MySqlStmtExecuteParameters)
    → ((raw : Bytes) → All IsPlain (float_repr raw))
    → All IsByte execution.parameter_payload
    → parse_stmt_execute_parameters float_repr execution count previous ≡ ok r
    → (length r.parameters ≡ count)
      × (length r.parameter_types ≡ count)
      × All (IsWritten float_repr) r.parameters
      × All HasInertLiteral r.parameters
parse_stmt_execute_parameters-IsInert float_repr execution count previous r f bytes h =
    elim (parse_stmt_execute_parameters_cases float_repr execution count previous r h) [
      | inl (z, e, t) ↦ rw (e, t, z) (refl, refl, tt, tt)
      | inr p ↦
          let payload = execution.parameter_payload in
          let (n, k, written) = parse_parameters-IsWritten float_repr payload count previous r p in
          (
            n,
            k,
            written,
            All-HasInertLiteral float_repr f r.parameters written
                (parse_parameters-IsByteValue float_repr payload bytes count previous r p),
          )
    ]
