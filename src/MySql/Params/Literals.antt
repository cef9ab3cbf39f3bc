-- ===== src/MySql/Params/Literals.antt =====
-- The literals of decoded parameters, and their number.
use ohmydb_proxy.Prelude.{
  All, Bytes, List, Option, Result-cases, Text, [], ap, arith, hex, index, inl, inr, int_text,
  length, lit, ok, refl, suc, take, ℕ, ◌!=◌, ◌++◌, ◌+◌, ◌/◌, ◌∙◌, ◌∷◌, ◌≡◌,
}
use ohmydb_proxy.MySql.Constants.{}
use ohmydb_proxy.MySql.Command.{}
use ohmydb_proxy.MySql.Params.{
  MySqlStmtExecuteParameters, parameter_types_of, parse_parameters, read_parameter, read_parameters,
}
use ohmydb_proxy.MySql.Params.Types.{MySqlParameterType}
use ohmydb_proxy.MySql.Params.Values.{
  MySqlDecodedParameter, Value, decode_float, decode_integer, decode_other, decode_stmt_parameter,
  decode_string, float, integer, null, raw_bytes,
}
use ohmydb_proxy.MySql.Params.Total.{parameter_types_of-length}

-- The SQL literal that stands for a value, described by the value alone.
abbrev pub literal_of : (Bytes → Text) → Value → Text
literal_of float_repr null = lit "NULL"
literal_of float_repr (integer n) = int_text n
literal_of float_repr (float raw) = float_repr raw
literal_of float_repr (raw_bytes bytes) = lit "X'" ++ (hex bytes ++ lit "'")

module _ (float_repr : Bytes → Text) where
  abbrev pub IsWritten : MySqlDecodedParameter → Type 0
  IsWritten p = p.sql_literal ≡ literal_of float_repr p.value

  decode_stmt_parameter-IsWritten :
      (payload : Bytes) (offset i : ℕ) (m : MySqlParameterType) (p : MySqlDecodedParameter)
      (end : ℕ)
      → decode_stmt_parameter float_repr payload offset i m ≡ ok (p, end)
      → IsWritten p
  unfolding decode_stmt_parameter decode_integer decode_other decode_float decode_string
  decode_stmt_parameter-IsWritten payload offset i m p end h = ground arith

  read_parameter-IsWritten :
      (payload null_bitmap : Bytes) (i offset : ℕ) (m : MySqlParameterType)
      (p : MySqlDecodedParameter) (end : ℕ)
      → read_parameter float_repr payload null_bitmap i offset m ≡ ok (p, end)
      → IsWritten p
  unfolding read_parameter
  read_parameter-IsWritten payload null_bitmap i offset m p end h =
      ground (arith, decode_stmt_parameter-IsWritten payload offset i m p end)

  -- As many parameters come out as types go in, each with the literal of its value.
  read_parameters-IsWritten :
      (payload null_bitmap : Bytes) (i offset : ℕ) (types : List MySqlParameterType)
      (ps : List MySqlDecodedParameter) (end : ℕ)
      → read_parameters float_repr payload null_bitmap i offset types ≡ ok (ps, end)
      → (length ps ≡ length types) × All IsWritten ps
  unfolding read_parameters
  read_parameters-IsWritten payload null_bitmap i offset [] [] end h = (refl, tt)
  read_parameters-IsWritten payload null_bitmap i offset [] (p ∷ ps) end h = absurd (ground arith)
  read_parameters-IsWritten payload null_bitmap i offset (m ∷ ms) ps end h =
      elim (Result-cases (read_parameter float_repr payload null_bitmap i offset m)) [
        | inr (x, q) ↦ absurd (ground (arith, q))
        | inl ((p, offset'), q) ↦
            elim (Result-cases
              (read_parameters float_repr payload null_bitmap (i + 1) offset' ms)) [
                | inr (x, r) ↦ absurd (ground (arith, q, r))
                | inl ((qs, end'), r) ↦
                    let e : ps ≡ p ∷ qs = ground (arith, q, r) in
                    let (n, written) =
                      read_parameters-IsWritten payload null_bitmap (i + 1) offset' ms qs end' r in
                    rw e (
                      ap suc n,
                      (
                        read_parameter-IsWritten payload null_bitmap i offset m p offset' q,
                        written,
                      ),
                    )
              ]
      ]

  -- What a successful decoding returns, for a positive number of parameters.
  pub parse_parameters-IsWritten :
      (payload : Bytes) (count : ℕ) (previous : Option (List MySqlParameterType))
      (r : MySqlStmtExecuteParameters)
      → parse_parameters float_repr payload count previous ≡ ok r
      → (length r.parameters ≡ count)
        × (length r.parameter_types ≡ count)
        × All IsWritten r.parameters
  unfolding parse_parameters
  parse_parameters-IsWritten payload count previous r h =
      let size : ℕ = (count + 7) / 8 in
      elim (Result-cases (index payload size)) [
        | inr (x, f) ↦ absurd (ground (arith, f))
        | inl (flag, f) ↦
            elim (Result-cases (parameter_types_of payload (size + 1) (flag != 0) count previous)) [
              | inr (x, p) ↦ absurd (ground (arith, f, p))
              | inl ((types, offset), p) ↦
                  elim (Result-cases
                    (read_parameters float_repr payload (take size payload) 0 offset types)) [
                      | inr (x, q) ↦ absurd (ground (arith, f, p, q))
                      | inl ((ps, end), q) ↦
                          let e : (r.parameters ≡ ps) × (r.parameter_types ≡ types) =
                            ground (arith, f, p, q) in
                          let n =
                            parameter_types_of-length payload (size + 1) (flag != 0) count previous
                              p in
                          let (k, written) =
                            read_parameters-IsWritten payload (take size payload) 0 offset types ps
                              end q in
                          (rw e.0 (k ∙ n), rw e.1 n, rw e.0 written)
                    ]
            ]
      ]
