-- ===== src/Postgres/Extended/RoundTrip.antt =====
-- A Bind message that is laid out as the protocol says is read back field by field.
use ohmydb_proxy.Prelude.{
  All, Bytes, List, Option, Text, [], ap, append-nil, append_assoc, arith, decode_utf8, false,
  find_null, length, length-append, none, ok, refl, some, to_bytes_be, ℕ, ◌!=◌, ◌++◌, ◌<◌, ◌^◌, ◌∙◌,
  ◌∷◌, ◌≡◌,
}
use ohmydb_proxy.Postgres.Extended.{
  parse_bind_message, parse_bind_tail, read_int32, read_value, read_values, resolve_format_codes,
}
use ohmydb_proxy.Postgres.Extended.Reads.{
  Fits, IsCode, behind, bind_payload, codes_bytes, cstring, read_cstring_at, read_format_codes_at,
  read_int16_at, read_value_at, read_values_round, value_bytes, values_bytes,
}

read_values_at :
    (payload front rest : Bytes) (values : List (Option Bytes))
    → payload ≡ front ++ (values_bytes values ++ rest)
    → All Fits values
    → read_values payload (length front) (length values)
      ≡ ok (values, length (front ++ values_bytes values))
unfolding read_values values_bytes
read_values_at payload front rest [] e h = rw append-nil refl
read_values_at payload front rest (value ∷ values) e h =
    let part : Bytes = value_bytes value in
    let whole : payload ≡ front ++ (part ++ (values_bytes values ++ rest)) =
      e ∙ ap (λ t. front ++ t) (append_assoc part (values_bytes values) rest) in
    rw (← append_assoc front part (values_bytes values)) (
      read_values_round (read_int32 payload (length front) "Bind parameter length")
        (λ n next. read_value payload n next) (λ next. read_values payload next (length values))
        value values _ _ (read_value_at payload front (values_bytes values ++ rest) value whole h.0)
        (read_values_at payload (front ++ part) rest values
          (behind front part (values_bytes values ++ rest) whole) h.1))

-- The parts behind the two names, in front of nothing.
padded_tail : List ℕ → List (Option Bytes) → List ℕ → Bytes
padded_tail codes values result_codes =
    to_bytes_be 2 (length codes)
    ++ (codes_bytes codes
        ++ (to_bytes_be 2 (length values)
            ++ (values_bytes values
                ++ (to_bytes_be 2 (length result_codes) ++ (codes_bytes result_codes ++ [])))))

parse_bind_tail_at :
    (payload front : Bytes) (portal_name statement_name : Text) (codes : List ℕ)
    (values : List (Option Bytes)) (result_codes format_codes : List ℕ)
    → payload ≡ front ++ padded_tail codes values result_codes
    → length codes < 2 ^ 15
    → length values < 2 ^ 15
    → length result_codes < 2 ^ 15
    → All IsCode codes
    → All IsCode result_codes
    → All Fits values
    → resolve_format_codes codes (length values) ≡ ok format_codes
    → parse_bind_tail payload (length front) portal_name statement_name
      ≡ ok (record {
        portal_name = portal_name;
        statement_name = statement_name;
        param_values = values;
        format_codes = format_codes;
        result_format_codes = result_codes;
      })
unfolding parse_bind_tail padded_tail
parse_bind_tail_at payload front portal_name statement_name codes values result_codes format_codes e
      lc lv lr hc hr hv resolved =
    let a : Bytes = front ++ to_bytes_be 2 (length codes) in
    let b : Bytes = a ++ codes_bytes codes in
    let c : Bytes = b ++ to_bytes_be 2 (length values) in
    let d : Bytes = c ++ values_bytes values in
    let f : Bytes = d ++ to_bytes_be 2 (length result_codes) in
    let ea = behind front (to_bytes_be 2 (length codes)) _ e in
    let eb = behind a (codes_bytes codes) _ ea in
    let ec = behind b (to_bytes_be 2 (length values)) _ eb in
    let ed = behind c (values_bytes values) _ ec in
    let ef = behind d (to_bytes_be 2 (length result_codes)) _ ed in
    let end : (length (f ++ codes_bytes result_codes) != length payload) ≡ false = ground (
      arith,
      ap length (behind f (codes_bytes result_codes) [] ef),
      length-append (f ++ codes_bytes result_codes) [],
    ) in
    rw
      (
        read_format_codes_at payload front _ codes "Bind format count"
            "Bind format count cannot be negative" "Bind format codes"
            "Bind parameter format code must be 0 or 1" e lc hc,
        read_int16_at payload b _ (length values) "Bind parameter count" eb lv,
        read_values_at payload c _ values ec hv,
        read_format_codes_at payload d [] result_codes "Bind result format count"
            "Bind result format count cannot be negative" "Bind result format codes"
            "Bind result format code must be 0 or 1" ed lr hr,
        end,
        resolved,
      )
      refl

bind_payload-parts :
    (portal statement : Bytes) (codes : List ℕ) (values : List (Option Bytes))
    (result_codes : List ℕ)
    → bind_payload portal statement codes values result_codes
      ≡ [] ++ (cstring portal ++ (cstring statement ++ padded_tail codes values result_codes))
unfolding bind_payload padded_tail
bind_payload-parts portal statement codes values result_codes = rw append-nil refl

-- A Bind message that is laid out for two names without zeros, format codes 0 and 1, values with
-- lengths below 2 ^ 31 and fewer than 2 ^ 15 of each, is parsed to those names, values and result
-- codes, with the format codes that the given ones stand for when they fit the number of values.
pub parse_bind_message-bind_payload :
    (portal statement : Bytes) (portal_name statement_name : Text) (codes : List ℕ)
    (values : List (Option Bytes)) (result_codes format_codes : List ℕ)
    → find_null portal 0 ≡ none
    → find_null statement 0 ≡ none
    → decode_utf8 portal ≡ some portal_name
    → decode_utf8 statement ≡ some statement_name
    → length codes < 2 ^ 15
    → length values < 2 ^ 15
    → length result_codes < 2 ^ 15
    → All IsCode codes
    → All IsCode result_codes
    → All Fits values
    → resolve_format_codes codes (length values) ≡ ok format_codes
    → parse_bind_message (bind_payload portal statement codes values result_codes)
      ≡ ok (record {
        portal_name = portal_name;
        statement_name = statement_name;
        param_values = values;
        format_codes = format_codes;
        result_format_codes = result_codes;
      })
unfolding parse_bind_message
parse_bind_message-bind_payload portal statement portal_name statement_name codes values
      result_codes format_codes np ns dp ds lc lv lr hc hr hv resolved =
    let tail : Bytes = padded_tail codes values result_codes in
    let payload : Bytes = bind_payload portal statement codes values result_codes in
    let e = bind_payload-parts portal statement codes values result_codes in
    let e' = behind [] (cstring portal) (cstring statement ++ tail) e in
    let e'' = behind (cstring portal) (cstring statement) tail e' in
    rw
      (
        read_cstring_at payload [] portal (cstring statement ++ tail) portal_name e np dp,
        read_cstring_at payload (cstring portal) statement tail statement_name e' ns ds,
      )
      (parse_bind_tail_at payload (cstring portal ++ cstring statement) portal_name statement_name
        codes values result_codes format_codes e'' lc lv lr hc hr hv resolved)
