-- ===== src/Postgres/Extended/Laws.antt =====
-- The exceptions of the parsers of extended_protocol.py.
use ohmydb_proxy.Prelude.{
  Bool, Bytes, List, Option-cases, Result, String, Text, [], arith, decode_ascii, false, inl, inr,
  is_empty, is_settled, is_settled->>=, length, le→ltb-false, lit, ltb, ltb-false→le, negsuc, not,
  ok, pos, protocol_message_error, raise_if, refl, suc, take, text_eq, true, zero, ℕ, ℤ, ◌!=◌, ◌*◌,
  ◌+◌, ◌>>◌, ◌||◌, ◌∷◌, ◌≡◌, ◌≤◌,
}
use ohmydb_proxy.Postgres.Protocol.{is_int}
use ohmydb_proxy.Postgres.Extended.{
  not_negative, parse_bind_message, parse_bind_tail, parse_close_message, parse_execute_message,
  parse_parse_message, read_codes, read_cstring, read_format_codes, read_int16, read_int32,
  read_value, read_values, require, resolve_format_codes, unpack_from,
}

pub read_cstring_settled : (buf : Bytes) (offset : ℕ) → is_settled (read_cstring buf offset) ≡ true
unfolding read_cstring
read_cstring_settled buf offset = ground arith

require_settled :
    (buf : Bytes) (offset size : ℕ) (context : String)
    → is_settled (require buf offset size context) ≡ true
require_settled buf offset size context = ground arith

-- A read behind the test of `require` is inside the buffer.
unpack_from_settled :
    (size : ℕ) (buf : Bytes) (offset : ℕ)
    → ltb (length buf) (offset + size) ≡ false
    → is_settled (unpack_from size buf offset) ≡ true
unfolding unpack_from
unpack_from_settled size buf offset h = rw h refl

required :
    (buf : Bytes) (offset size : ℕ) (context : String)
    → require buf offset size context ≡ ok tt
    → ltb (length buf) (offset + size) ≡ false
required buf offset size context h = ground (arith, h)

read_int16_settled :
    (buf : Bytes) (offset : ℕ) (context : String)
    → is_settled (read_int16 buf offset context) ≡ true
unfolding read_int16
read_int16_settled buf offset context =
    is_settled->>= _ _ (require_settled buf offset 2 context) λ _ h.
      is_settled->>= _ _ (unpack_from_settled 2 buf offset (required buf offset 2 context h))
        λ value _. refl

read_int32_settled :
    (buf : Bytes) (offset : ℕ) (context : String)
    → is_settled (read_int32 buf offset context) ≡ true
unfolding read_int32
read_int32_settled buf offset context =
    is_settled->>= _ _ (require_settled buf offset 4 context) λ _ h.
      is_settled->>= _ _ (unpack_from_settled 4 buf offset (required buf offset 4 context h))
        λ value _. refl

not_negative_settled :
    (n : ℤ) (t : Text) → is_settled (not_negative n (protocol_message_error t)) ≡ true
not_negative_settled (pos n) t = refl
not_negative_settled (negsuc n) t = refl

raise_settled->> {ℓ} :
    {A : Type ℓ} (b : Bool) (t : Text) (r : Result A)
    → is_settled r ≡ true
    → is_settled (raise_if b (protocol_message_error t) >> r) ≡ true
raise_settled->> true t r h = refl
raise_settled->> false t r h = h

pub parse_parse_message_settled :
    (payload : Bytes) → is_settled (parse_parse_message payload) ≡ true
unfolding parse_parse_message
parse_parse_message_settled payload =
    is_settled->>= _ _ (read_cstring_settled payload 0) λ (name, offset) _.
      is_settled->>= _ _ (read_cstring_settled payload offset) λ (query, offset') _.
        is_settled->>= _ _ (read_int16_settled payload offset' _) λ (signed, end) _.
          is_settled->>= _ _ (not_negative_settled signed _) λ count _.
            is_settled->>= _ _ (require_settled payload end (count * 4) _)
              λ _ _. raise_settled->> (end + count * 4 != length payload) _ (ok _) refl

read_codes_settled :
    (payload : Bytes) (offset count : ℕ) (t : Text)
    → offset + count * 2 ≤ length payload
    → is_settled (read_codes payload offset count (protocol_message_error t)) ≡ true
unfolding read_codes
read_codes_settled payload offset zero t h = refl
read_codes_settled payload offset (suc count) t h =
    is_settled->>= _ _ (unpack_from_settled 2 payload offset (le→ltb-false _ _ (omega (arith, h))))
      λ code _.
        is_settled->>= _ _ (read_codes_settled payload (offset + 2) count t (omega (arith, h)))
          λ codes _. raise_settled->> (not (is_int 0 code || is_int 1 code)) t (ok _) refl

read_format_codes_settled :
    (payload : Bytes) (offset : ℕ) (counted negative truncated invalid : String)
    → is_settled (read_format_codes payload offset counted negative truncated invalid) ≡ true
unfolding read_format_codes
read_format_codes_settled payload offset counted negative truncated invalid =
    is_settled->>= _ _ (read_int16_settled payload offset counted) λ (signed, offset') _.
      is_settled->>= _ _ (not_negative_settled signed _) λ count _.
        is_settled->>= _ _ (require_settled payload offset' (count * 2) truncated) λ _ h.
          is_settled->>= _ _
            (read_codes_settled payload offset' count (lit invalid)
              (ltb-false→le _ _ (required payload offset' (count * 2) truncated h)))
            λ codes _. refl

read_value_settled :
    (payload : Bytes) (length : ℤ) (offset : ℕ)
    → is_settled (read_value payload length offset) ≡ true
read_value_settled payload (negsuc zero) offset = refl
read_value_settled payload (negsuc (suc n)) offset = refl
read_value_settled payload (pos length) offset = ground arith

read_values_settled :
    (payload : Bytes) (offset count : ℕ) → is_settled (read_values payload offset count) ≡ true
unfolding read_values
read_values_settled payload offset zero = refl
read_values_settled payload offset (suc count) =
    is_settled->>= _ _ (read_int32_settled payload offset _) λ (length, offset') _.
      is_settled->>= _ _ (read_value_settled payload length offset') λ (value, next) _.
        is_settled->>= _ _ (read_values_settled payload next count) λ (values, end) _. refl

resolve_format_codes_settled :
    (codes : List ℕ) (num_params : ℕ) → is_settled (resolve_format_codes codes num_params) ≡ true
unfolding resolve_format_codes
resolve_format_codes_settled [] num_params = refl
resolve_format_codes_settled (code ∷ []) num_params = refl
resolve_format_codes_settled (code ∷ code' ∷ codes) num_params = ground arith

parse_bind_tail_settled :
    (payload : Bytes) (offset : ℕ) (portal_name statement_name : Text)
    → is_settled (parse_bind_tail payload offset portal_name statement_name) ≡ true
unfolding parse_bind_tail
parse_bind_tail_settled payload offset portal_name statement_name =
    is_settled->>= _ _ (read_format_codes_settled payload offset _ _ _ _) λ (raw, offset1) _.
      is_settled->>= _ _ (read_int16_settled payload offset1 _) λ (signed, offset2) _.
        is_settled->>= _ _ (not_negative_settled signed _) λ num_params _.
          is_settled->>= _ _ (read_values_settled payload offset2 num_params) λ (values, offset3) _.
            is_settled->>= _ _ (read_format_codes_settled payload offset3 _ _ _ _) λ (codes, end) _.
              raise_settled->> (end != length payload) _ _
                (is_settled->>= _ _ (resolve_format_codes_settled raw num_params) λ _ _. refl)

pub parse_bind_message_settled : (payload : Bytes) → is_settled (parse_bind_message payload) ≡ true
unfolding parse_bind_message
parse_bind_message_settled payload =
    is_settled->>= _ _ (read_cstring_settled payload 0) λ (portal, offset) _.
      is_settled->>= _ _ (read_cstring_settled payload offset)
        λ (statement, offset') _. parse_bind_tail_settled payload offset' portal statement

pub parse_execute_message_settled :
    (payload : Bytes) → is_settled (parse_execute_message payload) ≡ true
unfolding parse_execute_message
parse_execute_message_settled payload =
    is_settled->>= _ _ (read_cstring_settled payload 0) λ (portal, offset) _.
      is_settled->>= _ _ (read_int32_settled payload offset _) λ (signed, end) _.
        is_settled->>= _ _ (not_negative_settled signed _)
          λ max_rows _. raise_settled->> (end != length payload) _ (ok _) refl

pub parse_close_message_settled :
    (payload : Bytes) → is_settled (parse_close_message payload) ≡ true
unfolding parse_close_message
parse_close_message_settled payload =
    raise_settled->> (is_empty payload) _ _ (elim (Option-cases (decode_ascii (take 1 payload))) [
      | inl e ↦ rw e refl
      | inr (t, e) ↦ rw e (
          raise_settled->> (not (text_eq t (lit "S") || text_eq t (lit "P"))) _ _ (
            is_settled->>= _ _ (read_cstring_settled payload 1)
              λ (name, offset) _. raise_settled->> (offset != length payload) _ (ok _) refl))
    ])

-- Whatever bytes stand in a payload, the parsers of Parse, Bind, Execute and Close return a message
-- or raise a ProtocolMessageError; no read of an integer goes beyond the payload, which would raise a
-- struct.error.
pub parsers_settled :
    (payload : Bytes)
    → (is_settled (parse_parse_message payload) ≡ true)
      × (is_settled (parse_bind_message payload) ≡ true)
      × (is_settled (parse_execute_message payload) ≡ true)
      × (is_settled (parse_close_message payload) ≡ true)
parsers_settled payload = (
  parse_parse_message_settled payload,
  parse_bind_message_settled payload,
  parse_execute_message_settled payload,
  parse_close_message_settled payload,
)
