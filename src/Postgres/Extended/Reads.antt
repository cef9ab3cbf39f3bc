-- ===== src/Postgres/Extended/Reads.antt =====
-- What the readers of extended_protocol.py give on the bytes of an encoding.
use ohmydb_proxy.Prelude.{
  All, Bytes, Error, List, Option, Result, String, Text, [], ap, append_assoc, arith, decode_utf8,
  drop, drop-length_append, err, false, find_null, find_null-append, find_null-none, from_bytes_be,
  from_bytes_le, if◌then◌else◌, leb, length, length-append, length-to_bytes_be, le→ltb-false, ltb,
  negsuc, none, not, ok, pos, raise_if, refl, slice, slice_middle, some, sym, to_bytes_be,
  to_signed, unpack_signed, unpack_signed-to_bytes_be, zero, ℕ, ℤ, ◌*◌, ◌++◌, ◌+◌, ◌<◌, ◌==◌, ◌>>=◌,
  ◌>>◌, ◌^◌, ◌||◌, ◌∙◌, ◌∷◌, ◌≡◌,
}
use ohmydb_proxy.Postgres.Protocol.{protocol_error}
use ohmydb_proxy.Postgres.Extended.{
  read_codes, read_cstring, read_format_codes, read_int16, read_int32, read_value, unpack_from,
}

-- Format codes in two bytes each.
unfoldable pub codes_bytes : List ℕ → Bytes
codes_bytes [] = []
codes_bytes (code ∷ codes) = to_bytes_be 2 code ++ codes_bytes codes

-- -1 in four bytes, or the length and the value.
unfoldable pub value_bytes : Option Bytes → Bytes
value_bytes none = 0xff ∷ 0xff ∷ 0xff ∷ 0xff ∷ []
value_bytes (some value) = to_bytes_be 4 (length value) ++ value

unfoldable pub values_bytes : List (Option Bytes) → Bytes
unfolding value_bytes
values_bytes [] = []
values_bytes (value ∷ values) = value_bytes value ++ values_bytes values

-- A text with its terminator.
abbrev pub cstring : Bytes → Bytes
cstring name = name ++ (0 ∷ [])

unfoldable pub bind_payload : Bytes → Bytes → List ℕ → List (Option Bytes) → List ℕ → Bytes
unfolding codes_bytes values_bytes
bind_payload portal statement codes values result_codes =
    cstring portal
    ++ (cstring statement
        ++ (to_bytes_be 2 (length codes)
            ++ (codes_bytes codes
                ++ (to_bytes_be 2 (length values)
                    ++ (values_bytes values
                        ++ (to_bytes_be 2 (length result_codes) ++ codes_bytes result_codes))))))

-- The rest of a payload moves to behind the part that was read.
pub behind :
    {payload : Bytes} (front part rest : Bytes)
    → payload ≡ front ++ (part ++ rest)
    → payload ≡ (front ++ part) ++ rest
behind front part rest e = e ∙ sym (append_assoc front part rest)

pub read_cstring_at :
    (payload front name rest : Bytes) (text : Text)
    → payload ≡ front ++ (cstring name ++ rest)
    → find_null name 0 ≡ none
    → decode_utf8 name ≡ some text
    → read_cstring payload (length front) ≡ ok (text, length (front ++ cstring name))
unfolding read_cstring
read_cstring_at payload front name rest text e n d =
    let whole : payload ≡ front ++ (name ++ (0 ∷ rest)) =
      e ∙ ap (λ t. front ++ t) (append_assoc name (0 ∷ []) rest) in
    let inside : leb (length (front ++ (name ++ (0 ∷ rest)))) (length front) ≡ false =
      ground (arith, length-append front (name ++ (0 ∷ rest)), length-append name (0 ∷ rest)) in
    let found : find_null (drop (length front) (front ++ (name ++ (0 ∷ rest)))) (length front)
        ≡ some (length front + length name) =
      rw (drop-length_append front (name ++ (0 ∷ rest)))
        (find_null-append name rest (length front) (find_null-none name 0 (length front) n)) in
    let end : length front + length name + 1 ≡ length (front ++ cstring name) =
      omega (arith, length-append front (cstring name), length-append name (0 ∷ [])) in
    rw (whole, inside, found, slice_middle front name (0 ∷ rest) (length name) refl, d)
      (ap (λ k. ok (text, k)) end)

pub read_int16_at :
    (payload front rest : Bytes) (n : ℕ) (context : String)
    → payload ≡ front ++ (to_bytes_be 2 n ++ rest)
    → n < 2 ^ 15
    → read_int16 payload (length front) context ≡ ok (pos n, length (front ++ to_bytes_be 2 n))
unfolding read_int16 unpack_from
read_int16_at payload front rest n context e small =
    let part : Bytes = to_bytes_be 2 n in
    let two : length part ≡ 2 = length-to_bytes_be 2 n in
    let fits : ltb (length (front ++ (part ++ rest))) (length front + 2) ≡ false =
      le→ltb-false _ _
        (omega (arith, length-append front (part ++ rest), length-append part rest, two)) in
    let end : length front + 2 ≡ length (front ++ part) =
      omega (arith, two, length-append front part) in
    rw
      (
        e,
        fits,
        slice_middle front part rest 2 two,
        unpack_signed-to_bytes_be 2 16 n (omega arith) (omega arith),
      )
      (ap (λ k. ok (pos n, k)) end)

abbrev pub IsCode : ℕ → Type 0
IsCode code = code < 2

read_codes_at :
    (payload front rest : Bytes) (codes : List ℕ) (x : Error)
    → payload ≡ front ++ (codes_bytes codes ++ rest)
    → All IsCode codes
    → read_codes payload (length front) (length codes) x ≡ ok codes
unfolding read_codes codes_bytes unpack_from
read_codes_at payload front rest [] x e h = refl
read_codes_at payload front rest (code ∷ codes) x e h =
    let part : Bytes = to_bytes_be 2 code in
    let two : length part ≡ 2 = length-to_bytes_be 2 code in
    let whole : payload ≡ front ++ (part ++ (codes_bytes codes ++ rest)) =
      e ∙ ap (λ t. front ++ t) (append_assoc part (codes_bytes codes) rest) in
    let this : slice payload (length front) (length front + 2) ≡ part =
      rw whole (slice_middle front part (codes_bytes codes ++ rest) 2 two) in
    let end : length front + 2 ≡ length (front ++ part) =
      omega (arith, two, length-append front part) in
    let inside : ltb (length payload) (length front + 2) ≡ false = le→ltb-false _ _ (
      omega (
        arith,
        ap length whole,
        length-append front (part ++ (codes_bytes codes ++ rest)),
        length-append part (codes_bytes codes ++ rest),
        two,
      )) in
    let ih =
      read_codes_at payload (front ++ part) rest codes x
        (behind front part (codes_bytes codes ++ rest) whole) h.1 in
    rw
      (
        inside,
        this,
        unpack_signed-to_bytes_be 2 16 code (omega (arith, h.0)) (omega (arith, h.0)),
        end,
        ih,
      )
      (one code codes x h.0)
  where
    one :
        (code : ℕ) (codes : List ℕ) (x : Error)
        → code < 2
        → (raise_if (not (code == 0 || code == 1)) x >> ok ((if code == 0 then 0 else 1) ∷ codes))
          ≡ ok (code ∷ codes)
    one code codes x h = ground arith

length-codes_bytes : (codes : List ℕ) → length (codes_bytes codes) ≡ length codes * 2
unfolding codes_bytes
length-codes_bytes [] = refl
length-codes_bytes (code ∷ codes) = omega (
  arith,
  length-append (to_bytes_be 2 code) (codes_bytes codes),
  length-to_bytes_be 2 code,
  length-codes_bytes codes,
)

pub read_format_codes_at :
    (payload front rest : Bytes) (codes : List ℕ) (counted negative truncated invalid : String)
    → payload ≡ front ++ (to_bytes_be 2 (length codes) ++ (codes_bytes codes ++ rest))
    → length codes < 2 ^ 15
    → All IsCode codes
    → read_format_codes payload (length front) counted negative truncated invalid
      ≡ ok (codes, length ((front ++ to_bytes_be 2 (length codes)) ++ codes_bytes codes))
unfolding read_format_codes
read_format_codes_at payload front rest codes counted negative truncated invalid e small h =
    let part : Bytes = to_bytes_be 2 (length codes) in
    let next = behind front part (codes_bytes codes ++ rest) e in
    let size = length-codes_bytes codes in
    let total : length payload ≡ length (front ++ part) + length codes * 2 + length rest = omega (
      arith,
      ap length next,
      length-append (front ++ part) (codes_bytes codes ++ rest),
      length-append (codes_bytes codes) rest,
      size,
    ) in
    let fits : ltb (length payload) (length (front ++ part) + length codes * 2) ≡ false =
      le→ltb-false _ _ (omega (arith, total)) in
    let end : length (front ++ part) + length codes * 2
        ≡ length ((front ++ part) ++ codes_bytes codes) =
      omega (arith, size, length-append (front ++ part) (codes_bytes codes)) in
    rw
      (
        read_int16_at payload front (codes_bytes codes ++ rest) (length codes) counted e small,
        fits,
        read_codes_at payload (front ++ part) rest codes (protocol_error invalid) next h,
      )
      (ap (λ k. ok (codes, k)) end)

read_int32_at :
    (payload front part rest : Bytes) (n : ℤ) (context : String)
    → payload ≡ front ++ (part ++ rest)
    → length part ≡ 4
    → unpack_signed 32 part ≡ n
    → read_int32 payload (length front) context ≡ ok (n, length (front ++ part))
unfolding read_int32 unpack_from
read_int32_at payload front part rest n context e four u =
    let fits : ltb (length (front ++ (part ++ rest))) (length front + 4) ≡ false =
      le→ltb-false _ _
        (omega (arith, length-append front (part ++ rest), length-append part rest, four)) in
    let end : length front + 4 ≡ length (front ++ part) =
      omega (arith, four, length-append front part) in
    rw (e, fits, slice_middle front part rest 4 four, u) (ap (λ k. ok (n, k)) end)

-- Short enough for its length to be announced.
abbrev pub Fits : Option Bytes → Type 0
Fits none = Unit {0}
Fits (some value) = length value < 2 ^ 31

minus_one : unpack_signed 32 (0xff ∷ 0xff ∷ 0xff ∷ 0xff ∷ []) ≡ negsuc zero
unfolding unpack_signed to_signed from_bytes_be from_bytes_le
minus_one = refl

-- One value with its length in front.
pub read_value_at :
    (payload front rest : Bytes) (value : Option Bytes)
    → payload ≡ front ++ (value_bytes value ++ rest)
    → Fits value
    → (do
      (length, offset) ← read_int32 payload (length front) "Bind parameter length"
      read_value payload length offset)
      ≡ ok (value, length (front ++ value_bytes value))
unfolding value_bytes
read_value_at payload front rest none e h =
    rw
      (read_int32_at payload front (0xff ∷ 0xff ∷ 0xff ∷ 0xff ∷ []) rest (negsuc zero)
        "Bind parameter length" e refl minus_one)
      refl
read_value_at payload front rest (some value) e h =
    let part : Bytes = to_bytes_be 4 (length value) in
    let whole : payload ≡ front ++ (part ++ (value ++ rest)) =
      e ∙ ap (λ t. front ++ t) (append_assoc part value rest) in
    let next = behind front part (value ++ rest) whole in
    let total : length payload ≡ length (front ++ part) + length value + length rest = omega (
      arith,
      ap length next,
      length-append (front ++ part) (value ++ rest),
      length-append value rest,
    ) in
    let fits : ltb (length payload) (length (front ++ part) + length value) ≡ false =
      le→ltb-false _ _ (omega (arith, total)) in
    let cut : slice payload (length (front ++ part)) (length (front ++ part) + length value)
        ≡ value =
      rw next (slice_middle (front ++ part) value rest (length value) refl) in
    let end : length (front ++ part) + length value ≡ length (front ++ (part ++ value)) = omega (
      arith,
      length-append front part,
      length-append front (part ++ value),
      length-append part value,
    ) in
    rw
      (
        read_int32_at payload front part (value ++ rest) (pos (length value))
            "Bind parameter length" whole (length-to_bytes_be 4 (length value))
            (unpack_signed-to_bytes_be 4 32 (length value) (omega arith) (omega arith)),
        fits,
        cut,
      )
      (ap (λ k. ok (some value, k)) end)

-- The two reads of a round as one.
pub read_values_round :
    (r : Result (ℤ × ℕ)) (f : ℤ → ℕ → Result (Option Bytes × ℕ))
    (g : ℕ → Result (List (Option Bytes) × ℕ)) (value : Option Bytes) (values : List (Option Bytes))
    (offset end : ℕ)
    → (r >>= λ n. f n.0 n.1) ≡ ok (value, offset)
    → g offset ≡ ok (values, end)
    → ◌≡◌ {A = Result (List (Option Bytes) × ℕ)}
        (r >>= λ n. f n.0 n.1 >>= λ v. g v.1 >>= λ vs. ok (v.0 ∷ vs.0, vs.1))
        (ok (value ∷ values, end))
read_values_round (ok (n, next)) f g value values offset end h k = rw (h, k) refl
read_values_round (err x) f g value values offset end h k = cc
