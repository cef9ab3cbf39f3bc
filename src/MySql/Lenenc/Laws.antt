-- ===== src/MySql/Lenenc/Laws.antt =====
-- Length-encoded integers against the protocol's encoding of them.
use ohmydb_proxy.Prelude.{
  Bool-cases, Bytes, [], ap, append_assoc, arith, false, from_bytes_le-to_bytes_le,
  get_elem?_middle, if◌then◌else◌, inl, inr, leb, length, length-append, length-to_bytes_le, ltb,
  ltb→lt, lt→ltb, ok, refl, slice, slice_middle, some, suc, to_bytes_le, ℕ, ◌++◌, ◌+◌, ◌<◌, ◌^◌,
  ◌∷◌, ◌≡◌, ◌≤◌,
}
use ohmydb_proxy.MySql.Lenenc.{Messages, lenenc_size, read_lenenc}

-- The shortest encoding of a number below 2 ^ 64, as the protocol defines it.
unfoldable pub encode_lenenc : ℕ → Bytes
encode_lenenc n =
    if ltb n 0xfb
    then n ∷ []
    else if ltb n (2 ^ 16)
    then 0xfc ∷ to_bytes_le 2 n
    else if ltb n (2 ^ 24)
    then 0xfd ∷ to_bytes_le 3 n
    else 0xfe ∷ to_bytes_le 8 n

-- A read that succeeds ends behind its offset and within the payload.
pub read_lenenc_bounds :
    (messages : Messages) (payload : Bytes) (offset : ℕ) {value end : ℕ}
    → read_lenenc messages payload offset ≡ ok (value, end)
    → (offset < end) × (end ≤ length payload)
unfolding read_lenenc
read_lenenc_bounds messages payload offset h = ground arith

size_fc : lenenc_size 0xfc ≡ some 2
unfolding lenenc_size
size_fc = refl

size_fd : lenenc_size 0xfd ≡ some 3
unfolding lenenc_size
size_fd = refl

size_fe : lenenc_size 0xfe ≡ some 8
unfolding lenenc_size
size_fe = refl

-- A marker byte with its bytes behind it.
read_marker :
    (messages : Messages) (front rest : Bytes) (marker size n : ℕ)
    → 0xfb ≤ marker
    → lenenc_size marker ≡ some size
    → n < 256 ^ size
    → read_lenenc messages (front ++ (marker ∷ (to_bytes_le size n ++ rest))) (length front)
      ≡ ok (n, length front + length (marker ∷ to_bytes_le size n))
unfolding read_lenenc
read_marker messages front rest marker size n m e small =
    let bytes : Bytes = to_bytes_le size n in
    let whole : Bytes = front ++ (marker ∷ (bytes ++ rest)) in
    let l : length whole ≡ length front + 1 + size + length rest = omega (
      arith,
      length-append front (marker ∷ (bytes ++ rest)),
      length-append bytes rest,
      length-to_bytes_le size n,
    ) in
    let e1 : leb (length whole) (length front) ≡ false = ground (arith, l) in
    let e2 : ltb marker 0xfb ≡ false = ground arith in
    let e3 : ltb (length whole) (length front + 1 + size) ≡ false = ground (arith, l) in
    let e5 : length front + 1 + size ≡ length front + suc (length (to_bytes_le size n)) =
      omega (arith, length-to_bytes_le size n) in
    let e4 : slice whole (length front + 1) (length front + 1 + size) ≡ bytes = cut in
    rw
      (
        e1,
        get_elem?_middle front marker (bytes ++ rest),
        e2,
        e,
        e3,
        e4,
        from_bytes_le-to_bytes_le size n small,
      )
      (ap (λ k. ok (n, k)) e5)
  where
    cut :
        slice
          (front ++ (marker ∷ (to_bytes_le size n ++ rest)))
          (length front + 1)
          (length front + 1 + size)
        ≡ to_bytes_le size n
    cut =
        let k : length front + 1 ≡ length (front ++ (marker ∷ [])) =
          omega (arith, length-append front (marker ∷ [])) in
        rw (k, ← append_assoc front (marker ∷ []) (to_bytes_le size n ++ rest))
          (slice_middle (front ++ (marker ∷ [])) (to_bytes_le size n) rest size
            (length-to_bytes_le size n))

read_short :
    (messages : Messages) (front rest : Bytes) (n : ℕ)
    → n < 0xfb
    → read_lenenc messages (front ++ (n ∷ rest)) (length front)
      ≡ ok (n, length front + length (n ∷ []))
unfolding read_lenenc
read_short messages front rest n small =
    let e1 : leb (length (front ++ (n ∷ rest))) (length front) ≡ false =
      ground (arith, length-append front (n ∷ rest)) in
    rw (e1, get_elem?_middle front n rest, lt→ltb n 0xfb small)

-- The reader, whatever its messages, finds every number below 2 ^ 64 that is encoded at the offset,
-- whatever stands before and behind it, and returns the offset behind it.
pub read_lenenc-encode_lenenc :
    (messages : Messages) (front rest : Bytes) (n : ℕ)
    → n < 2 ^ 64
    → read_lenenc messages (front ++ (encode_lenenc n ++ rest)) (length front)
      ≡ ok (n, length front + length (encode_lenenc n))
unfolding encode_lenenc
read_lenenc-encode_lenenc messages front rest n h = elim (Bool-cases (ltb n 0xfb)) [
  | inl a ↦ rw a (read_short messages front rest n (ltb→lt n 0xfb a))
  | inr a ↦ elim (Bool-cases (ltb n (2 ^ 16))) [
    | inl b ↦
        rw (a, b)
          (read_marker messages front rest 0xfc 2 n (omega arith) size_fc (ltb→lt n (2 ^ 16) b))
    | inr b ↦ elim (Bool-cases (ltb n (2 ^ 24))) [
      | inl c ↦
          rw (a, b, c)
            (read_marker messages front rest 0xfd 3 n (omega arith) size_fd (ltb→lt n (2 ^ 24) c))
      | inr c ↦ rw (a, b, c) (read_marker messages front rest 0xfe 8 n (omega arith) size_fe h)
    ]
  ]
]
