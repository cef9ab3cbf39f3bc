-- ===== src/Prelude/Utf8.antt =====
-- bytes.decode("utf-8") with strict errors, str.encode("utf-8"), bytes.decode("ascii").
use Prim.Native.Nat.{ℕ, zero, suc, ◌+◌, ◌-◌, ◌*◌, ◌/◌, ◌%◌}
use mathlib.Core.Path.{◌≡◌, refl}
use mathlib.Core.Option.{Option, none, some}
use mathlib.Core.List.{[], ◌∷◌, ◌++◌}
use ohmydb_proxy.Prelude.Tests.{if◌then◌else◌, ltb, ◌==◌}
use ohmydb_proxy.Prelude.Slices.{Bytes, Text, lit}
use ohmydb_proxy.Prelude.Texts.{between}

-- Between two characters, or in one: so many bytes are missing, the bits so far, and the range of
-- the next byte, which shuts out overlong forms, surrogates and what lies beyond U+10FFFF.
pub data Pending : Type 0 where
  start_byte : Pending
  inside : ℕ → ℕ → ℕ → ℕ → Pending

abbrev pub lead_two : ℕ → Pending
lead_two b = inside 0 (b - 0xc0) 0x80 0xbf

abbrev pub lead_three : ℕ → Pending
lead_three b =
    inside 1 (b - 0xe0) (if b == 0xe0 then 0xa0 else 0x80) (if b == 0xed then 0x9f else 0xbf)

abbrev pub lead_four : ℕ → Pending
lead_four b =
    inside 2 (b - 0xf0) (if b == 0xf0 then 0x90 else 0x80) (if b == 0xf4 then 0x8f else 0xbf)

-- One byte: the next state, and the character that it completes.
unfoldable pub utf8_step : Pending → ℕ → Option (Pending × Text)
utf8_step start_byte b =
    if ltb b 0x80
    then some (start_byte, b ∷ [])
    else if between 0xc2 0xdf b
    then some (lead_two b, [])
    else if between 0xe0 0xef b
    then some (lead_three b, [])
    else if between 0xf0 0xf4 b
    then some (lead_four b, [])
    else none
utf8_step (inside zero bits lo hi) b =
    if between lo hi b then some (start_byte, (bits * 64 + (b - 0x80)) ∷ []) else none
utf8_step (inside (suc n) bits lo hi) b =
    if between lo hi b then some (inside n (bits * 64 + (b - 0x80)) 0x80 0xbf, []) else none

infixl 5 ◌>>=?◌
abbrev pub ◌>>=?◌ : {A B : Type 0} → Option A → (A → Option B) → Option B
none >>=? f = none
some a >>=? f = f a

unfoldable pub utf8_loop : Pending → Bytes → Option Text
unfolding utf8_step
utf8_loop start_byte [] = some []
utf8_loop (inside n bits lo hi) [] = none
utf8_loop state (b ∷ bs) =
    utf8_step state b >>=? λ (state', out). utf8_loop state' bs >>=? λ rest. some (out ++ rest)

unfoldable pub decode_utf8 : Bytes → Option Text
unfolding utf8_loop
decode_utf8 bs = utf8_loop start_byte bs

-- The bytes of one character that is no surrogate.
unfoldable pub encode_char : ℕ → Bytes
encode_char c =
    if ltb c 0x80
    then c ∷ []
    else if ltb c 0x800
    then (0xc0 + c / 64) ∷ (0x80 + c % 64) ∷ []
    else if ltb c 0x10000
    then (0xe0 + c / 4096) ∷ (0x80 + c / 64 % 64) ∷ (0x80 + c % 64) ∷ []
    else (0xf0 + c / 262144) ∷ (0x80 + c / 4096 % 64) ∷ (0x80 + c / 64 % 64) ∷ (0x80 + c % 64) ∷ []

unfoldable pub encode_utf8 : Text → Bytes
unfolding encode_char
encode_utf8 [] = []
encode_utf8 (c ∷ cs) = encode_char c ++ encode_utf8 cs

-- bytes.decode("ascii")
unfoldable pub decode_ascii : Bytes → Option Text
decode_ascii [] = some []
decode_ascii (b ∷ bs) =
    let rest = decode_ascii bs in if ltb b 0x80 then (rest >>=? λ t. some (b ∷ t)) else none

decode_utf8_runs :
    (decode_utf8 (encode_utf8 (lit "é€😀x")) ≡ some (lit "é€😀x"))
    × (decode_utf8 (0xc0 ∷ 0x80 ∷ []) ≡ none)
    × (decode_utf8 (0xed ∷ 0xa0 ∷ 0x80 ∷ []) ≡ none)
    × (decode_utf8 (0xe2 ∷ 0x82 ∷ []) ≡ none)
unfolding decode_utf8 encode_utf8 lit
decode_utf8_runs = (refl, refl, refl, refl)

-- One byte of bytes.decode("utf-8", errors="replace"): the next state, and the characters that come
-- out, with U+FFFD for a sequence that breaks off, after which the byte is read afresh.
unfoldable pub replace_step : Pending → ℕ → Pending × Text
unfolding utf8_step
replace_step start_byte b = elim (utf8_step start_byte b) [
  | some r ↦ r
  | none ↦ (start_byte, 0xfffd ∷ [])
]
replace_step (inside n bits lo hi) b = elim (utf8_step (inside n bits lo hi) b) [
  | some r ↦ r
  | none ↦ elim (utf8_step start_byte b) [
    | some (state, out) ↦ (state, 0xfffd ∷ out)
    | none ↦ (start_byte, 0xfffd ∷ 0xfffd ∷ [])
  ]
]

unfoldable pub replace_loop : Pending → Bytes → Text
unfolding replace_step
replace_loop start_byte [] = []
replace_loop (inside n bits lo hi) [] = 0xfffd ∷ []
replace_loop state (b ∷ bs) =
    let (state', out) = replace_step state b in out ++ replace_loop state' bs

unfoldable pub decode_utf8_replace : Bytes → Text
unfolding replace_loop
decode_utf8_replace bs = replace_loop start_byte bs

decode_utf8_replace_runs :
    (decode_utf8_replace (0x61 ∷ 0xe2 ∷ 0x82 ∷ 0x62 ∷ []) ≡ 0x61 ∷ 0xfffd ∷ 0x62 ∷ [])
    × (decode_utf8_replace (0xe0 ∷ 0x80 ∷ 0xf0 ∷ 0x9f ∷ []) ≡ 0xfffd ∷ 0xfffd ∷ 0xfffd ∷ [])
unfolding decode_utf8_replace
decode_utf8_replace_runs = (refl, refl)
