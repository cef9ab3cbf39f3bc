-- ===== src/Prelude/Network.antt =====
-- struct.pack and struct.unpack of signed integers in network order.
use Prim.Native.Nat.{ℕ, ◌<◌, ◌^◌, ◌-◌, ◌+◌}
use mathlib.Core.Path.{◌≡◌, refl, ap, ◌∙◌}
use mathlib.Core.List.{[], ◌∷◌, reverse, reverse_aux, reverse-reverse}
use ohmydb_proxy.Prelude.Tests.{lt→ltb}
use native.Mathlib.Omega.{arith}
use ohmydb_proxy.Prelude.Lists.{length}
use ohmydb_proxy.Prelude.Slices.{
  Bytes, from_bytes_le, from_bytes_le-to_bytes_le, length-to_bytes_le, to_bytes_le,
}
use ohmydb_proxy.Prelude.Int.{negsuc, pos, to_signed, ℤ}

-- int.from_bytes(b, "big")
unfoldable pub from_bytes_be : Bytes → ℕ
from_bytes_be bs = from_bytes_le (reverse bs)

-- n.to_bytes(size, "big"), for n < 256 ^ size
unfoldable pub to_bytes_be : ℕ → ℕ → Bytes
to_bytes_be size n = reverse (to_bytes_le size n)

pub from_bytes_be-to_bytes_be :
    (size n : ℕ) → n < 256 ^ size → from_bytes_be (to_bytes_be size n) ≡ n
unfolding from_bytes_be to_bytes_be
from_bytes_be-to_bytes_be size n h =
    ap from_bytes_le (reverse-reverse (to_bytes_le size n)) ∙ from_bytes_le-to_bytes_le size n h

length-reverse_aux : (xs ys : Bytes) → length (reverse_aux xs ys) ≡ length xs + length ys
length-reverse_aux [] ys = omega arith
length-reverse_aux (x ∷ xs) ys = omega (arith, length-reverse_aux xs (x ∷ ys))

pub length-to_bytes_be : (size n : ℕ) → length (to_bytes_be size n) ≡ size
unfolding to_bytes_be
length-to_bytes_be size n =
    omega (arith, length-reverse_aux (to_bytes_le size n) [], length-to_bytes_le size n)

-- struct.unpack(">h", b), struct.unpack(">i", b) and struct.unpack(">q", b) for as many bytes.
unfoldable pub unpack_signed : ℕ → Bytes → ℤ
unpack_signed bits bs = to_signed bits (from_bytes_be bs)

pub unpack_signed-to_bytes_be :
    (size bits n : ℕ)
    → n < 256 ^ size
    → n < 2 ^ (bits - 1)
    → unpack_signed bits (to_bytes_be size n) ≡ pos n
unfolding unpack_signed to_signed
unpack_signed-to_bytes_be size bits n h small =
    rw (from_bytes_be-to_bytes_be size n h, lt→ltb n (2 ^ (bits - 1)) small) refl

unpack_signed_runs :
    (unpack_signed 32 (0xff ∷ 0xff ∷ 0xff ∷ 0xff ∷ []) ≡ negsuc 0)
    × (unpack_signed 16 (0x01 ∷ 0x02 ∷ []) ≡ pos 258)
    × (to_bytes_be 4 258 ≡ 0 ∷ 0 ∷ 1 ∷ 2 ∷ [])
unfolding unpack_signed to_signed from_bytes_be from_bytes_le to_bytes_be to_bytes_le
unpack_signed_runs = (refl, refl, refl)
