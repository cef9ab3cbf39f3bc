-- ===== src/Prelude/Slices.antt =====
-- Python's `bytes` and `str` as lists: slices, and the byte orders of `int.from_bytes`,
-- `int.to_bytes` and `struct`.
use Prim.Native.Nat.{ℕ, zero, suc, ◌+◌, ◌-◌, ◌*◌, ◌/◌, ◌%◌, ◌^◌, ◌≤◌, ◌<◌}
use Prim.Native.Char.{code}
use Prim.Native.String.{String}
use mathlib.Core.Path.{◌≡◌, refl, ap}
use mathlib.Core.List.{List, [], ◌∷◌, ◌++◌, append_assoc}
use mathlib.Core.Option.{some}
use native.Mathlib.Omega.{arith}
use native.Mathlib.Nat.{pow-suc}
use ohmydb_proxy.Prelude.Lists.{
  All, drop, drop-length_append, get_elem?, length, length-append, length-drop, length-take, take,
  take-length_append,
}

-- A byte string, each element below 256 where it matters; a text, its code points.
abbrev pub Bytes : Type 0
Bytes = List ℕ

abbrev pub Text : Type 0
Text = List ℕ

abbrev pub IsByte : ℕ → Type 0
IsByte b = b < 256

-- A literal of the source as its code points.
unfoldable pub lit : String → Text
lit String.[] = []
lit (String.◌∷◌ c s) = code c ∷ lit s

-- xs[start:end] for start ≤ end; a slice past the end is cut short.
abbrev pub slice {ℓ} : {A : Type ℓ} → List A → ℕ → ℕ → List A
slice xs start end = take (end - start) (drop start xs)

-- b"".join(parts), "".join(parts)
abbrev pub join {ℓ} : {A : Type ℓ} → List (List A) → List A
join [] = []
join (x ∷ xs) = x ++ join xs

-- int.from_bytes(b, "little")
unfoldable pub from_bytes_le : Bytes → ℕ
from_bytes_le [] = 0
from_bytes_le (b ∷ bs) = b + 256 * from_bytes_le bs

-- n.to_bytes(size, "little"), for n < 256 ^ size
unfoldable pub to_bytes_le : ℕ → ℕ → Bytes
to_bytes_le zero n = []
to_bytes_le (suc size) n = (n % 256) ∷ to_bytes_le size (n / 256)

pub length-to_bytes_le : (size n : ℕ) → length (to_bytes_le size n) ≡ size
unfolding to_bytes_le
length-to_bytes_le zero n = refl
length-to_bytes_le (suc size) n = ap suc (length-to_bytes_le size (n / 256))

pub from_bytes_le-to_bytes_le :
    (size n : ℕ) → n < 256 ^ size → from_bytes_le (to_bytes_le size n) ≡ n
unfolding to_bytes_le from_bytes_le
from_bytes_le-to_bytes_le zero n h = omega arith
from_bytes_le-to_bytes_le (suc size) n h =
    omega (arith, from_bytes_le-to_bytes_le size (n / 256) (omega (arith, pow-suc 256 size)))

pub from_bytes_le-lt : (bs : Bytes) → All IsByte bs → from_bytes_le bs < 256 ^ length bs
unfolding from_bytes_le
from_bytes_le-lt [] h = omega arith
from_bytes_le-lt (b ∷ bs) h = omega (arith, h.0, from_bytes_le-lt bs h.1, pow-suc 256 (length bs))

-- A slice within bounds has the length that was asked for.
pub length-slice {ℓ} :
    {A : Type ℓ} (xs : List A) (start end : ℕ)
    → end ≤ length xs
    → length (slice xs start end) ≡ end - start
length-slice xs start end h =
    omega (arith, length-take (end - start) (drop start xs), length-drop start xs)

-- Reading at the end of a front part: a slice, the rest, an element.
module _ {ℓ} {A : Type ℓ} where
  pub slice_middle :
      (front part rest : List A) (size : ℕ)
      → length part ≡ size
      → slice (front ++ (part ++ rest)) (length front) (length front + size) ≡ part
  slice_middle front part rest size e =
      let n : length front + size - length front ≡ length part = omega (arith, e) in
      rw (n, drop-length_append front (part ++ rest)) (take-length_append part rest)

  pub drop_middle :
      (front part rest : List A) (size : ℕ)
      → length part ≡ size
      → drop (length front + size) (front ++ (part ++ rest)) ≡ rest
  drop_middle front part rest size e =
      let n : length front + size ≡ length (front ++ part) =
        omega (arith, e, length-append front part) in
      rw (n, ← append_assoc front part rest) (drop-length_append (front ++ part) rest)

  pub get_elem?_middle :
      (front : List A) (x : A) (rest : List A)
      → get_elem? (front ++ (x ∷ rest)) (length front) ≡ some x
  get_elem?_middle [] x rest = refl
  get_elem?_middle (y ∷ front) x rest = get_elem?_middle front x rest
