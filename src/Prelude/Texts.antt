-- ===== src/Prelude/Texts.antt =====
-- Python's `str.strip`, `str.isspace` and membership in a small set of numbers.
use Prim.Native.Nat.{ℕ, ◌+◌, ◌≤◌, ◌<◌}
use mathlib.Core.Path.{◌≡◌, refl}
use mathlib.Core.Bool.{Bool, true, false, ◌&&◌, ◌||◌}
use mathlib.Core.List.{List, [], ◌∷◌, ◌++◌}
use mathlib.Core.Option.{Option, none, some}
use ohmydb_proxy.Prelude.Tests.{if◌then◌else◌, leb, ◌==◌}
use native.Mathlib.Omega.{arith}
use ohmydb_proxy.Prelude.Lists.{length}
use ohmydb_proxy.Prelude.Slices.{Bytes, Text, lit}

-- x in {a, b, …}
abbrev pub elem : ℕ → List ℕ → Bool
elem x [] = false
elem x (a ∷ as') = x == a || elem x as'

abbrev pub between : ℕ → ℕ → ℕ → Bool
between lo hi x = leb lo x && leb x hi

-- `if not xs`
abbrev pub is_empty {ℓ} : {A : Type ℓ} → List A → Bool
is_empty [] = true
is_empty (x ∷ xs) = false

-- The code points that `str.isspace` accepts and `str.strip` removes.
unfoldable pub is_space : ℕ → Bool
is_space c =
    between 0x09 0x0d c
    || (between 0x1c 0x20 c
        || (elem c (0x85 ∷ 0xa0 ∷ 0x1680 ∷ 0x2028 ∷ 0x2029 ∷ 0x202f ∷ 0x205f ∷ 0x3000 ∷ [])
            || between 0x2000 0x200a c))

unfoldable pub lstrip : Text → Text
unfolding is_space
lstrip [] = []
lstrip (c ∷ cs) = let rest = lstrip cs in if is_space c then rest else c ∷ cs

unfoldable pub rstrip : Text → Text
unfolding is_space
rstrip [] = []
rstrip (c ∷ cs) = let rest = rstrip cs in if is_space c && is_empty rest then [] else c ∷ rest

unfoldable pub strip : Text → Text
unfolding lstrip rstrip
strip t = lstrip (rstrip t)

-- `==` of two texts
unfoldable pub text_eq : Text → Text → Bool
text_eq [] [] = true
text_eq (a ∷ as') (b ∷ bs) = a == b && text_eq as' bs
text_eq _ _ = false

-- payload.find(b"\x00") in a list that begins at `offset`
unfoldable pub find_null : Bytes → ℕ → Option ℕ
find_null [] offset = none
find_null (b ∷ bs) offset =
    let later = find_null bs (offset + 1) in if b == 0 then some offset else later

strip_runs : strip (lit "  my db ") ≡ lit "my db"
unfolding strip lit
strip_runs = refl

pub text_eq_refl : (t : Text) → text_eq t t ≡ true
unfolding text_eq
text_eq_refl [] = refl
text_eq_refl (c ∷ t) = ground (arith, text_eq_refl t)

pub text_eq→eq : (s t : Text) → text_eq s t ≡ true → s ≡ t
unfolding text_eq
text_eq→eq [] [] h = refl
text_eq→eq [] (d ∷ t) h = cc
text_eq→eq (c ∷ s) [] h = cc
text_eq→eq (c ∷ s) (d ∷ t) h = ground (arith, text_eq→eq s t)

-- The end of a part without zeros is where the first zero behind it stands.
pub find_null-append :
    (part rest : Bytes) (offset : ℕ)
    → find_null part offset ≡ none
    → find_null (part ++ (0 ∷ rest)) offset ≡ some (offset + length part)
unfolding find_null
find_null-append [] rest offset h = ground arith
find_null-append (b ∷ part) rest offset h = ground (arith, find_null-append part rest (offset + 1))

-- A zero that is found stands at or behind the offset, within the bytes.
pub find_null_bounds :
    (bs : Bytes) (offset end : ℕ)
    → find_null bs offset ≡ some end
    → (offset ≤ end) × (end < offset + length bs)
unfolding find_null
find_null_bounds [] offset end h = cc
find_null_bounds (b ∷ bs) offset end h = ground (arith, find_null_bounds bs (offset + 1) end)

-- Where no zero is found, none is found from another offset.
pub find_null-none :
    (bs : Bytes) (offset offset' : ℕ) → find_null bs offset ≡ none → find_null bs offset' ≡ none
unfolding find_null
find_null-none [] offset offset' h = refl
find_null-none (b ∷ bs) offset offset' h =
    ground (arith, find_null-none bs (offset + 1) (offset' + 1))
