-- ===== src/Prelude/Plain.antt =====
-- Characters of a SQL text that change nothing around them.
use ohmydb_proxy.Prelude.{
  All, Bool, IsDigit, Text, [], arith, between, decimal, decimal-IsDigit, elem, int_text, negsuc,
  pos, refl, true, ℕ, ℤ, ◌+◌, ◌||◌, ◌∷◌, ◌≡◌,
}

-- Characters that neither quote, comment, separate statements nor mark a placeholder.
abbrev pub is_plain : ℕ → Bool
is_plain c =
    between b'0' b'9' c
    || (between b'a' b'z' c || (between b'A' b'Z' c || elem c (b'+' ∷ b'-' ∷ b'.' ∷ [])))

abbrev pub IsPlain : ℕ → Type 0
IsPlain c = is_plain c ≡ true

digits-IsPlain : (t : Text) → All IsDigit t → All IsPlain t
digits-IsPlain [] h = tt
digits-IsPlain (c ∷ t) h = (ground arith, digits-IsPlain t h.1)

pub int_text-IsPlain : (n : ℤ) → All IsPlain (int_text n)
unfolding int_text
int_text-IsPlain (pos n) = digits-IsPlain (decimal n) (decimal-IsDigit n)
int_text-IsPlain (negsuc n) = (refl, digits-IsPlain (decimal (n + 1)) (decimal-IsDigit (n + 1)))
