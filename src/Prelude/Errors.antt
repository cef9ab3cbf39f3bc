-- ===== src/Prelude/Errors.antt =====
-- Fallible code: a value or the exception that was raised.
use mathlib.Core.Path.{◌≡◌, refl}
use mathlib.Core.Logic.{◌⊎◌, inl, inr}
use mathlib.Core.Bool.{Bool, true, false}
use mathlib.Core.List.{List}
use mathlib.Core.Option.{Option, none, some}
use Prim.Native.Nat.{ℕ, ◌<◌}
use ohmydb_proxy.Prelude.Lists.{get_elem?, get_elem?-some, length}
use ohmydb_proxy.Prelude.Slices.{Text, lit}

-- The exception classes that the source raises, with their messages.
pub data Error : Type 0 where
  mysql_protocol_error : Text → Error
  protocol_message_error : Text → Error
  value_error : Text → Error
  index_error : Error
  struct_error : Error

pub data Result {ℓ} (A : Type ℓ) : Type ℓ where
  ok : A → Result A
  err : Error → Result A

-- An exception stops the rest.
infixl 5 ◌>>=◌ ◌>>◌
abbrev pub ◌>>=◌ {ℓ κ} : {A : Type ℓ} {B : Type κ} → Result A → (A → Result B) → Result B
ok value >>= rest = rest value
err error >>= rest = err error

-- `if test: raise error`
abbrev pub raise_if : Bool → Error → Result (Unit {0})
raise_if true e = err e
raise_if false e = ok tt

abbrev pub ◌>>◌ {ℓ} : {B : Type ℓ} → Result (Unit {0}) → Result B → Result B
test >> rest = test >>= λ done. rest

abbrev pub or_raise {ℓ} : {A : Type ℓ} → Option A → Error → Result A
or_raise none e = err e
or_raise (some a) e = ok a

-- xs[i]
abbrev pub index {ℓ} : {A : Type ℓ} → List A → ℕ → Result A
index xs i = or_raise (get_elem? xs i) index_error

pub Result-cases {ℓ} :
    {A : Type ℓ} (r : Result A) → ((a : A) × (r ≡ ok a)) ⊎ ((e : Error) × (r ≡ err e))
Result-cases (ok a) = inl (a, refl)
Result-cases (err e) = inr (e, refl)

pub index_ok {ℓ} :
    {A : Type ℓ} (xs : List A) (i : ℕ) → i < length xs → (a : A) × (index xs i ≡ ok a)
index_ok xs i h = let (a, e) = get_elem?-some xs i h in (a, rw e)

-- `except MySqlProtocolError` catches the error.
abbrev pub is_mysql_error : Error → Bool
is_mysql_error (mysql_protocol_error t) = true
is_mysql_error _ = false

-- The computation raises no other exception.
abbrev pub OnlyMySqlErrors {ℓ} : {A : Type ℓ} → Result A → Type ℓ
OnlyMySqlErrors r = (e : Error) → r ≡ err e → is_mysql_error e ≡ true

-- `except ProtocolMessageError` catches the error.
abbrev pub is_protocol_error : Error → Bool
is_protocol_error (protocol_message_error t) = true
is_protocol_error _ = false

-- There is a result, or the exception is a ProtocolMessageError.
abbrev pub is_settled {ℓ} : {A : Type ℓ} → Result A → Bool
is_settled (ok a) = true
is_settled (err e) = is_protocol_error e

pub is_settled->>= {ℓ κ} :
    {A : Type ℓ} {B : Type κ} (r : Result A) (f : A → Result B)
    → is_settled r ≡ true
    → ((a : A) → r ≡ ok a → is_settled (f a) ≡ true)
    → is_settled (r >>= f) ≡ true
is_settled->>= (ok a) f h k = k a refl
is_settled->>= (err e) f h k = h

-- str(exc)
abbrev pub error_text : Error → Text
error_text (mysql_protocol_error t) = t
error_text (protocol_message_error t) = t
error_text (value_error t) = t
error_text index_error = lit "list index out of range"
error_text struct_error = lit "unpack_from requires a larger buffer"
