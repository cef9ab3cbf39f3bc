-- ===== src/MySql/Session/Registry.antt =====
-- The dictionary of prepared statements: lookups, its length and the bytes of its texts.
use ohmydb_proxy.Prelude.{
  [], arith, if◌then◌else◌, is_some, length, refl, some, ℕ, ◌+◌, ◌∷◌, ◌≡◌, ◌≢◌, ◌≤◌,
}
use ohmydb_proxy.MySql.Session.{
  MySqlPreparedStatement, Registry, get, pop, previous_bytes, put, sql_bytes, state_bytes,
}

-- A new key makes it longer, a known one does not.
pub length-put :
    (i : ℕ) (s : MySqlPreparedStatement) (r : Registry)
    → length (put i s r) ≡ length r + (if is_some (get i r) then 0 else 1)
unfolding put get
length-put i s [] = refl
length-put i s ((key, old) ∷ rest) = ground (arith, length-put i s rest)

pub state_bytes-put :
    (i : ℕ) (s : MySqlPreparedStatement) (r : Registry)
    → state_bytes (put i s r) + previous_bytes (get i r) ≡ state_bytes r + sql_bytes s.sql
unfolding put get state_bytes
state_bytes-put i s [] = omega arith
state_bytes-put i s ((key, old) ∷ rest) = ground (arith, state_bytes-put i s rest)

pub previous_bytes-get : (i : ℕ) (r : Registry) → previous_bytes (get i r) ≤ state_bytes r
unfolding get state_bytes
previous_bytes-get i [] = omega arith
previous_bytes-get i ((key, old) ∷ rest) = ground (arith, previous_bytes-get i rest)

pub length-pop : (i : ℕ) (r : Registry) → length (pop i r) ≤ length r
unfolding pop
length-pop i [] = omega arith
length-pop i ((key, old) ∷ rest) = ground (arith, length-pop i rest)

pub state_bytes-pop : (i : ℕ) (r : Registry) → state_bytes (pop i r) ≤ state_bytes r
unfolding pop state_bytes
state_bytes-pop i [] = omega arith
state_bytes-pop i ((key, old) ∷ rest) = ground (arith, state_bytes-pop i rest)

pub get-put : (i : ℕ) (s : MySqlPreparedStatement) (r : Registry) → get i (put i s r) ≡ some s
unfolding get put
get-put i s [] = ground arith
get-put i s ((key, old) ∷ rest) = ground (arith, get-put i s rest)

pub get-put_other :
    (i j : ℕ) (s : MySqlPreparedStatement) (r : Registry) → i ≢ j → get j (put i s r) ≡ get j r
unfolding get put
get-put_other i j s [] h = ground arith
get-put_other i j s ((key, old) ∷ rest) h = ground (arith, get-put_other i j s rest h)
