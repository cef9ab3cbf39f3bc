-- ===== src/Postgres/Startup/Laws.antt =====
-- The loop of `parse_startup_params`.
use ohmydb_proxy.Prelude.{
  Bool, Bytes, Option-cases, Result, Result-cases, Text, [], arith, drop, err, false, find_null,
  find_null_bounds, if◌then◌else◌, inl, inr, is_settled, length, length-drop, ltb, ltb-false→le,
  not, ok, refl, some, suc, true, zero, ℕ, ◌+◌, ◌<◌, ◌∷◌, ◌≡◌,
}
use ohmydb_proxy.Prelude.Dict.{Dict, insert}
use ohmydb_proxy.Postgres.Protocol.{int32_at, is_int, protocol_error}
use ohmydb_proxy.Postgres.Startup.{params_loop, parse_pair, parse_startup_params}

-- A pair takes at least its two terminators.
parse_pair_shrinks :
    (rest : Bytes) (key value : Text) (behind : Bytes)
    → parse_pair rest ≡ ok (key, value, behind)
    → length behind < length rest
unfolding parse_pair
parse_pair_shrinks rest key value behind h = elim (Option-cases (find_null rest 0)) [
  | inl e ↦ absurd (ground (arith, e))
  | inr (n, e) ↦
      let b = find_null_bounds rest 0 n e in
      elim (Option-cases (find_null (drop (n + 1) rest) 0)) [
        | inl f ↦ absurd (ground (arith, e, f))
        | inr (m, f) ↦
            let whole : behind ≡ drop (m + 1) (drop (n + 1) rest) = ground (arith, e, f) in
            rw whole (
              omega (arith, b.1, length-drop (m + 1) (drop (n + 1) rest), length-drop (n + 1) rest))
      ]
]

parse_pair_settled : (rest : Bytes) → is_settled (parse_pair rest) ≡ true
unfolding parse_pair
parse_pair_settled rest = ground arith

params_loop_ends :
    (fuel : ℕ) (rest : Bytes) (params : Dict Text)
    → length rest < fuel
    → (r : Result (Dict Text)) × (params_loop fuel rest params ≡ some r) × (is_settled r ≡ true)
unfolding params_loop
params_loop_ends zero rest params h = absurd (omega arith)
params_loop_ends (suc fuel) [] params h = (_, refl, refl)
params_loop_ends (suc fuel) (zero ∷ rest) params h = (_, refl, refl)
params_loop_ends (suc fuel) (suc b ∷ rest) params h =
    elim (Result-cases (parse_pair (suc b ∷ rest))) [
      | inr (x, e) ↦ (err x, rw (e, params_loop) refl, rw e at (parse_pair_settled (suc b ∷ rest)))
      | inl ((key, value, behind), e) ↦
          let s = parse_pair_shrinks (suc b ∷ rest) key value behind e in
          let ends = params_loop_ends fuel behind (insert key value params) (omega (arith, s)) in
          (ends.0, rw (e, params_loop) ends.1, ends.2)
    ]

choice :
    (short declared : Bool) (fuel : ℕ) (rest : Bytes)
    → (short ≡ false → length rest < fuel)
    → (r : Result (Dict Text)) × ((if short
          then some (err (protocol_error "StartupMessage is too short"))
          else if not declared
          then some
              (err (protocol_error "StartupMessage declared length does not match received bytes"))
          else params_loop fuel rest [])
        ≡ some r)
      × (is_settled r ≡ true)
choice true declared fuel rest h = (_, refl, refl)
choice false false fuel rest h = (_, refl, refl)
choice false true fuel rest h = params_loop_ends fuel rest [] (h refl)

-- The loop over a StartupMessage ends for all bytes: there are parameters or a ProtocolMessageError.
pub parse_startup_params_ends :
    (raw : Bytes)
    → (r : Result (Dict Text)) × (parse_startup_params raw ≡ some r) × (is_settled r ≡ true)
unfolding parse_startup_params
parse_startup_params_ends raw =
    choice (ltb (length raw) 9) (is_int (length raw) (int32_at raw 0)) (length raw) (drop 8 raw)
      (λ long. omega (arith, length-drop 8 raw, ltb-false→le (length raw) 9 long))
