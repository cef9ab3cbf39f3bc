-- ===== src/Framing/Laws.antt =====
-- The loop of a framer: enough fuel, and a stream that comes in two chunks.
use ohmydb_proxy.Prelude.{
  All, All-append, Bytes, Error, List, Result, [], append-nil, append_assoc, arith, err, inl, inr,
  length, length-append, ok, refl, suc, zero, ℕ, ◌++◌, ◌∙◌, ◌∷◌, ◌≡◌, ◌≤◌, ◌⊎◌,
}
use ohmydb_proxy.Framing.{IsFramer, Round, frame, loop, reject, wait}

pub Round-cases :
    {P : Type 0} (r : Round P)
    → (r ≡ wait)
      ⊎ (((e : Error) × (rest : Bytes) × (r ≡ reject e rest))
          ⊎ ((p : P) × (rest : Bytes) × (r ≡ frame p rest)))
Round-cases wait = inl refl
Round-cases (reject e rest) = inr (inl (e, rest, refl))
Round-cases (frame p rest) = inr (inr (p, rest, refl))

-- The messages `front` before those of a successful outcome.
abbrev pub prepend : {P : Type 0} → List P → Result (List P) → Result (List P)
prepend front (ok ps) = ok (front ++ ps)
prepend front (err e) = err e

pub loop-prepend :
    {P : Type 0} (next : Bytes → Round P) (fuel : ℕ) (buffer : Bytes) (front found : List P)
    → loop next fuel buffer (front ++ found)
      ≡ (prepend front (loop next fuel buffer found).0, (loop next fuel buffer found).1)
unfolding loop
loop-prepend next zero buffer front found = refl
loop-prepend next (suc fuel) buffer front found = elim (Round-cases (next buffer)) [
  | inl e ↦ rw (e, loop)
  | inr (inl (x, rest, e)) ↦ rw (e, loop)
  | inr (inr (p, rest, e)) ↦
      rw (e, loop, append_assoc) (loop-prepend next fuel rest front (found ++ (p ∷ [])))
]

module _ {P : Type 0} (next : Bytes → Round P) (w : IsFramer next) where
  short : (buffer : Bytes) → length buffer ≤ 0 → next buffer ≡ wait
  short [] h = w.empty
  short (b ∷ bs) h = absurd (omega arith)

  -- Beyond the length of the buffer, more fuel changes nothing.
  pub loop_fuel :
      (f g : ℕ) (buffer : Bytes) (found : List P)
      → length buffer ≤ f
      → length buffer ≤ g
      → loop next f buffer found ≡ loop next g buffer found
  unfolding loop
  loop_fuel zero zero buffer found hf hg = refl
  loop_fuel zero (suc g) buffer found hf hg = rw (short buffer hf, loop)
  loop_fuel (suc f) zero buffer found hf hg = rw (short buffer hg, loop)
  loop_fuel (suc f) (suc g) buffer found hf hg = elim (Round-cases (next buffer)) [
    | inl e ↦ rw (e, loop)
    | inr (inl (x, rest, e)) ↦ rw (e, loop)
    | inr (inr (p, rest, e)) ↦
        rw (e, loop)
          (let s = w.shrinks buffer p rest e in
            loop_fuel f g rest (found ++ (p ∷ [])) (omega arith) (omega arith))
  ]

  -- The outcome of the loop on a buffer, with `more` behind it: an error stays, and after a success
  -- the loop goes on with what was left.
  pub resume : ℕ → Bytes → Result (List P) × Bytes → Result (List P) × Bytes
  resume fuel more (ok found, rest) = loop next fuel (rest ++ more) found
  resume fuel more (err e, rest) = (err e, rest ++ more)

  pub loop_reject :
      (g : ℕ) (buffer : Bytes) (found : List P) (e : Error) (rest : Bytes)
      → length buffer ≤ g
      → next buffer ≡ reject e rest
      → loop next g buffer found ≡ (err e, rest)
  unfolding loop
  loop_reject zero buffer found e rest h r = cc (short buffer h)
  loop_reject (suc g) buffer found e rest h r = rw (r, loop)

  -- One round of the loop, with fuel for the whole buffer.
  pub loop_frame :
      (g h : ℕ) (buffer : Bytes) (found : List P) (p : P) (rest : Bytes)
      → length buffer ≤ g
      → length rest ≤ h
      → next buffer ≡ frame p rest
      → loop next g buffer found ≡ loop next h rest (found ++ (p ∷ []))
  unfolding loop
  loop_frame zero h buffer found p rest hg hh r = cc (short buffer hg)
  loop_frame (suc g) h buffer found p rest hg hh r =
      rw (r, loop)
        (let s = w.shrinks buffer p rest r in
          loop_fuel g h rest (found ++ (p ∷ [])) (omega arith) hh)

  loop-append :
      (f g h : ℕ) (buffer more : Bytes) (found : List P)
      → length buffer ≤ f
      → length (buffer ++ more) ≤ g
      → length (buffer ++ more) ≤ h
      → loop next g (buffer ++ more) found ≡ resume h more (loop next f buffer found)
  unfolding loop resume
  loop-append zero g h buffer more found hf hg hh = loop_fuel g h (buffer ++ more) found hg hh
  loop-append (suc f) g h buffer more found hf hg hh = elim (Round-cases (next buffer)) [
    | inl e ↦ rw (e, loop) (loop_fuel g h (buffer ++ more) found hg hh)
    | inr (inl (x, rest, e)) ↦
        rw (e, loop)
          (loop_reject g (buffer ++ more) found x (rest ++ more) hg
            (w.reject_later buffer more x rest e))
    | inr (inr (p, rest, e)) ↦
        let s = w.shrinks buffer p rest e in
        let l = length-append rest more in
        let k = length-append buffer more in
        rw (e, loop)
          (loop_frame g g (buffer ++ more) found p (rest ++ more) hg (omega arith)
              (w.frame_later buffer more p rest e)
            ∙ loop-append f g h rest more (found ++ (p ∷ [])) (omega arith) (omega arith)
                (omega arith))
  ]

  loop_shrinks :
      (fuel : ℕ) (buffer : Bytes) (found ps : List P) (rest : Bytes)
      → loop next fuel buffer found ≡ (ok ps, rest)
      → length rest ≤ length buffer
  unfolding loop
  loop_shrinks zero buffer found ps rest h = ground arith
  loop_shrinks (suc fuel) buffer found ps rest h = elim (Round-cases (next buffer)) [
    | inl e ↦ ground (arith, e)
    | inr (inl (x, left, e)) ↦ ground (arith, e)
    | inr (inr (p, left, e)) ↦
        ground
          (arith, e, w.shrinks buffer p left e, loop_shrinks fuel left (found ++ (p ∷ [])) ps rest)
  ]

  -- A run over a buffer with fuel for all of it.
  abbrev pub run : Bytes → Result (List P) × Bytes
  run buffer = loop next (length buffer) buffer []

  -- What comes of a further chunk: it follows the bytes that were left, and an error ends the stream.
  abbrev pub then_chunk : Result (List P) × Bytes → Bytes → Result (List P) × Bytes
  then_chunk (ok ps, rest) more = (prepend ps (run (rest ++ more)).0, (run (rest ++ more)).1)
  then_chunk (err e, rest) more = (err e, rest ++ more)

  resume-then_chunk :
      (n : ℕ) (buffer more : Bytes) (o : Result (List P) × Bytes)
      → run buffer ≡ o
      → length (buffer ++ more) ≤ n
      → resume n more o ≡ then_chunk o more
  unfolding resume
  resume-then_chunk n buffer more (ok ps, rest) e h =
      let s = loop_shrinks (length buffer) buffer [] ps rest e in
      let k = length-append buffer more in
      let l = length-append rest more in
      loop_fuel n (length (rest ++ more)) (rest ++ more) ps (omega arith) (omega arith)
      ∙ rw append-nil at (loop-prepend next (length (rest ++ more)) (rest ++ more) ps [])
  resume-then_chunk n buffer more (err x, rest) e h = refl

  pub run-append : (buffer more : Bytes) → run (buffer ++ more) ≡ then_chunk (run buffer) more
  run-append buffer more =
      loop-append (length buffer) (length (buffer ++ more)) (length (buffer ++ more)) buffer more []
        (omega arith) (omega arith) (omega arith)
      ∙ resume-then_chunk (length (buffer ++ more)) buffer more (run buffer) refl (omega arith)

-- A predicate of all the messages of a successful outcome.
abbrev pub AllFound : {P : Type 0} → (P → Type 0) → Result (List P) → Type 0
AllFound Q (ok ps) = All Q ps
AllFound Q (err e) = Unit {0}

-- What holds of every message that a round gives holds of all that the loop gives.
pub loop-AllFound :
    {P : Type 0} (next : Bytes → Round P) (Q : P → Type 0)
    → ((buffer : Bytes) (p : P) (rest : Bytes) → next buffer ≡ frame p rest → Q p)
    → (fuel : ℕ) (buffer : Bytes) (found : List P) → All Q found
    → AllFound Q (loop next fuel buffer found).0
unfolding loop
loop-AllFound next Q h zero buffer found q = q
loop-AllFound next Q h (suc fuel) buffer found q = elim (Round-cases (next buffer)) [
  | inl e ↦ rw (e, loop) q
  | inr (inl (x, rest, e)) ↦ rw (e, loop) tt
  | inr (inr (p, rest, e)) ↦
      rw (e, loop)
        (loop-AllFound next Q h fuel rest (found ++ (p ∷ []))
          (All-append Q found (p ∷ []) q (h buffer p rest e, tt)))
]
