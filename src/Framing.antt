-- ===== src/Framing.antt =====
-- The loop that a framer of pg_protocol.py runs over its buffer. One round looks at the buffer's
-- front; the loop of `_MessageFramer._push` ends when a round breaks or raises.
pub mod Laws
use ohmydb_proxy.Prelude.{
  Bytes, Error, List, Result, [], err, length, ok, suc, zero, ℕ, ◌++◌, ◌<◌, ◌∷◌, ◌≡◌,
}

-- What a round does: it breaks, raises with the buffer that it leaves, or appends a message and goes
-- on with the rest of the buffer.
pub data Round (P : Type 0) : Type 0 where
  wait : Round P
  reject : Error → Bytes → Round P
  frame : P → Bytes → Round P

-- The loop, with the messages found so far.
unfoldable pub loop :
    {P : Type 0} → (Bytes → Round P) → ℕ → Bytes → List P → Result (List P) × Bytes
loop next zero buffer found = (ok found, buffer)
loop next (suc fuel) buffer found = elim (next buffer) [
  | wait ↦ (ok found, buffer)
  | reject e rest ↦ (err e, rest)
  | frame p rest ↦ loop next fuel rest (found ++ (p ∷ []))
]

-- What a round must be for the loop to end by its tests and to be the same for a stream in pieces:
-- an empty buffer waits, a message takes at least a byte, and bytes that come later change neither a
-- message nor an error.
pub record IsFramer {P : Type 0} (next : Bytes → Round P) : Type 0 where
  pub empty : next [] ≡ wait
  pub shrinks :
      (buffer : Bytes) (p : P) (rest : Bytes)
      → next buffer ≡ frame p rest
      → length rest < length buffer
  pub frame_later :
      (buffer more : Bytes) (p : P) (rest : Bytes)
      → next buffer ≡ frame p rest
      → next (buffer ++ more) ≡ frame p (rest ++ more)
  pub reject_later :
      (buffer more : Bytes) (e : Error) (rest : Bytes)
      → next buffer ≡ reject e rest
      → next (buffer ++ more) ≡ reject e (rest ++ more)
