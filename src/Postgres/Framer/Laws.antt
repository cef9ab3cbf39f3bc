-- ===== src/Postgres/Framer/Laws.antt =====
-- `_MessageFramer._push`: what a framed message is, and streams that are cut into chunks.
use ohmydb_proxy.Prelude.{
  Bool-cases, Bytes, List, Result, Result-cases, [], ap, append_assoc, arith, decode_ascii, drop,
  drop-append, err, false, inl, inr, length, length-append, length-drop, length-take, le→ltb-false,
  ltb, ltb-false→le, negsuc, ok, pos, refl, some, take, take-append, take-append-drop,
  unpack_signed, ℕ, ℤ, ◌++◌, ◌+◌, ◌-◌, ◌<◌, ◌∙◌, ◌≡◌, ◌≤◌, ◌⊎◌,
}
use ohmydb_proxy.Framing.{IsFramer, frame, reject, wait}
use ohmydb_proxy.Framing.Laws.{AllFound, loop-AllFound, prepend, run, run-append, then_chunk}
use ohmydb_proxy.Postgres.Protocol.{Message, int32_at}
use ohmydb_proxy.Postgres.Framer.{MessageFramer, cut_message, next_message, push, total_size}

total_size_bounds :
    (max : ℕ) (length : ℤ) (size : ℕ)
    → total_size max length ≡ ok size
    → (5 ≤ size) × (size ≤ max) × (length ≡ pos (size - 1))
total_size_bounds max (negsuc n) size h = cc
total_size_bounds max (pos n) size h = ground arith

-- What a framed message is: a cut of the buffer of the length that it announces, within the limit.
pub record IsFramed (max : ℕ) (buffer : Bytes) (m : Message) (rest : Bytes) : Type 0 where
  pub whole : buffer ≡ m.raw ++ rest
  pub size : total_size max (int32_at buffer 1) ≡ ok (length m.raw)
  pub type : decode_ascii (take 1 m.raw) ≡ some m.type
  pub payload : m.payload ≡ drop 5 m.raw

cut_message-IsCut :
    (size : ℕ) (buffer : Bytes) (m : Message) (rest : Bytes)
    → cut_message size buffer ≡ frame m rest
    → (buffer ≡ m.raw ++ rest)
      × (length m.raw ≡ size)
      × (decode_ascii (take 1 m.raw) ≡ some m.type)
      × (m.payload ≡ drop 5 m.raw)
unfolding cut_message
cut_message-IsCut size buffer m rest h =
    ground (arith, length-take size buffer, take-append-drop size buffer)

pub next_message-IsFramed :
    (max : ℕ) (buffer : Bytes) (m : Message) (rest : Bytes)
    → next_message max buffer ≡ frame m rest
    → IsFramed max buffer m rest
unfolding next_message
next_message-IsFramed max buffer m rest h =
    elim (Result-cases (total_size max (int32_at buffer 1))) [
      | inr (x, e) ↦ absurd (ground (arith, e))
      | inl (size, e) ↦
          let c = cut_message-IsCut size buffer m rest (ground (arith, e)) in
          record { whole = c.0; size = rw c.1 e; type = c.2; payload = c.3 }
    ]

cut_message-append :
    (size : ℕ) (buffer more : Bytes)
    → size ≤ length buffer
    → cut_message size (buffer ++ more) ≡ elim (cut_message size buffer) [
      | wait ↦ wait
      | reject e rest ↦ reject e (rest ++ more)
      | frame m rest ↦ frame m (rest ++ more)
    ]
unfolding cut_message
cut_message-append size buffer more h =
    ground
      (arith, length-append buffer more, take-append size buffer more, drop-append size buffer more)

header-append :
    (buffer more : Bytes) → 5 ≤ length buffer → int32_at (buffer ++ more) 1 ≡ int32_at buffer 1
header-append buffer more h = ap (unpack_signed 32) (
    ap (take 4) (drop-append 1 buffer more (omega arith))
    ∙ take-append 4 (drop 1 buffer) more (omega (arith, length-drop 1 buffer)))

cut_message_done :
    (size : ℕ) (buffer more : Bytes)
    → (cut_message size buffer ≡ wait)
      ⊎ (cut_message size (buffer ++ more) ≡ elim (cut_message size buffer) [
        | wait ↦ wait
        | reject e rest ↦ reject e (rest ++ more)
        | frame m rest ↦ frame m (rest ++ more)
      ])
cut_message_done size buffer more = elim (Bool-cases (ltb (length buffer) size)) [
  | inl e ↦ inl (unfold cut_message in rw e refl)
  | inr e ↦ inr (cut_message-append size buffer more (ltb-false→le (length buffer) size e))
]

-- A round that frames or raises does the same whatever bytes follow.
next_message_later :
    (max : ℕ) (buffer more : Bytes)
    → (next_message max buffer ≡ wait)
      ⊎ (next_message max (buffer ++ more) ≡ elim (next_message max buffer) [
        | wait ↦ wait
        | reject e rest ↦ reject e (rest ++ more)
        | frame m rest ↦ frame m (rest ++ more)
      ])
unfolding next_message
next_message_later max buffer more = elim (Bool-cases (ltb (length buffer) 5)) [
  | inl e ↦ inl (rw e refl)
  | inr e ↦
      let long : 5 ≤ length buffer = ltb-false→le (length buffer) 5 e in
      let whole : ltb (length (buffer ++ more)) 5 ≡ false =
        le→ltb-false (length (buffer ++ more)) 5 (omega (arith, length-append buffer more)) in
      elim (Result-cases (total_size max (int32_at buffer 1))) [
        | inr (x, r) ↦ inr (rw (e, whole, header-append buffer more long, r) refl)
        | inl (size, r) ↦ elim (cut_message_done size buffer more) [
          | inl c ↦ inl (rw (e, r) c)
          | inr c ↦ inr (rw (e, whole, header-append buffer more long, r) c)
        ]
      ]
]

next_message_shrinks :
    (max : ℕ) (buffer : Bytes) (m : Message) (rest : Bytes)
    → next_message max buffer ≡ frame m rest
    → length rest < length buffer
next_message_shrinks max buffer m rest h =
    let f = next_message-IsFramed max buffer m rest h in
    let b = total_size_bounds max (int32_at buffer 1) (length m.raw) f.size in
    let e : length buffer ≡ length m.raw + length rest =
      ap length f.whole ∙ length-append m.raw rest in
    omega (arith, e, b.0)

pub next_message-IsFramer : (max : ℕ) → IsFramer (next_message max)
next_message-IsFramer max = record {
  empty = unfold next_message in refl;
  shrinks = next_message_shrinks max;
  frame_later = λ buffer more m rest h. elim (next_message_later max buffer more) [
    | inl e ↦ cc
    | inr e ↦ rw h at e
  ];
  reject_later = λ buffer more x rest h. elim (next_message_later max buffer more) [
    | inl e ↦ cc
    | inr e ↦ rw h at e
  ];
}

-- What a reader of the framer sees after a first chunk and then a second one. An error ends the
-- stream: later bytes are kept and not looked at.
abbrev pub push_next :
    Result (List Message) × MessageFramer → Bytes → Result (List Message) × MessageFramer
push_next (ok ms, self) chunk = (prepend ms (push self chunk).0, (push self chunk).1)
push_next (err e, self) chunk = (err e, record self { buffer = self.buffer ++ chunk })

abbrev self_with : ℕ → Result (List Message) × Bytes → Result (List Message) × MessageFramer
self_with max o = (o.0, record { buffer = o.1; max_message_bytes = max })

self_with-then_chunk :
    (max : ℕ) (o : Result (List Message) × Bytes) (chunk : Bytes)
    → self_with max (then_chunk (next_message max) (next_message-IsFramer max) o chunk)
      ≡ push_next (self_with max o) chunk
unfolding push
self_with-then_chunk max (ok ms, rest) chunk = refl
self_with-then_chunk max (err e, rest) chunk = refl

-- A push of two chunks joined has the outcome of pushing the first and then, unless that raised, the
-- second: the same messages in the same order or the same exception, and the same buffer.
pub push_joined :
    (self : MessageFramer) (first second : Bytes)
    → push self (first ++ second) ≡ push_next (push self first) second
unfolding push
push_joined self first second =
    let max = self.max_message_bytes in
    let buffer = self.buffer ++ first in
    rw (← append_assoc) (
      ap (self_with max) (run-append (next_message max) (next_message-IsFramer max) buffer second)
      ∙ self_with-then_chunk max (run (next_message max) (next_message-IsFramer max) buffer) second)

-- A message has the type and the payload that its bytes hold.
pub record IsFrame (m : Message) : Type 0 where
  pub typed : decode_ascii (take 1 m.raw) ≡ some m.type
  pub carried : m.payload ≡ drop 5 m.raw

pub push-IsFrame : (self : MessageFramer) (chunk : Bytes) → AllFound IsFrame (push self chunk).0
unfolding push
push-IsFrame self chunk =
    loop-AllFound (next_message self.max_message_bytes) IsFrame
      (λ buffer m rest h.
        let f = next_message-IsFramed self.max_message_bytes buffer m rest h in
        record { typed = f.type; carried = f.payload })
      (length (self.buffer ++ chunk)) (self.buffer ++ chunk) [] tt
