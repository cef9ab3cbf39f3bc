-- ===== src/MySql/Reconstruct/Template.antt =====
-- The SQL text of a prepared statement as a template with holes, which `reconstruct` fills.
use ohmydb_proxy.Prelude.{
  Error, List, Result, Text, [], ap, append-nil, append_assoc, arith, err, length, ok, refl, suc,
  zero, ℕ, ◌++◌, ◌+◌, ◌<◌, ◌∙◌, ◌∷◌, ◌≡◌,
}
use ohmydb_proxy.MySql.Reconstruct.{
  Scan, State, copy_one, copy_two, placeholder, scan, step, too_many,
}

-- A text in which some occurrences of "?" are holes.
pub data Template : Type 0 where
  end : Template
  char : ℕ → Template → Template
  hole : Template → Template

-- The text that was prepared.
abbrev pub source : Template → Text
source end = []
source (char c t) = c ∷ source t
source (hole t) = b'?' ∷ source t

abbrev pub holes : Template → ℕ
holes end = 0
holes (char c t) = holes t
holes (hole t) = suc (holes t)

-- The literals in place of the holes, in order.
abbrev pub fill : Template → List Text → Text
fill end ls = []
fill (char c t) ls = c ∷ fill t ls
fill (hole t) [] = []
fill (hole t) (l ∷ ls) = l ++ fill t ls

abbrev pub scanned : State → List Text → Text → ℕ → Result Scan
scanned state literals output replacements =
    ok (record { state = state; literals = literals; output = output; replacements = replacements })

-- A run of the loop on `text` sees the template `t`: with literals for its holes it fills them
-- and goes on to `last` with the literals that are left; with too few it raises.
pub record Sees (fuel : ℕ) (state : State) (text : Text) (t : Template) (last : State)
    : Type 0 where
  pub reads : source t ≡ text
  pub fills :
      (taken left : List Text) (output : Text) (n : ℕ)
      → length taken ≡ holes t
      → scan fuel state text (taken ++ left) output n
        ≡ scanned last left (output ++ fill t taken) (n + holes t)
  pub starves :
      (literals : List Text) (output : Text) (n : ℕ)
      → length literals < holes t
      → scan fuel state text literals output n ≡ err too_many

-- A run that raises, whatever the literals.
abbrev pub Refuses : ℕ → State → Text → Type 0
Refuses fuel state text =
    (literals : List Text) (output : Text) (n : ℕ)
    → (e : Error) × (scan fuel state text literals output n ≡ err e)

scan-nil :
    (fuel : ℕ) (state : State) (literals : List Text) (output : Text) (n : ℕ)
    → scan fuel state [] literals output n ≡ scanned state literals output n
unfolding scan
scan-nil zero state literals output n = refl
scan-nil (suc fuel) state literals output n = refl

pub Sees-end : (fuel : ℕ) (state : State) → Sees fuel state [] end state
Sees-end fuel state = record {
  reads = refl;
  fills = fills;
  starves = λ literals output n h. elim h [ ];
}
  where
    fills :
        (taken left : List Text) (output : Text) (n : ℕ)
        → length taken ≡ 0
        → scan fuel state [] (taken ++ left) output n ≡ scanned state left (output ++ []) (n + 0)
    fills [] left output n h =
        let e : n ≡ n + 0 = omega arith in rw (append-nil, ← e) (scan-nil fuel state left output n)
    fills (l ∷ ls) left output n h = absurd (omega arith)

-- A copied character.
pub Sees-char :
    (fuel c : ℕ) (state next : State) (rest : Text) {t : Template} {last : State}
    → step state c rest ≡ copy_one next
    → Sees fuel next rest t last
    → Sees (suc fuel) state (c ∷ rest) (char c t) last
unfolding scan
Sees-char fuel c state next rest e s = record {
  reads = ap (λ l. c ∷ l) s.reads;
  fills = λ taken left output n h.
      rw (e, scan) (s.fills taken left (output ++ (c ∷ [])) n h ∙ simp append_assoc);
  starves = λ literals output n h. rw (e, scan) (s.starves literals (output ++ (c ∷ [])) n h);
}

-- Two copied characters.
pub Sees-two :
    (fuel c f : ℕ) (state next : State) (rest : Text) {t : Template} {last : State}
    → step state c (f ∷ rest) ≡ copy_two next
    → Sees fuel next rest t last
    → Sees (suc fuel) state (c ∷ f ∷ rest) (char c (char f t)) last
unfolding scan
Sees-two fuel c f state next rest e s = record {
  reads = ap (λ l. c ∷ f ∷ l) s.reads;
  fills = λ taken left output n h.
      rw (e, scan) (s.fills taken left (output ++ (c ∷ f ∷ [])) n h ∙ simp append_assoc);
  starves = λ literals output n h. rw (e, scan) (s.starves literals (output ++ (c ∷ f ∷ [])) n h);
}

-- A placeholder.
pub Sees-hole :
    (fuel c : ℕ) (state : State) (rest : Text) {t : Template} {last : State}
    → step state c rest ≡ placeholder
    → c ≡ b'?'
    → Sees fuel state rest t last
    → Sees (suc fuel) state (c ∷ rest) (hole t) last
unfolding scan
Sees-hole fuel c state rest {t} {last} e q s = record {
  reads = rw (q, s.reads);
  fills = fills;
  starves = starves;
}
  where
    fills :
        (taken left : List Text) (output : Text) (n : ℕ)
        → length taken ≡ suc (holes t)
        → scan (suc fuel) state (c ∷ rest) (taken ++ left) output n
          ≡ scanned last left (output ++ fill (hole t) taken) (n + suc (holes t))
    fills [] left output n h = absurd (omega arith)
    fills (l ∷ ls) left output n h =
        rw (e, scan)
          (s.fills ls left (output ++ l) (n + 1) (omega arith)
            ∙ (let k : n + 1 + holes t ≡ n + suc (holes t) = omega arith in
                rw (append_assoc output l (fill t ls), k)))

    starves :
        (literals : List Text) (output : Text) (n : ℕ)
        → length literals < suc (holes t)
        → scan (suc fuel) state (c ∷ rest) literals output n ≡ err too_many
    starves [] output n h = rw (e, scan)
    starves (l ∷ ls) output n h = rw (e, scan) (s.starves ls (output ++ l) (n + 1) (omega arith))
