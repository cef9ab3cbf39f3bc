-- ===== src/MySql/Reconstruct/Outcomes.antt =====
-- Every run of the loop of `reconstruct_stmt_execute_sql` sees a template or raises.
use ohmydb_proxy.Prelude.{
  Error, Text, [], arith, drop, inl, inr, length, length-drop, refl, subst, suc, sym, zero, ℕ, ◌++◌,
  ◌+◌, ◌∷◌, ◌≡◌, ◌≤◌, ◌⊎◌,
}
use ohmydb_proxy.MySql.Reconstruct.{
  Action, State, block_comment, copy_one, copy_two, line_comment, placeholder, quoted, refuse, scan,
  sql, step, too_many,
}
use ohmydb_proxy.MySql.Reconstruct.Template.{
  Refuses, Sees, Sees-char, Sees-end, Sees-hole, Sees-two, Template, char, end, hole,
}

step_placeholder :
    (state : State) (c : ℕ) (rest : Text) → step state c rest ≡ placeholder → c ≡ b'?'
unfolding step
step_placeholder sql c rest e = ground arith
step_placeholder (quoted q) c rest e = ground arith
step_placeholder line_comment c rest e = cc
step_placeholder block_comment c rest e = ground arith

-- Two characters are copied only where there are two.
step_copy_two :
    (state next : State) (c : ℕ) (rest : Text)
    → step state c rest ≡ copy_two next
    → (f : ℕ) × (rest' : Text) × (rest ≡ f ∷ rest')
unfolding step
step_copy_two state next c (f ∷ rest) e = (f, rest, refl)
step_copy_two sql next c [] e = absurd (ground arith)
step_copy_two (quoted q) next c [] e = absurd (ground arith)
step_copy_two line_comment next c [] e = absurd (cc)
step_copy_two block_comment next c [] e = absurd (ground arith)

Action-cases :
    (a : Action)
    → ((e : Error) × (a ≡ refuse e))
      ⊎ ((a ≡ placeholder) ⊎ (((s : State) × (a ≡ copy_one s)) ⊎ ((s : State) × (a ≡ copy_two s))))
Action-cases (refuse e) = inl (e, refl)
Action-cases placeholder = inr (inl refl)
Action-cases (copy_one s) = inr (inr (inl (s, refl)))
Action-cases (copy_two s) = inr (inr (inr (s, refl)))

-- What the loop makes of a text, before it is known which literals there are.
abbrev pub Outcome : ℕ → State → Text → Type 0
Outcome fuel state text =
    ((t : Template) × (last : State) × Sees fuel state text t last) ⊎ Refuses fuel state text

Outcome-char :
    (fuel c : ℕ) (state next : State) (rest : Text)
    → step state c rest ≡ copy_one next
    → Outcome fuel next rest
    → Outcome (suc fuel) state (c ∷ rest)
unfolding scan
Outcome-char fuel c state next rest e (inl (t, last, s)) =
    inl (char c t, last, Sees-char fuel c state next rest e s)
Outcome-char fuel c state next rest e (inr r) =
    inr (λ literals output n. rw (e, scan) (r literals (output ++ (c ∷ [])) n))

Outcome-two :
    (fuel c f : ℕ) (state next : State) (rest : Text)
    → step state c (f ∷ rest) ≡ copy_two next
    → Outcome fuel next rest
    → Outcome (suc fuel) state (c ∷ f ∷ rest)
unfolding scan
Outcome-two fuel c f state next rest e (inl (t, last, s)) =
    inl (char c (char f t), last, Sees-two fuel c f state next rest e s)
Outcome-two fuel c f state next rest e (inr r) =
    inr (λ literals output n. rw (e, scan) (r literals (output ++ (c ∷ f ∷ [])) n))

Outcome-hole :
    (fuel c : ℕ) (state : State) (rest : Text)
    → step state c rest ≡ placeholder
    → Outcome fuel state rest
    → Outcome (suc fuel) state (c ∷ rest)
unfolding scan
Outcome-hole fuel c state rest e (inl (t, last, s)) =
    inl (hole t, last, Sees-hole fuel c state rest e (step_placeholder state c rest e) s)
Outcome-hole fuel c state rest e (inr r) = inr refuses
  where
    refuses : Refuses (suc fuel) state (c ∷ rest)
    refuses [] output n = rw (e, scan) (too_many, refl)
    refuses (l ∷ ls) output n = rw (e, scan) (r ls (output ++ l) (n + 1))

Outcome-pair :
    (fuel c : ℕ) (state next : State) (rest : Text)
    → ((f : ℕ) × (rest' : Text) × (rest ≡ f ∷ rest'))
    → step state c rest ≡ copy_two next
    → Outcome fuel next (drop 1 rest)
    → Outcome (suc fuel) state (c ∷ rest)
Outcome-pair fuel c state next rest (f, rest', q) =
    subst
      (λ l.
        step state c l ≡ copy_two next
        → Outcome fuel next (drop 1 l)
        → Outcome (suc fuel) state (c ∷ l))
      (sym q) (Outcome-two fuel c f state next rest')

pub scan-Outcome :
    (fuel : ℕ) (state : State) (text : Text) → length text ≤ fuel → Outcome fuel state text
unfolding scan
scan-Outcome fuel state [] h = inl (end, state, Sees-end fuel state)
scan-Outcome zero state (c ∷ rest) h = absurd (omega arith)
scan-Outcome (suc fuel) state (c ∷ rest) h = elim (Action-cases (step state c rest)) [
  | inl (x, e) ↦ inr (λ literals output n. rw (e, scan) (x, refl))
  | inr (inl e) ↦ Outcome-hole fuel c state rest e (scan-Outcome fuel state rest (omega arith))
  | inr (inr (inl (next, e))) ↦
      Outcome-char fuel c state next rest e (scan-Outcome fuel next rest (omega arith))
  | inr (inr (inr (next, e))) ↦
      Outcome-pair fuel c state next rest (step_copy_two state next c rest e) e
        (scan-Outcome fuel next (drop 1 rest) (omega (arith, length-drop 1 rest)))
]
