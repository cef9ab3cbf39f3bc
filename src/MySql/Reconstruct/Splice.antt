-- ===== src/MySql/Reconstruct/Splice.antt =====
-- `reconstruct_stmt_execute_sql` as the filling of a template.
use ohmydb_proxy.Prelude.{
  ==_iff, Bool-cases, Error, List, Text, [], append-nil, arith, drop, drop-length_append, err,
  false, inl, inr, length, length-drop, length-take, ltb, ltb-false→le, ltb→lt, ok, refl, take,
  take-append-drop, take-length_append, true, ℕ, ◌!=◌, ◌+◌, ◌<◌, ◌==◌, ◌∷◌, ◌≡◌, ◌≢◌, ◌≤◌, ◌⊎◌,
}
use ohmydb_proxy.MySql.Reconstruct.{State, finish, is_open, reconstruct, scan, sql, too_many}
use ohmydb_proxy.MySql.Reconstruct.Template.{Sees, Template, fill, holes, scanned, source}
use ohmydb_proxy.MySql.Reconstruct.Outcomes.{scan-Outcome}

-- What the loop ends with, for enough literals.
scan_filled :
    (t : Template) (last : State) (tmpl : Text) (literals : List Text)
    → Sees (length tmpl) sql tmpl t last
    → holes t ≤ length literals
    → scan (length tmpl) sql tmpl literals [] 0
      ≡ scanned last (drop (holes t) literals) (fill t (take (holes t) literals)) (0 + holes t)
scan_filled t last tmpl literals s h = rw take-append-drop at (
    s.fills (take (holes t) literals) (drop (holes t) literals) [] 0
      (omega (arith, length-take (holes t) literals)))

finish_leftover :
    (last : State) (left : List Text) (output : Text) (replacements count : ℕ)
    → is_open last ≡ false
    → 0 < length left
    → (e : Error) × (finish count
          (record { state = last; literals = left; output = output; replacements = replacements })
        ≡ err e)
unfolding finish
finish_leftover last [] output replacements count o h = elim h [ ]
finish_leftover last (l ∷ ls) output replacements count o h = rw o (_, refl)

module _ (t : Template) (last : State) (tmpl : Text) (s : Sees (length tmpl) sql tmpl t last) where
  reconstruct_open :
      (literals : List Text)
      → is_open last ≡ true
      → (e : Error) × (reconstruct tmpl literals ≡ err e)
  unfolding reconstruct
  reconstruct_open literals o = elim (Bool-cases (ltb (length literals) (holes t))) [
    | inl few ↦ (too_many, rw (s.starves literals [] 0 (ltb→lt _ _ few)))
    | inr enough ↦ rw (scan_filled t last tmpl literals s (ltb-false→le _ _ enough), o) (_, refl)
  ]

  reconstruct_exact :
      (literals : List Text)
      → is_open last ≡ false
      → length literals ≡ holes t
      → reconstruct tmpl literals ≡ ok (fill t literals)
  unfolding reconstruct
  reconstruct_exact literals o h =
      let none_left : drop (length literals) literals ≡ [] =
        rw append-nil at (drop-length_append literals []) in
      let all_taken : take (length literals) literals ≡ literals =
        rw append-nil at (take-length_append literals []) in
      let counted : (0 + length literals != length literals) ≡ false = ground arith in
      rw (scan_filled t last tmpl literals s (omega arith), o, ← h, none_left, all_taken, counted)

  reconstruct_miscounted :
      (literals : List Text)
      → is_open last ≡ false
      → length literals ≢ holes t
      → (e : Error) × (reconstruct tmpl literals ≡ err e)
  unfolding reconstruct
  reconstruct_miscounted literals o h = elim (Bool-cases (ltb (length literals) (holes t))) [
    | inl few ↦ (too_many, rw (s.starves literals [] 0 (ltb→lt _ _ few)))
    | inr enough ↦
        let le : holes t ≤ length literals = ltb-false→le (length literals) (holes t) enough in
        rw (scan_filled t last tmpl literals s le) (
          finish_leftover last (drop (holes t) literals) (fill t (take (holes t) literals))
            (0 + holes t) (length literals) o (omega (arith, length-drop (holes t) literals)))
  ]

reconstruct_template :
    (tmpl : Text)
    → ((literals : List Text) → (e : Error) × (reconstruct tmpl literals ≡ err e))
      ⊎ ((t : Template) × (source t ≡ tmpl)
          × ((literals : List Text)
              → length literals ≡ holes t
              → reconstruct tmpl literals ≡ ok (fill t literals))
          × ((literals : List Text)
              → length literals ≢ holes t
              → (e : Error) × (reconstruct tmpl literals ≡ err e)))
reconstruct_template tmpl = elim (scan-Outcome (length tmpl) sql tmpl (omega arith)) [
  | inr r ↦ inl (λ literals. refused literals (r literals [] 0))
  | inl (t, last, s) ↦ elim (Bool-cases (is_open last)) [
    | inl o ↦ inl (λ literals. reconstruct_open t last tmpl s literals o)
    | inr o ↦ inr (
      t,
      s.reads,
      (λ literals h. reconstruct_exact t last tmpl s literals o h),
      (λ literals h. reconstruct_miscounted t last tmpl s literals o h),
    )
  ]
]
  where
    refused :
        (literals : List Text)
        → ((e : Error) × (scan (length tmpl) sql tmpl literals [] 0 ≡ err e))
        → (e : Error) × (reconstruct tmpl literals ≡ err e)
    refused literals (e, q) = (e, unfold reconstruct in rw q)

-- Every list of literals is refused, or the text is the source of a template that as many literals
-- as it has holes fill, and that any other number of literals fails on.
abbrev pub HasTemplate : Text → Type 0
HasTemplate tmpl =
    ((literals : List Text) → (e : Error) × (reconstruct tmpl literals ≡ err e))
    ⊎ ((t : Template) × (source t ≡ tmpl)
        × ((literals : List Text)
            → ((length literals ≡ holes t) × (reconstruct tmpl literals ≡ ok (fill t literals)))
              ⊎ ((length literals ≢ holes t)
                  × ((e : Error) × (reconstruct tmpl literals ≡ err e)))))

-- The prepared text alone decides which of its question marks are placeholders: it is either
-- refused with every list of literals, or it is the source of a template that every list of as
-- many literals as there are holes fills, and that any other number of literals fails on.
pub reconstruct-Template : (tmpl : Text) → HasTemplate tmpl
reconstruct-Template tmpl = elim (reconstruct_template tmpl) [
  | inl r ↦ inl r
  | inr (t, s, filled, refused) ↦ inr (
    t,
    s,
    λ literals. elim (Bool-cases (length literals == holes t)) [
      | inl same ↦
          let e : length literals ≡ holes t = (==_iff _ _).0 same in inl (e, filled literals e)
      | inr differs ↦
          let d : length literals ≢ holes t = ground (arith, differs) in inr (d, refused literals d)
    ],
  )
]
