-- ===== src/Prelude/Dict.antt =====
-- A Python dictionary with texts for keys, in the order of insertion.
use ohmydb_proxy.Prelude.{
  Bool, Bool-cases, List, Option, Text, [], arith, false, if◌then◌else◌, inl, inr, is_some, length,
  none, refl, some, text_eq, text_eq_refl, text_eq→eq, ℕ, ◌+◌, ◌∷◌, ◌≡◌, ◌≢◌, ◌≤◌,
}

module _ {ℓ} where
  abbrev pub Dict : Type ℓ → Type ℓ
  Dict V = List (Text × V)

module _ {ℓ} {V : Type ℓ} where
  -- d.get(key)
  unfoldable pub lookup : Text → Dict V → Option V
  lookup key [] = none
  lookup key ((k, v) ∷ rest) = if text_eq k key then some v else lookup key rest

  -- d[key] = value
  unfoldable pub insert : Text → V → Dict V → Dict V
  insert key value [] = (key, value) ∷ []
  insert key value ((k, v) ∷ rest) =
      if text_eq k key then (k, value) ∷ rest else (k, v) ∷ insert key value rest

  -- d.pop(key, None)
  unfoldable pub remove : Text → Dict V → Dict V
  remove key [] = []
  remove key ((k, v) ∷ rest) = if text_eq k key then rest else (k, v) ∷ remove key rest

  -- {k: v for k, v in d.items() if test(v)}
  unfoldable pub keep : (V → Bool) → Dict V → Dict V
  keep test [] = []
  keep test ((k, v) ∷ rest) = if test v then (k, v) ∷ keep test rest else keep test rest

  -- sum(size(k, v) for k, v in d.items())
  unfoldable pub total : (Text → V → ℕ) → Dict V → ℕ
  total size [] = 0
  total size ((k, v) ∷ rest) = size k v + total size rest

  -- What a known key takes.
  abbrev pub size_of : (V → ℕ) → Option V → ℕ
  size_of size none = 0
  size_of size (some v) = size v

  -- No key stands twice.
  abbrev pub IsDistinct : Dict V → Type ℓ
  IsDistinct [] = Unit {ℓ}
  IsDistinct ((k, v) ∷ rest) = (lookup k rest ≡ none) × IsDistinct rest

text_eq_flip : (s t : Text) → text_eq s t ≡ false → text_eq t s ≡ false
text_eq_flip s t h = elim (Bool-cases (text_eq t s)) [
  | inl e ↦ cc (rw (text_eq→eq t s e, text_eq_refl s) at h)
  | inr e ↦ e
]

module _ {ℓ} {V : Type ℓ} where
  pub lookup-insert_self : (key : Text) (v : V) (d : Dict V) → lookup key (insert key v d) ≡ some v
  unfolding lookup insert
  lookup-insert_self key v [] = rw (text_eq_refl key) refl
  lookup-insert_self key v ((k, w) ∷ rest) = elim (Bool-cases (text_eq k key)) [
    | inl e ↦ rw e (rw e refl)
    | inr e ↦ rw e (rw e (lookup-insert_self key v rest))
  ]

  pub lookup-insert_other :
      (key other : Text) (v : V) (d : Dict V)
      → key ≢ other
      → lookup other (insert key v d) ≡ lookup other d
  unfolding lookup insert
  lookup-insert_other key other v [] h = ground (arith, text_eq→eq key other)
  lookup-insert_other key other v ((k, w) ∷ rest) h =
      ground (arith, text_eq→eq k key, text_eq→eq k other, lookup-insert_other key other v rest h)

  pub length-insert :
      (key : Text) (v : V) (d : Dict V)
      → length (insert key v d) ≡ length d + (if is_some (lookup key d) then 0 else 1)
  unfolding lookup insert
  length-insert key v [] = refl
  length-insert key v ((k, w) ∷ rest) = ground (arith, length-insert key v rest)

  pub length-remove : (key : Text) (d : Dict V) → length (remove key d) ≤ length d
  unfolding remove
  length-remove key [] = omega arith
  length-remove key ((k, w) ∷ rest) = ground (arith, length-remove key rest)

  pub length-keep : (test : V → Bool) (d : Dict V) → length (keep test d) ≤ length d
  unfolding keep
  length-keep test [] = omega arith
  length-keep test ((k, w) ∷ rest) = ground (arith, length-keep test rest)

  -- A value replaces the one of the same key in every sum over the entries.
  pub total-insert :
      (size : Text → V → ℕ) (key : Text) (v : V) (d : Dict V)
      → total size (insert key v d) + size_of (size key) (lookup key d) ≡ total size d + size key v
  unfolding lookup insert total
  total-insert size key v [] = omega arith
  total-insert size key v ((k, w) ∷ rest) = elim (Bool-cases (text_eq k key)) [
    | inl e ↦ rw (e, text_eq→eq k key e) (omega arith)
    | inr e ↦ rw e (omega (arith, total-insert size key v rest))
  ]

  pub total-remove :
      (size : Text → V → ℕ) (key : Text) (d : Dict V) → total size (remove key d) ≤ total size d
  unfolding remove total
  total-remove size key [] = omega arith
  total-remove size key ((k, w) ∷ rest) = ground (arith, total-remove size key rest)

  pub total-keep :
      (size : Text → V → ℕ) (test : V → Bool) (d : Dict V) → total size (keep test d) ≤ total size d
  unfolding keep total
  total-keep size test [] = omega arith
  total-keep size test ((k, w) ∷ rest) = ground (arith, total-keep size test rest)

  pub size_of-lookup :
      (size : Text → V → ℕ) (key : Text) (d : Dict V)
      → size_of (size key) (lookup key d) ≤ total size d
  unfolding lookup total
  size_of-lookup size key [] = omega arith
  size_of-lookup size key ((k, w) ∷ rest) = elim (Bool-cases (text_eq k key)) [
    | inl e ↦ rw (e, text_eq→eq k key e) (omega arith)
    | inr e ↦ rw e (omega (arith, size_of-lookup size key rest))
  ]

  insert-none :
      (key other : Text) (v : V) (d : Dict V)
      → text_eq key other ≡ false
      → lookup other d ≡ none
      → lookup other (insert key v d) ≡ none
  unfolding lookup insert
  insert-none key other v [] h e = rw h refl
  insert-none key other v ((k, w) ∷ rest) h e =
      ground (arith, text_eq→eq k key, insert-none key other v rest h)

  pub insert-IsDistinct :
      (key : Text) (v : V) (d : Dict V) → IsDistinct d → IsDistinct (insert key v d)
  unfolding insert
  insert-IsDistinct key v [] h = unfold lookup in (refl, tt)
  insert-IsDistinct key v ((k, w) ∷ rest) h = elim (Bool-cases (text_eq k key)) [
    | inl e ↦ rw e h
    | inr e ↦
        rw e (insert-none key k v rest (text_eq_flip k key e) h.0, insert-IsDistinct key v rest h.1)
  ]

  remove-none :
      (key other : Text) (d : Dict V) → lookup other d ≡ none → lookup other (remove key d) ≡ none
  unfolding lookup remove
  remove-none key other [] e = refl
  remove-none key other ((k, w) ∷ rest) e = ground (arith, remove-none key other rest)

  pub remove-IsDistinct : (key : Text) (d : Dict V) → IsDistinct d → IsDistinct (remove key d)
  unfolding remove
  remove-IsDistinct key [] h = h
  remove-IsDistinct key ((k, w) ∷ rest) h = elim (Bool-cases (text_eq k key)) [
    | inl e ↦ rw e h.1
    | inr e ↦ rw e (remove-none key k rest h.0, remove-IsDistinct key rest h.1)
  ]

  keep-none :
      (test : V → Bool) (other : Text) (d : Dict V)
      → lookup other d ≡ none
      → lookup other (keep test d) ≡ none
  unfolding lookup keep
  keep-none test other [] e = refl
  keep-none test other ((k, w) ∷ rest) e = ground (arith, keep-none test other rest)

  pub keep-IsDistinct : (test : V → Bool) (d : Dict V) → IsDistinct d → IsDistinct (keep test d)
  unfolding keep
  keep-IsDistinct test [] h = h
  keep-IsDistinct test ((k, w) ∷ rest) h = elim (Bool-cases (test w)) [
    | inl e ↦ rw e (keep-none test k rest h.0, keep-IsDistinct test rest h.1)
    | inr e ↦ rw e (keep-IsDistinct test rest h.1)
  ]

  -- What the operations do to every lookup.
  pub lookup-insert :
      (key other : Text) (v : V) (d : Dict V)
      → lookup other (insert key v d) ≡ (if text_eq key other then some v else lookup other d)
  lookup-insert key other v d = elim (Bool-cases (text_eq key other)) [
    | inl e ↦ rw (e, ← text_eq→eq key other e) (lookup-insert_self key v d)
    | inr e ↦ rw e (lookup-insert_other key other v d (λ p. cc (rw (p, text_eq_refl other) at e)))
  ]

  pub lookup-remove :
      (key other : Text) (d : Dict V)
      → IsDistinct d
      → lookup other (remove key d) ≡ (if text_eq key other then none else lookup other d)
  unfolding lookup remove
  lookup-remove key other [] h = ground arith
  lookup-remove key other ((k, w) ∷ rest) h = elim (Bool-cases (text_eq k key)) [
    | inl e ↦
        rw (e, ← text_eq→eq k key e)
          (elim (Bool-cases (text_eq k other)) [
            | inl f ↦ rw (f, ← text_eq→eq k other f) h.0
            | inr f ↦ rw f refl
          ])
    | inr e ↦ elim (Bool-cases (text_eq k other)) [
      | inl f ↦ rw (e, f, ← text_eq→eq k other f, text_eq_flip k key e) refl
      | inr f ↦ rw (e, f) (lookup-remove key other rest h.1)
    ]
  ]

  abbrev pub filtered : (V → Bool) → Option V → Option V
  filtered test none = none
  filtered test (some v) = if test v then some v else none

  pub lookup-keep :
      (test : V → Bool) (other : Text) (d : Dict V)
      → IsDistinct d
      → lookup other (keep test d) ≡ filtered test (lookup other d)
  unfolding lookup keep
  lookup-keep test other [] h = refl
  lookup-keep test other ((k, w) ∷ rest) h = elim (Bool-cases (test w)) [
    | inl e ↦ elim (Bool-cases (text_eq k other)) [
      | inl f ↦ rw (e, f, e) refl
      | inr f ↦ rw (e, f) (lookup-keep test other rest h.1)
    ]
    | inr e ↦ elim (Bool-cases (text_eq k other)) [
      | inl f ↦ rw (e, f, e) (keep-none test other rest (rw (← text_eq→eq k other f) h.0))
      | inr f ↦ rw (e, f) (lookup-keep test other rest h.1)
    ]
  ]
