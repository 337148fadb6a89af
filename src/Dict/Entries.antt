-- ===== src/Dict/Entries.antt =====
-- The pairs behind `Dict`.
use auth_imp.Base.{
  String, ◌≡◌, sym, ap, inl, inr, Option, none, some, List, [], ◌∷◌, arith, ◌==◌, eq_iff, eq_refl,
  text_cases, if◌then◌else◌, In,
}

abbrev pub Pairs {ℓ} : Type ℓ → Type ℓ
Pairs V = List (String × V)

module _ {ℓ} {V : Type ℓ} where
  -- What the first pair with the key holds.
  unfoldable pub value_at : Pairs V → String → Option V
  value_at [] key = none
  value_at (p ∷ ps) key = let behind = value_at ps key in if p.0 == key then some p.1 else behind

  -- The pairs with another key.
  unfoldable pub others : Pairs V → String → Pairs V
  others [] key = []
  others (p ∷ ps) key = if p.0 == key then others ps key else p ∷ others ps key

  -- No key stands twice.
  abbrev pub IsDistinct : Pairs V → Type ℓ
  IsDistinct [] = Unit
  IsDistinct (p ∷ ps) = (value_at ps p.0 ≡ none) × IsDistinct ps

  unfoldable pub held : Pairs V → List V
  held [] = []
  held (p ∷ ps) = p.1 ∷ held ps

  pub value_at-others :
      (ps : Pairs V) (gone key : String)
      → value_at (others ps gone) key ≡ (if gone == key then none else value_at ps key)
  unfolding value_at others
  value_at-others [] gone key = ground arith
  value_at-others (p ∷ ps) gone key =
      ground (arith, value_at-others ps gone key, eq_iff p.0 gone, eq_iff p.0 key, eq_iff gone key)

  pub others-IsDistinct :
      (ps : Pairs V) (gone : String) → IsDistinct ps → IsDistinct (others ps gone)
  unfolding others
  others-IsDistinct [] gone h = tt
  others-IsDistinct (p ∷ ps) gone h =
      ground (arith, others-IsDistinct ps gone h.1, value_at-others ps gone p.0)

  pub value_at-In :
      (ps : Pairs V) (key : String) (v : V) → value_at ps key ≡ some v → In v (held ps)
  unfolding value_at held
  value_at-In [] key v h = absurd (ground arith)
  value_at-In (p ∷ ps) key v h = elim (text_cases p.0 key) [
    | inl e ↦ inl (ground (arith, h, e.0))
    | inr e ↦ inr (value_at-In ps key v (rw e.0 at h))
  ]

  -- A pair that stands further back has another key, since no key stands twice.
  value_at-behind :
      (p : String × V) (ps : Pairs V) (v : V)
      → value_at ps p.0 ≡ none
      → (key : String) × (value_at ps key ≡ some v)
      → (key : String) × (value_at (p ∷ ps) key ≡ some v)
  unfolding value_at
  value_at-behind p ps v fresh (key, e) = (key, ground (arith, eq_iff p.0 key))

  pub In-value_at :
      (ps : Pairs V) (v : V)
      → IsDistinct ps
      → In v (held ps)
      → (key : String) × (value_at ps key ≡ some v)
  unfolding value_at held
  In-value_at [] v h m = elim m [ ]
  In-value_at (p ∷ ps) v h (inl e) = (p.0, rw eq_refl (ap some (sym e)))
  In-value_at (p ∷ ps) v h (inr m) = value_at-behind p ps v h.0 (In-value_at ps v h.1 m)
