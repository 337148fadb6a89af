-- ===== src/Base/Lists.antt =====
-- Lists measured and cut by native numbers, under the library's names, and the filter of a loop
-- that keeps what passes a Boolean test.
use Prim.Native.Nat.{ℕ, zero, suc, ◌+◌, ◌-◌, ◌≤◌, min}
use mathlib.Core.Path.{◌≡◌, refl, sym, ap, subst}
use mathlib.Core.Logic.{◌⊎◌, inl, inr}
use mathlib.Core.Bool.{Bool, true, false, not}
use mathlib.Core.List.{List, [], ◌∷◌, ◌++◌, map}
use native.Mathlib.Omega.{arith}
use auth_imp.Base.Tests.{if◌then◌else◌, Bool-cases}

-- No element, at any level.
pub data Empty {ℓ} : Type ℓ where

module _ {ℓ} {A : Type ℓ} where
  abbrev pub length : List A → ℕ
  length [] = 0
  length (x ∷ xs) = suc (length xs)

  abbrev pub take : ℕ → List A → List A
  take zero xs = []
  take (suc n) [] = []
  take (suc n) (x ∷ xs) = x ∷ take n xs

  abbrev pub drop : ℕ → List A → List A
  drop zero xs = xs
  drop (suc n) [] = []
  drop (suc n) (x ∷ xs) = drop n xs

  pub length-append : (xs ys : List A) → length (xs ++ ys) ≡ length xs + length ys
  length-append [] ys = omega arith
  length-append (x ∷ xs) ys = omega (arith, length-append xs ys)

  pub take-append-drop : (n : ℕ) (xs : List A) → take n xs ++ drop n xs ≡ xs
  take-append-drop zero xs = refl
  take-append-drop (suc n) [] = refl
  take-append-drop (suc n) (x ∷ xs) = rw (take-append-drop n xs)

  pub length-take : (n : ℕ) (xs : List A) → length (take n xs) ≡ min n (length xs)
  length-take zero xs = omega arith
  length-take (suc n) [] = omega arith
  length-take (suc n) (x ∷ xs) = omega (arith, length-take n xs)

  pub length-drop : (n : ℕ) (xs : List A) → length (drop n xs) ≡ length xs - n
  length-drop zero xs = omega arith
  length-drop (suc n) [] = omega arith
  length-drop (suc n) (x ∷ xs) = omega (arith, length-drop n xs)

  pub drop_all : (n : ℕ) (xs : List A) → length xs ≤ n → drop n xs ≡ []
  drop_all zero [] h = refl
  drop_all zero (x ∷ xs) h = absurd (omega arith)
  drop_all (suc n) [] h = refl
  drop_all (suc n) (x ∷ xs) h = drop_all n xs (omega arith)

  pub take-nil : (n : ℕ) → take n [] ≡ []
  take-nil zero = refl
  take-nil (suc n) = refl

  pub take_all : (n : ℕ) (xs : List A) → length xs ≤ n → take n xs ≡ xs
  take_all zero [] h = refl
  take_all zero (x ∷ xs) h = absurd (omega arith)
  take_all (suc n) [] h = refl
  take_all (suc n) (x ∷ xs) h = ap (◌∷◌ x) (take_all n xs (omega arith))

  -- `for _, x := range xs { if p(x) { kept = append(kept, x) } }`
  abbrev pub select : (A → Bool) → List A → List A
  select p [] = []
  select p (x ∷ xs) = let kept = select p xs in if p x then x ∷ kept else kept

  -- Whether some element passes the test.
  abbrev pub any : (A → Bool) → List A → Bool
  any p [] = false
  any p (x ∷ xs) = let found = any p xs in if p x then true else found

  -- A predicate that holds of every element.
  abbrev pub All {κ} : (A → Type κ) → List A → Type κ
  All P [] = Unit {κ}
  All P (x ∷ xs) = P x × All P xs

  pub select-append :
      (p : A → Bool) (xs ys : List A) → select p (xs ++ ys) ≡ select p xs ++ select p ys
  select-append p [] ys = refl
  select-append p (x ∷ xs) ys = ground (arith, select-append p xs ys)

  -- Two filters of which the second lets pass all that the first does.
  pub select-select :
      (p q : A → Bool) (xs : List A)
      → ((x : A) → p x ≡ true → q x ≡ true)
      → select p (select q xs) ≡ select p xs
  select-select p q [] h = refl
  select-select p q (x ∷ xs) h = ground (arith, h x, select-select p q xs h)

  -- A filter after one that lets pass nothing it would keep.
  pub select-select_none :
      (p q : A → Bool) (xs : List A)
      → ((x : A) → p x ≡ true → q x ≡ false)
      → select p (select q xs) ≡ []
  select-select_none p q [] h = refl
  select-select_none p q (x ∷ xs) h = ground (arith, h x, select-select_none p q xs h)

  pub any-snoc : (p : A → Bool) (xs : List A) (x : A) → p x ≡ true → any p (xs ++ x ∷ []) ≡ true
  any-snoc p [] x h = rw h
  any-snoc p (y ∷ xs) x h = ground (arith, any-snoc p xs x h)

  pub any_none : (p : A → Bool) (xs : List A) → select p xs ≡ [] → any p xs ≡ false
  any_none p [] h = refl
  any_none p (x ∷ xs) h = ground (arith, any_none p xs)

  -- Where nothing passes the test, all that fails it is everything.
  pub select-not_none :
      (p : A → Bool) (xs : List A) → any p xs ≡ false → select (λ x. not (p x)) xs ≡ xs
  select-not_none p [] h = refl
  select-not_none p (x ∷ xs) h = ground (arith, select-not_none p xs)

  pub select_none : (p : A → Bool) (xs : List A) → any p xs ≡ false → select p xs ≡ []
  select_none p [] h = refl
  select_none p (x ∷ xs) h = ground (arith, select_none p xs)

  -- Membership, with the place where the element stands.
  abbrev pub In : A → List A → Type ℓ
  In a [] = Empty
  In a (x ∷ xs) = (a ≡ x) ⊎ In a xs

  pub In-select : (p : A → Bool) (a : A) (xs : List A) → In a xs → p a ≡ true → In a (select p xs)
  In-select p a [] m h = elim m [ ]
  In-select p a (x ∷ xs) (inl e) h = let h' = subst (λ y. p y ≡ true) e h in rw h' (inl e)
  In-select p a (x ∷ xs) (inr m) h = elim (Bool-cases (p x)) [
    | inl t ↦ rw t (inr (In-select p a xs m h))
    | inr f ↦ rw f (In-select p a xs m h)
  ]

  In-of-select-kept :
      (p : A → Bool) (a x : A) (xs : List A)
      → (In a (select p xs) → In a xs × (p a ≡ true))
      → p x ≡ true
      → In a (x ∷ select p xs)
      → In a (x ∷ xs) × (p a ≡ true)
  In-of-select-kept p a x xs ih t (inl e) = (inl e, subst (λ y. p y ≡ true) (sym e) t)
  In-of-select-kept p a x xs ih t (inr m) = (inr (ih m).0, (ih m).1)

  pub In-of-select :
      (p : A → Bool) (a : A) (xs : List A) → In a (select p xs) → In a xs × (p a ≡ true)
  In-of-select p a [] m = elim m [ ]
  In-of-select p a (x ∷ xs) m = elim (Bool-cases (p x)) [
    | inl t ↦ In-of-select-kept p a x xs (In-of-select p a xs) t (rw t at m)
    | inr f ↦ let r = In-of-select p a xs (rw f at m) in (inr r.0, r.1)
  ]

  In-snoc-shift : (a b x : A) (xs : List A) → In a xs ⊎ (a ≡ b) → In a (x ∷ xs) ⊎ (a ≡ b)
  In-snoc-shift a b x xs (inl m) = inl (inr m)
  In-snoc-shift a b x xs (inr e) = inr e

  pub In-snoc : (a b : A) (xs : List A) → In a (xs ++ b ∷ []) → In a xs ⊎ (a ≡ b)
  In-snoc a b [] (inl e) = inr e
  In-snoc a b [] (inr m) = elim m [ ]
  In-snoc a b (x ∷ xs) (inl e) = inl (inl e)
  In-snoc a b (x ∷ xs) (inr m) = In-snoc-shift a b x xs (In-snoc a b xs m)

  pub In-snoc_self : (a : A) (xs : List A) → In a (xs ++ a ∷ [])
  In-snoc_self a [] = inl refl
  In-snoc_self a (x ∷ xs) = inr (In-snoc_self a xs)

  pub In-snoc_old : (a b : A) (xs : List A) → In a xs → In a (xs ++ b ∷ [])
  In-snoc_old a b [] m = elim m [ ]
  In-snoc_old a b (x ∷ xs) (inl e) = inl e
  In-snoc_old a b (x ∷ xs) (inr m) = inr (In-snoc_old a b xs m)

pub length-map {ℓ κ} :
    {A : Type ℓ} {B : Type κ} (f : A → B) (xs : List A) → length (map f xs) ≡ length xs
length-map f [] = refl
length-map f (x ∷ xs) = ap suc (length-map f xs)
