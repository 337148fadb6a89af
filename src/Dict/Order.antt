-- ===== src/Dict/Order.antt =====
-- The order in which a loop over a map meets its values. Go leaves it open, and it may change
-- from one loop to the next: an operation that loops takes the order of its run.
use mathlib.Core.List.{Permᴰ}
use auth_imp.Base.{Bool, ◌≡◌, sym, ap, ◌∙◌, inl, inr, List, arith, length, select, In}

abbrev pub Order : Type 0 → Type 0
Order V = List V → List V

-- Each value is met once.
abbrev pub IsOrder : {V : Type 0} → Order V → Type 0
IsOrder {V} order = (xs : List V) → Permᴰ (order xs) xs

pub length-perm : {V : Type 0} {xs ys : List V} → Permᴰ xs ys → length xs ≡ length ys
length-perm Permᴰ.nil = omega arith
length-perm (Permᴰ.cons e p) = omega (arith, length-perm p)
length-perm (Permᴰ.swap e f) = omega arith
length-perm (Permᴰ.trans p q) = length-perm p ∙ length-perm q

pub In-perm : {V : Type 0} (a : V) {xs ys : List V} → Permᴰ xs ys → In a xs → In a ys
In-perm a Permᴰ.nil m = m
In-perm a (Permᴰ.cons e p) (inl q) = inl (q ∙ e)
In-perm a (Permᴰ.cons e p) (inr m) = inr (In-perm a p m)
In-perm a (Permᴰ.swap e f) (inl q) = inr (inl (q ∙ e))
In-perm a (Permᴰ.swap e f) (inr (inl q)) = inl (q ∙ f)
In-perm a (Permᴰ.swap e f) (inr (inr m)) = inr (inr m)
In-perm a (Permᴰ.trans p q) m = In-perm a q (In-perm a p m)

pub In-perm_inv : {V : Type 0} (a : V) {xs ys : List V} → Permᴰ xs ys → In a ys → In a xs
In-perm_inv a Permᴰ.nil m = m
In-perm_inv a (Permᴰ.cons e p) (inl q) = inl (q ∙ sym e)
In-perm_inv a (Permᴰ.cons e p) (inr m) = inr (In-perm_inv a p m)
In-perm_inv a (Permᴰ.swap e f) (inl q) = inr (inl (q ∙ sym f))
In-perm_inv a (Permᴰ.swap e f) (inr (inl q)) = inl (q ∙ sym e)
In-perm_inv a (Permᴰ.swap e f) (inr (inr m)) = inr (inr m)
In-perm_inv a (Permᴰ.trans p q) m = In-perm_inv a p (In-perm_inv a q m)

-- As many pass a test, whatever the order.
pub length-select-perm :
    {V : Type 0} (p : V → Bool) {xs ys : List V}
    → Permᴰ xs ys
    → length (select p xs) ≡ length (select p ys)
length-select-perm p Permᴰ.nil = omega arith
length-select-perm p (Permᴰ.cons e q) = ground (arith, ap p e, length-select-perm p q)
length-select-perm p (Permᴰ.swap e f) = ground (arith, ap p e, ap p f)
length-select-perm p (Permᴰ.trans q r) = length-select-perm p q ∙ length-select-perm p r
