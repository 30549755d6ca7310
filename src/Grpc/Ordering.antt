-- ===== src/Grpc/Ordering.antt =====
-- The order in which the interceptors of a server run.
use servion.Base.{
  Bool, true, false, not, inl, inr, ◌&&◌, List, [], ◌∷◌, ◌≡◌, refl, ◌∙◌, All, select, Bool-cases,
  arith,
}
use servion.Base.Int.{ℤ, pos, negsuc, below}
use servion.Grpc.ServerFactory.{Interceptor, insert, sort_stable}

-- a <= b
abbrev not_below : ℤ → ℤ → Bool
not_below b a = not (below b a)

below_trans : (a b c : ℤ) → below b a ≡ false → below c b ≡ false → below c a ≡ false
below_trans (pos a) (pos b) (pos c) e f = ground arith
below_trans (pos a) (pos b) (negsuc c) e f = cc
below_trans (pos a) (negsuc b) c e f = cc
below_trans (negsuc a) (pos b) (pos c) e f = refl
below_trans (negsuc a) (pos b) (negsuc c) e f = cc
below_trans (negsuc a) (negsuc b) (pos c) e f = refl
below_trans (negsuc a) (negsuc b) (negsuc c) e f = ground arith

below_asym : (a b : ℤ) → below a b ≡ true → below b a ≡ false
below_asym (pos a) (pos b) e = ground arith
below_asym (pos a) (negsuc b) e = cc
below_asym (negsuc a) (pos b) e = refl
below_asym (negsuc a) (negsuc b) e = ground arith

-- Two orders that are the same number.
abbrev pub same_order : ℤ → ℤ → Bool
same_order a b = not (below a b) && not (below b a)

not_same_below : (o x y : ℤ) → below y x ≡ true → same_order o x ≡ true → same_order o y ≡ false
not_same_below o x y e s = elim (Bool-cases (below y o)) [
  | inl b ↦ ground arith
  | inr n ↦ ground (arith, below_trans o y x)
]

module _ {F : Type 0} where
  abbrev pub has_order : ℤ → Interceptor F → Bool
  has_order o x = same_order o x.bean_order

  -- No interceptor has a lower order than one before it.
  abbrev pub Ordered : List (Interceptor F) → Type 0
  Ordered [] = Unit
  Ordered (x ∷ xs) = All (λ y. below y.bean_order x.bean_order ≡ false) xs × Ordered xs

  -- One list is the other in ascending order, where those of one order keep their places.
  abbrev pub SortedFrom : List (Interceptor F) → List (Interceptor F) → Type 0
  SortedFrom list sorted =
      Ordered sorted × ((o : ℤ) → select (has_order o) sorted ≡ select (has_order o) list)

  All-insert :
      (P : Interceptor F → Type 0) (x : Interceptor F) (ys : List (Interceptor F))
      → P x
      → All P ys
      → All P (insert x ys)
  unfolding insert
  All-insert P x [] p h = (p, tt)
  All-insert P x (y ∷ ys) p (q, h) = elim (Bool-cases (below y.bean_order x.bean_order)) [
    | inl e ↦ rw e (q, All-insert P x ys p h)
    | inr e ↦ rw e (p, (q, h))
  ]

  All-later :
      (x y : Interceptor F) (ys : List (Interceptor F))
      → below y.bean_order x.bean_order ≡ false
      → All (λ z. below z.bean_order y.bean_order ≡ false) ys
      → All (λ z. below z.bean_order x.bean_order ≡ false) ys
  All-later x y [] e h = tt
  All-later x y (z ∷ ys) e (g, h) =
      (below_trans x.bean_order y.bean_order z.bean_order e g, All-later x y ys e h)

  Ordered-insert :
      (x : Interceptor F) (ys : List (Interceptor F)) → Ordered ys → Ordered (insert x ys)
  unfolding insert
  Ordered-insert x [] h = (tt, tt)
  Ordered-insert x (y ∷ ys) (a, h) = elim (Bool-cases (below y.bean_order x.bean_order)) [
    | inl e ↦ rw e (
      All-insert (λ z. below z.bean_order y.bean_order ≡ false) x ys
          (below_asym y.bean_order x.bean_order e) a,
      Ordered-insert x ys h,
    )
    | inr e ↦ rw e ((e, All-later x y ys e a), (a, h))
  ]

  select-insert :
      (o : ℤ) (x : Interceptor F) (ys : List (Interceptor F))
      → select (has_order o) (insert x ys) ≡ select (has_order o) (x ∷ ys)
  unfolding insert
  select-insert o x [] = refl
  select-insert o x (y ∷ ys) = elim (Bool-cases (below y.bean_order x.bean_order)) [
    | inl e ↦ rw e (elim (Bool-cases (has_order o x)) [
      | inl s ↦
          let n = not_same_below o x.bean_order y.bean_order e s in
          rw (n, s) (rw s at (select-insert o x ys))
      | inr s ↦ rw s (rw (rw s at (select-insert o x ys)) refl)
    ])
    | inr e ↦ rw e refl
  ]

  pub sort_stable-SortedFrom : (list : List (Interceptor F)) → SortedFrom list (sort_stable list)
  unfolding sort_stable
  sort_stable-SortedFrom [] = (tt, λ o. refl)
  sort_stable-SortedFrom (x ∷ xs) =
      let (a, stable) = sort_stable-SortedFrom xs in
      (
        Ordered-insert x (sort_stable xs) a,
        λ o. select-insert o x (sort_stable xs) ∙ rw (stable o) refl,
      )
