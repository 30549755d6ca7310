-- ===== src/Serving/Changes.antt =====
-- The servers of the group when one of them changes.
use servion.Base.{Bool, true, false, List, [], ◌∷◌, ◌≡◌, refl, any, All, arith}
use servion.Serving.{Slot, Change, here, there, ChangeFirst, first, later}

module _ {test : Slot → Bool} {f : Slot → Slot} where
  pub ChangeFirst-Change : {xs ys : List Slot} → ChangeFirst test f xs ys → Change test f xs ys
  ChangeFirst-Change (first x xs e) = here x xs e
  ChangeFirst-Change (later x e c) = there x (ChangeFirst-Change c)

  -- A changed slot passed the test.
  pub Change-any : {xs ys : List Slot} → Change test f xs ys → any test xs ≡ true
  Change-any (here x xs e) = ground arith
  Change-any (there x c) = ground (arith, Change-any c)

  pub any-Change :
      (p : Slot → Bool)
      → ((x : Slot) → p (f x) ≡ p x)
      → {xs ys : List Slot} → Change test f xs ys
      → any p ys ≡ any p xs
  any-Change p h (here x xs e) = rw (h x)
  any-Change p h (there x c) = rw (any-Change p h c)

  pub All-Change {κ} :
      (P : Slot → Type κ)
      → ((x : Slot) → P x → P (f x))
      → {xs ys : List Slot} → Change test f xs ys
      → All P xs
      → All P ys
  All-Change P h (here x xs e) (a, rest) = (h x a, rest)
  All-Change P h (there x c) (a, rest) = (a, All-Change P h c rest)

pub any_weaker :
    (p q : Slot → Bool)
    → ((x : Slot) → q x ≡ true → p x ≡ true)
    → (xs : List Slot) → any p xs ≡ false
    → any q xs ≡ false
any_weaker p q h [] e = refl
any_weaker p q h (x ∷ xs) e = ground (arith, h x, any_weaker p q h xs)
