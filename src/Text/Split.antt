-- ===== src/Text/Split.antt =====
-- What splitting gives: parts without the separator, and the words that were joined.
use Prim.Native.String.{[], ◌∷◌}
use Prim.Native.String
use text.Mathlib.TextLemmas.{nil-append, cons-append}
use servion.Base.{
  ℕ, String, Char, code, Bool, true, false, not, List, [], ◌∷◌, ◌≡◌, refl, ap, select, All,
  Bool-cases, inl, inr,
}
use servion.Text.{is_empty, split_func, onto_first, fields_func, join}

-- No character of the text passes the test.
abbrev pub Free : (ℕ → Bool) → String → Type 0
Free sep [] = Unit
Free sep (c ∷ s) = (sep (code c) ≡ false) × Free sep s

module _ (sep : ℕ → Bool) where
  onto_first-Free :
      (c : Char) (ws : List String)
      → sep (code c) ≡ false
      → All (Free sep) ws
      → All (Free sep) (onto_first c ws)
  unfolding onto_first
  onto_first-Free c [] h a = ((h, tt), tt)
  onto_first-Free c (w ∷ ws) h (f, a) = ((h, f), a)

  pub split_func-Free : (s : String) → All (Free sep) (split_func sep s)
  unfolding split_func
  split_func-Free [] = (tt, tt)
  split_func-Free (c ∷ s) = elim (Bool-cases (sep (code c))) [
    | inl e ↦ rw e (tt, split_func-Free s)
    | inr e ↦ rw e (onto_first-Free c (split_func sep s) e (split_func-Free s))
  ]

  -- A text with no separator is its own only part.
  pub split_func_of_Free : (s : String) → Free sep s → split_func sep s ≡ s ∷ []
  unfolding split_func
  split_func_of_Free [] h = refl
  split_func_of_Free (c ∷ s) (e, h) = rw (e, split_func_of_Free s h)

  pub split_func-append :
      (w : String) (c : Char) (s : String)
      → Free sep w
      → sep (code c) ≡ true
      → split_func sep (String.◌++◌ w (c ∷ s)) ≡ w ∷ split_func sep s
  unfolding split_func
  split_func-append [] c s h e = rw nil-append (rw e)
  split_func-append (d ∷ w) c s (n, h) e =
      rw (cons-append d w (c ∷ s)) (rw (n, split_func-append w c s h e))

abbrev pub IsWord : (ℕ → Bool) → String → Type 0
IsWord sep s = (is_empty s ≡ false) × Free sep s

-- The parts that FieldsFunc returns are words.
pub fields_func-IsWord : (sep : ℕ → Bool) (s : String) → All (IsWord sep) (fields_func sep s)
unfolding fields_func
fields_func-IsWord sep s = go (split_func sep s) (split_func-Free sep s)
  where
    go :
        (ws : List String)
        → All (Free sep) ws
        → All (IsWord sep) (select (λ w. not (is_empty w)) ws)
    go [] h = tt
    go (w ∷ ws) (f, h) = elim (Bool-cases (is_empty w)) [
      | inl e ↦ rw e (go ws h)
      | inr e ↦ rw e ((e, f), go ws h)
    ]

-- Words that are joined by a separator are found again.
pub fields_func-join :
    (sep : ℕ → Bool) (c : Char) (ws : List String)
    → sep (code c) ≡ true
    → All (IsWord sep) ws
    → fields_func sep (join ws (c ∷ "")) ≡ ws
unfolding fields_func join
fields_func-join sep c [] e h = refl
fields_func-join sep c (w ∷ []) e ((n, f), _) = rw (split_func_of_Free sep w f) (rw n)
fields_func-join sep c (w ∷ v ∷ ws) e ((n, f), h) =
    rw
      (
        cons-append c "" (join (v ∷ ws) (c ∷ "")),
        nil-append (join (v ∷ ws) (c ∷ "")),
        split_func-append sep w c (join (v ∷ ws) (c ∷ "")) f e,
        n,
      )
      (ap (◌∷◌ w) (fields_func-join sep c (v ∷ ws) e h))
