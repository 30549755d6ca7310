-- ===== src/Http/Laws.antt =====
-- The laws of headers and of the response writer that the components use.
use Prim.Native.String.{[], ◌∷◌}
use servion.Base.{
  ℕ, some, String, true, false, List, [], ◌∷◌, ◌++◌, ◌≡◌, refl, if◌then◌else◌, arith,
}
use servion.Http.Fields.{Headers, same_key, get, set, add, del}
use servion.Http.Writer.{Response, Op, run, write, body_allowed}

pub same_key_refl : (s : String) → same_key s s ≡ true
unfolding same_key
same_key_refl [] = refl
same_key_refl (c ∷ s) = ground (arith, same_key_refl s)

pub same_key_trans : (a b c : String) → same_key a b ≡ true → same_key a c ≡ same_key b c
unfolding same_key
same_key_trans [] [] c h = refl
same_key_trans (x ∷ a) (y ∷ b) [] h = refl
same_key_trans (x ∷ a) (y ∷ b) (z ∷ c) h = ground (arith, same_key_trans a b c)
same_key_trans [] (y ∷ b) c h = cc
same_key_trans (x ∷ a) [] c h = cc

pub same_key_sym : (a b : String) → same_key a b ≡ same_key b a
unfolding same_key
same_key_sym [] [] = refl
same_key_sym [] (y ∷ b) = refl
same_key_sym (x ∷ a) [] = refl
same_key_sym (x ∷ a) (y ∷ b) = ground (arith, same_key_sym a b)

pub get-del :
    (name key : String) (h : Headers)
    → get name (del key h) ≡ (if same_key key name then "" else get name h)
unfolding get del
get-del name key [] = ground arith
get-del name key ((k, v) ∷ h) = ground (
  arith,
  get-del name key h,
  same_key_trans k key name,
  same_key_trans k name key,
  same_key_trans key name key,
  same_key_refl key,
  same_key_sym k key,
)

pub get-set :
    (name key value : String) (h : Headers)
    → get name (set key value h) ≡ (if same_key key name then value else get name h)
unfolding get set
get-set name key value h = ground (arith, get-del name key h)

pub run-append : (xs ys : List Op) (r : Response) → run (xs ++ ys) r ≡ run ys (run xs r)
unfolding run
run-append [] ys r = refl
run-append (x ∷ xs) ys r = run-append xs ys _

-- Another header's value does not change the first value of this one.
pub get-add_other :
    (name key value : String) (h : Headers)
    → same_key key name ≡ false
    → get name (add key value h) ≡ get name h
unfolding get add
get-add_other name key value [] e = rw e
get-add_other name key value ((k, v) ∷ h) e = ground (arith, get-add_other name key value h e)

-- A write behind a status line whose status takes a body.
pub run-write :
    (h₀ : Headers) (st : ℕ) (h : Headers) (body p : List ℕ) (ops : List Op)
    → body_allowed st ≡ true
    → run (write p ∷ ops) (record { header = h₀; sent = some (st, h); body = body })
      ≡ run ops (record { header = h₀; sent = some (st, h); body = body ++ p })
unfolding run
run-write h₀ st h body p ops b = rw (b, run)
