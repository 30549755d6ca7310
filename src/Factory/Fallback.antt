-- ===== src/Factory/Fallback.antt =====
-- Which requests the index page answers.
use servion.Base.{String, false, List, some, ◌≡◌, ◌⊎◌, refl, ap, arith, any, eq_iff}
use servion.Text.{has_prefix}
use servion.Http.{Request, Handler, error, respond, status, run, fresh}
use servion.Factory.{has_ext, not_found, spa_fallback}

-- The request is a page of the application.
abbrev pub IsPage : List String → Request → Type 0
IsPage exclude r =
    ((r.method ≡ "GET") ⊎ (r.method ≡ "HEAD"))
    × (any (λ prefix. has_prefix r.path prefix) exclude ≡ false)
    × (has_ext r.path ≡ false)

not_found-404 : status (run not_found fresh) ≡ some 404
unfolding not_found error run
not_found-404 = refl

spa_fallback_closed :
    {S : Type 0} (index : Handler S) (exclude : List String) (r : Request) (s : S)
    → ¬ IsPage exclude r
    → spa_fallback index exclude r s ≡ (s, not_found)
unfolding spa_fallback
spa_fallback_closed index exclude r s n =
    ground (arith, eq_iff r.method "GET", eq_iff r.method "HEAD")

-- A GET or HEAD request outside the excluded prefixes and without a file extension gets the page
-- of the index handler at the path "/"; any other is answered by 404 and the index handler does
-- not run.
pub spa_fallback_pages :
    {S : Type 0} (index : Handler S) (exclude : List String) (r : Request) (s : S)
    → (IsPage exclude r → spa_fallback index exclude r s ≡ index (record r { path = "/" }) s)
      × (¬ IsPage exclude r
          → ((spa_fallback index exclude r s).0 ≡ s)
            × (status (respond (spa_fallback index exclude) r s) ≡ some 404))
unfolding spa_fallback
spa_fallback_pages index exclude r s = (
  λ p. ground (arith, eq_iff r.method "GET", eq_iff r.method "HEAD"),
  λ n.
      let closed = spa_fallback_closed index exclude r s n in
      (ap (λ out. out.0) closed, rw closed not_found-404),
)
