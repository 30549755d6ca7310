-- ===== src/Factory/Spa.antt =====
-- spaFallback: the index page for the paths that no route takes.
use Prim.Native.String.{[], ◌∷◌}
use servion.Base.{
  String, code, Bool, true, false, not, ◌&&◌, List, [], ◌∷◌, any, if◌then◌else◌, str_eq, ◌==◌,
}
use servion.Text.{has_prefix}
use servion.Http.{Handler, Op, error}

-- path.Ext(p) != "": a dot stands behind the last slash.
ext_from : Bool → String → Bool
ext_from dot [] = dot
ext_from dot (c ∷ s) =
    ext_from (if code c == b'/' then false else if code c == b'.' then true else dot) s

unfoldable pub has_ext : String → Bool
unfolding ext_from
has_ext p = ext_from false p

-- http.NotFound
unfoldable pub not_found : List Op
not_found = error "404 page not found" 404

unfoldable pub spa_fallback : {S : Type 0} → Handler S → List String → Handler S
unfolding not_found
spa_fallback index exclude r s =
    if not (str_eq r.method "GET") && not (str_eq r.method "HEAD")
    then (s, not_found)
    else if any (λ prefix. has_prefix r.path prefix) exclude
    then (s, not_found)
    else if has_ext r.path
    then (s, not_found)
    else index (record r { path = "/" }) s
