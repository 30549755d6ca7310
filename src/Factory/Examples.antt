-- ===== src/Factory/Examples.antt =====
-- The theorems of the routes at concrete inputs.
use servion.Base.{ℕ, String, true, List, [], ◌∷◌, some, none, ◌≡◌, find}
use servion.Base.Int.{pos}
use servion.Text.{has_prefix, has_suffix}
use servion.Http.{Request, Handler, Middleware, set_header, write, respond, status}
use servion.Factory.{HttpHandler, register, spa_fallback, Resource, group_assets, gzip_header}
use servion.Factory.Routes.{Distinct, first_handler, wrapped, register_first}
use servion.Factory.Fallback.{IsPage, spa_fallback_pages}
use servion.Factory.Groups.{slot, slot-group_assets}

abbrev answer : List ℕ → Handler (Unit {0})
answer b r s = (s, write b ∷ [])

-- A middleware of the paths below /api.
abbrev tag : Middleware (Unit {0})
tag = record {
  bean_order = pos 1;
  applies = λ pattern. has_prefix pattern "/api";
  wrap = λ next r s. let (s', ops) = next r s in (s', set_header "X-Tag" "on" ∷ ops);
}

abbrev handlers : List (HttpHandler (Unit {0}))
handlers =
    record { pattern = "/api/a"; serve = answer (1 ∷ []) }
    ∷ record { pattern = "/b"; serve = answer (2 ∷ []) }
    ∷ record { pattern = "/api/a"; serve = answer (3 ∷ []) }
    ∷ []

register_first_example :
    Distinct (register (tag ∷ []) handlers []).0
    × ((pattern : String)
        → find pattern (register (tag ∷ []) handlers []).0
          ≡ wrapped (tag ∷ []) pattern (first_handler pattern handlers))
register_first_example = register_first (tag ∷ []) handlers

abbrev deep_link : Request
deep_link = record {
  method = "GET";
  path = "/users/7";
  header = [];
  body = [];
  remote_addr = "";
  auth = none;
  request_id = none;
}

spa_fallback_pages_example :
    (IsPage ("/api" ∷ []) deep_link
      → spa_fallback (answer []) ("/api" ∷ []) deep_link tt
        ≡ answer [] (record deep_link { path = "/" }) tt)
    × (¬ IsPage ("/api" ∷ []) deep_link
        → ((spa_fallback (answer []) ("/api" ∷ []) deep_link tt).0 ≡ tt)
          × (status (respond (spa_fallback (answer []) ("/api" ∷ [])) deep_link tt) ≡ some 404))
spa_fallback_pages_example = spa_fallback_pages (answer []) ("/api" ∷ []) deep_link tt

abbrev resources : List (Resource (Unit {0}))
resources =
    record { name = "assets"; asset_names = "index.html" ∷ []; asset_files = answer (1 ∷ []) }
    ∷ record {
      name = "assets_gzip";
      asset_names = "index.html" ∷ [];
      asset_files = answer (2 ∷ []);
    }
    ∷ []

slot-group_assets_example :
    slot true (find "/" (group_assets resources)) ≡ some (gzip_header (answer (2 ∷ [])))
unfolding has_prefix has_suffix
slot-group_assets_example = slot-group_assets resources true "/"
