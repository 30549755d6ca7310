-- ===== src/Factory.antt =====
-- http_server_factory.go: the routes of a server. gorilla/mux keeps the routes in the order of
-- their registration, and sort.Slice is the argument `sort`, since its order of equal elements is
-- not documented.
mod Spa
mod Assets
pub mod Fallback
pub mod Routes
pub mod Chain
pub mod Groups
mod Examples
mod ChainExamples
pub mod Guarded
use Prim.Native.String
use servion.Base.{
  ℕ, ◌*◌, String, Bool, true, false, not, ◌&&◌, ◌||◌, List, [], ◌∷◌, ◌++◌, map, Option, none, some,
  if◌then◌else◌, str_eq, find, put,
}
use servion.Base.Int.{ℤ}
use servion.Text.{is_empty}
use servion.Options.{parse_options, parse_prefix_list, enabled}
use servion.Http.{Request, Handler, Op, Middleware}
use Assets.{Resource, ServingAsset, group_assets, serve_asset}
use Spa.{spa_fallback}
unfoldable pub use Assets.*
unfoldable pub use Spa.*

-- glue.Properties: the value of a key, or the default.
pub record Properties : Type 0 where
  pub get_string : String → String → String
  pub get_int : String → ℤ → ℤ
  pub get_duration : String → ℕ → ℕ

-- api.go, HttpHandler
pub record HttpHandler (S : Type 0) : Type 0 where
  pub pattern : String
  pub serve : Handler S

-- implHttpServerFactory
pub record ServerFactory (S : Type 0) : Type 0 where
  pub bean_name : String
  pub properties : Properties
  pub handlers : List (HttpHandler S)
  pub middlewares : List (Middleware S)
  pub resources : List (Resource S)
  pub tls_config : Bool

abbrev pub Route : Type 0 → Type 0
Route S = String × Handler S

-- *http.Server, with the routes of its mux.
pub record Server (S : Type 0) : Type 0 where
  pub addr : String
  pub routes : List (Route S)
  pub not_found_handler : Option (Handler S)
  pub tls : Bool
  pub read_timeout : ℕ
  pub write_timeout : ℕ
  pub idle_timeout : ℕ

abbrev pub seconds : ℕ → ℕ
seconds n = n * 1_000_000_000

module _ {S : Type 0} where
  -- PostConstruct
  unfoldable pub post_construct :
      (List (Middleware S) → List (Middleware S)) → ServerFactory S → ServerFactory S
  post_construct sort t = record t { middlewares = sort t.middlewares }

  -- The handler behind the middlewares that match: the first of the list runs first.
  unfoldable pub wrap_all : List (Middleware S) → String → Handler S → Handler S
  wrap_all [] pattern h = h
  wrap_all (m ∷ ms) pattern h =
      let inner = wrap_all ms pattern h in if m.applies pattern then m.wrap inner else inner

  -- The loop over the handlers: the routes, and the visited patterns.
  unfoldable pub register :
      List (Middleware S)
      → List (HttpHandler S)
      → List (String × Bool)
      → List (Route S) × List (String × Bool)
  unfolding enabled wrap_all
  register ms [] visited = ([], visited)
  register ms (h ∷ hs) visited =
      let skipped = register ms hs visited in
      let (routes, visited') = register ms hs (put h.pattern true visited) in
      if enabled visited h.pattern
      then skipped
      else ((h.pattern, wrap_all ms h.pattern h.serve) ∷ routes, visited')

  unfoldable pub property : ServerFactory S → String → String → String
  property t name default =
      t.properties.get_string (String.◌++◌ t.bean_name (String.◌++◌ "." name)) default

  duration : ServerFactory S → String → ℕ → ℕ
  duration t name default =
      t.properties.get_duration (String.◌++◌ t.bean_name (String.◌++◌ "." name)) default

  asset_route : String × ServingAsset S → Route S
  asset_route (pattern, asset) = (pattern, serve_asset asset)

  -- The handler for the paths that no route takes, if the option "spa" finds an index page.
  fallback : ServerFactory S → List (String × ServingAsset S) → Option (Handler S)
  unfolding property
  fallback t groups = elim (find "/" groups) [
    | none ↦ none
    | some index ↦
        some
          (spa_fallback (serve_asset index) (parse_prefix_list (property t "spa-exclude" "/api")))
  ]

  -- Object: none is the error that the bind address is missing.
  unfoldable pub object : ServerFactory S → Option (Server S)
  unfolding register property duration asset_route fallback
  object t =
      let addr = property t "bind-address" "" in
      let options = parse_options (property t "options" "") in
      let (routes, _) = register t.middlewares t.handlers [] in
      let groups = group_assets t.resources in
      if is_empty addr
      then none
      else some (record {
        addr = addr;
        routes =
            (if enabled options "handlers" then routes else [])
            ++ (if enabled options "assets" then map asset_route groups else []);
        not_found_handler = if enabled options "spa" then fallback t groups else none;
        tls = enabled options "tls" && t.tls_config;
        read_timeout = duration t "read-timeout" (seconds 30);
        write_timeout = duration t "write-timeout" (seconds 30);
        idle_timeout = duration t "idle-timeout" (seconds 60);
      })
