-- ===== src/Factory/Assets.antt =====
-- servingAsset, groupAssets and gzipHeaderHandler; utils.go, gzipWriter. The file server of a
-- resource is its handler.
use Prim.Native.String
use servion.Base.{
  String, Bool, true, false, List, [], ◌∷◌, Option, none, some, any, if◌then◌else◌, str_eq, ◌==◌,
  find, put,
}
use servion.Text.{has_prefix, has_suffix, split, trim_space}
use servion.Http.{
  Request, Handler, Op, set_header, add_header, del_header, write_header, write, panic, error, get,
}

-- glue.ResourceSource
pub record Resource (S : Type 0) : Type 0 where
  pub name : String
  pub asset_names : List String
  pub asset_files : Handler S

pub record ServingAsset (S : Type 0) : Type 0 where
  pub plain : Option (Handler S)
  pub gzip : Option (Handler S)

-- acceptGzip
unfoldable pub accept_gzip : Request → Bool
accept_gzip r =
    any (λ enc. str_eq "gzip" (trim_space enc)) (split (get "Accept-Encoding" r.header) b',')

-- The calls that gzipWriter makes.
gzip_ops : List Op → List Op
gzip_ops [] = []
gzip_ops (write_header status ∷ ops) =
    let rest = write_header status ∷ gzip_ops ops in
    if status == 200
    then del_header "Content-Encoding" ∷ set_header "Content-Encoding" "gzip" ∷ rest
    else rest
gzip_ops (set_header name value ∷ ops) = set_header name value ∷ gzip_ops ops
gzip_ops (add_header name value ∷ ops) = add_header name value ∷ gzip_ops ops
gzip_ops (del_header name ∷ ops) = del_header name ∷ gzip_ops ops
gzip_ops (write p ∷ ops) = write p ∷ gzip_ops ops
gzip_ops (panic ∷ ops) = panic ∷ []

module _ {S : Type 0} where
  -- gzipHeaderHandler
  unfoldable pub gzip_header : Handler S → Handler S
  unfolding gzip_ops
  gzip_header h r s = let (s', ops) = h r s in (s', gzip_ops ops)

  serve_plain : Option (Handler S) → Handler S
  serve_plain none r s = (s, error "resource not found" 404)
  serve_plain (some h) r s = h r s

  serve_gzip : Option (Handler S) → Option (Handler S) → Handler S
  unfolding serve_plain accept_gzip
  serve_gzip none plain r s = serve_plain plain r s
  serve_gzip (some h) plain r s = if accept_gzip r then h r s else serve_plain plain r s

  -- servingAsset.ServeHTTP
  unfoldable pub serve_asset : ServingAsset S → Handler S
  unfolding serve_gzip
  serve_asset a r s = serve_gzip a.gzip a.plain r s

  abbrev pub no_asset : ServingAsset S
  no_asset = record { plain = none; gzip = none }

  abbrev pub asset_or_new : Option (ServingAsset S) → ServingAsset S
  asset_or_new none = no_asset
  asset_or_new (some a) = a

  -- The asset with the handler in its place.
  unfoldable pub add_handler : Bool → Handler S → ServingAsset S → ServingAsset S
  add_handler true h a = record a { gzip = some h }
  add_handler false h a = record a { plain = some h }

  -- One pattern of the map.
  unfoldable pub place :
      Bool → Handler S → String → List (String × ServingAsset S) → List (String × ServingAsset S)
  unfolding add_handler
  place gzip h pattern cache =
      put pattern (add_handler gzip h (asset_or_new (find pattern cache))) cache

  -- One asset name: an index page stands under its own name and under "/".
  unfoldable pub place_name :
      Bool → Handler S → String → List (String × ServingAsset S) → List (String × ServingAsset S)
  unfolding place
  place_name gzip h name cache =
      let named = place gzip h (String.◌++◌ "/" name) cache in
      if str_eq name "index.html" then place gzip h "/" named else named

  unfoldable pub place_names :
      Bool
      → Handler S
      → List String
      → List (String × ServingAsset S)
      → List (String × ServingAsset S)
  unfolding place_name
  place_names gzip h [] cache = cache
  place_names gzip h (name ∷ names) cache = place_names gzip h names (place_name gzip h name cache)

  -- One resource, if it holds assets.
  unfoldable pub place_resource :
      Resource S → List (String × ServingAsset S) → List (String × ServingAsset S)
  unfolding place_names gzip_header
  place_resource res cache =
      let gzip = has_suffix res.name "gzip" in
      let h : Handler S = if gzip then gzip_header res.asset_files else res.asset_files in
      if has_prefix res.name "assets" then place_names gzip h res.asset_names cache else cache

  unfoldable pub group_from :
      List (Resource S) → List (String × ServingAsset S) → List (String × ServingAsset S)
  unfolding place_resource
  group_from [] cache = cache
  group_from (res ∷ more) cache = group_from more (place_resource res cache)

  -- groupAssets
  unfoldable pub group_assets : List (Resource S) → List (String × ServingAsset S)
  unfolding group_from
  group_assets resources = group_from resources []
