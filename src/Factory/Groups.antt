-- ===== src/Factory/Groups.antt =====
-- Which handler an asset's path gets from the resources.
use Prim.Native.String
use servion.Base.{
  String, Bool, true, false, ◌&&◌, ◌||◌, List, [], ◌∷◌, Option, none, some, ◌≡◌, refl, arith, any,
  if◌then◌else◌, str_eq, eq_iff, find, find-put, Bool-cases, inl, inr,
}
use servion.Text.{has_prefix, has_suffix}
use servion.Http.{Handler}
use servion.Factory.{
  Resource, ServingAsset, add_handler, asset_or_new, place, place_name, place_names, place_resource,
  group_from, group_assets, gzip_header,
}

abbrev same : Bool → Bool → Bool
same true b = b
same false true = false
same false false = true

-- The name of an asset stands under the pattern: an index page under two.
abbrev pub stands_under : String → String → Bool
stands_under pattern name =
    str_eq (String.◌++◌ "/" name) pattern || (str_eq name "index.html" && str_eq "/" pattern)

module _ {S : Type 0} where
  -- The handler of the asset, compressed or plain.
  abbrev pub slot : Bool → Option (ServingAsset S) → Option (Handler S)
  slot true a = (asset_or_new a).gzip
  slot false a = (asset_or_new a).plain

  abbrev pub is_compressed : Resource S → Bool
  is_compressed res = has_suffix res.name "gzip"

  abbrev pub files_of : Resource S → Handler S
  files_of res = if is_compressed res then gzip_header res.asset_files else res.asset_files

  -- The files of the last resource of assets of that kind that has the pattern.
  abbrev pub latest : Bool → String → List (Resource S) → Option (Handler S) → Option (Handler S)
  latest gzip pattern [] old = old
  latest gzip pattern (res ∷ more) old = latest gzip pattern more (
      if has_prefix res.name "assets"
        && same (is_compressed res) gzip
        && any (λ name. stands_under pattern name) res.asset_names
      then some (files_of res)
      else old)

  slot-none : (kind : Bool) → slot kind none ≡ none
  slot-none true = refl
  slot-none false = refl

  slot-place :
      (kind gzip : Bool) (h : Handler S) (q pattern : String)
      (cache : List (String × ServingAsset S))
      → slot kind (find pattern (place gzip h q cache))
        ≡ (if str_eq q pattern && same gzip kind then some h else slot kind (find pattern cache))
  unfolding place add_handler
  slot-place true true h q pattern cache =
      rw (find-put q pattern (add_handler true h (asset_or_new (find q cache))) cache)
        (ground (arith, eq_iff q pattern))
  slot-place true false h q pattern cache =
      rw (find-put q pattern (add_handler false h (asset_or_new (find q cache))) cache)
        (ground (arith, eq_iff q pattern))
  slot-place false true h q pattern cache =
      rw (find-put q pattern (add_handler true h (asset_or_new (find q cache))) cache)
        (ground (arith, eq_iff q pattern))
  slot-place false false h q pattern cache =
      rw (find-put q pattern (add_handler false h (asset_or_new (find q cache))) cache)
        (ground (arith, eq_iff q pattern))

  slot-place_name :
      (kind gzip : Bool) (h : Handler S) (name pattern : String)
      (cache : List (String × ServingAsset S))
      → slot kind (find pattern (place_name gzip h name cache)) ≡ (
          if stands_under pattern name && same gzip kind
          then some h
          else slot kind (find pattern cache))
  unfolding place_name
  slot-place_name kind gzip h name pattern cache =
      let named = slot-place kind gzip h (String.◌++◌ "/" name) pattern cache in
      let root = slot-place kind gzip h "/" pattern (place gzip h (String.◌++◌ "/" name) cache) in
      ground (arith, named, root)

  slot-place_names :
      (names : List String) (kind gzip : Bool) (h : Handler S) (pattern : String)
      (cache : List (String × ServingAsset S))
      → slot kind (find pattern (place_names gzip h names cache)) ≡ (
          if same gzip kind && any (λ name. stands_under pattern name) names
          then some h
          else slot kind (find pattern cache))
  unfolding place_names
  slot-place_names [] kind gzip h pattern cache = ground arith
  slot-place_names (name ∷ names) kind gzip h pattern cache = ground (
    arith,
    slot-place_names names kind gzip h pattern (place_name gzip h name cache),
    slot-place_name kind gzip h name pattern cache,
  )

  slot-place_resource :
      (kind : Bool) (res : Resource S) (pattern : String) (cache : List (String × ServingAsset S))
      → slot kind (find pattern (place_resource res cache)) ≡ (
          if has_prefix res.name "assets"
            && same (is_compressed res) kind
            && any (λ name. stands_under pattern name) res.asset_names
          then some (files_of res)
          else slot kind (find pattern cache))
  unfolding place_resource
  slot-place_resource kind res pattern cache = elim (Bool-cases (has_prefix res.name "assets")) [
    | inl e ↦
        rw e
          (slot-place_names res.asset_names kind (is_compressed res) (files_of res) pattern cache)
    | inr e ↦ rw e refl
  ]

  slot-group_from :
      (resources : List (Resource S)) (kind : Bool) (pattern : String)
      (cache : List (String × ServingAsset S))
      → slot kind (find pattern (group_from resources cache))
        ≡ latest kind pattern resources (slot kind (find pattern cache))
  unfolding group_from
  slot-group_from [] kind pattern cache = refl
  slot-group_from (res ∷ more) kind pattern cache =
      rw (slot-place_resource kind res pattern cache) at
        (slot-group_from more kind pattern (place_resource res cache))

  -- The compressed handler of a path, and its plain one, are the files of the last resource of that
  -- kind whose name begins with "assets" and whose assets have the path, where an index page has
  -- the path "/" too; the others come from no resource. A resource is of the compressed kind when
  -- its name ends in "gzip".
  pub slot-group_assets :
      (resources : List (Resource S)) (kind : Bool) (pattern : String)
      → slot kind (find pattern (group_assets resources)) ≡ latest kind pattern resources none
  unfolding group_assets find
  slot-group_assets resources kind pattern =
      rw (slot-none kind) at (slot-group_from resources kind pattern [])
