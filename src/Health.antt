-- ===== src/Health.antt =====
-- healthz_handler.go: the answer to the probes of an orchestrator.
pub mod Probes
mod Examples
use servion.Base.{
  ℕ, String, Bool, true, false, not, ◌&&◌, List, [], ◌∷◌, Option, none, some, if◌then◌else◌, str_eq,
  put,
}
use servion.Http.{Request, Handler, Op, set_header, write_header, write, error}
use servion.Runtime.{Runtime, active}

-- api.go, Component: its name, and the calls of the callback that GetStats makes; its error is
-- ignored.
pub record Component (S : Type 0) : Type 0 where
  pub bean_name : String
  pub get_stats : S → S × List (String × String)

-- The configured fields of implHealthHandler.
pub record Config : Type 0 where
  pub health_pattern : String
  pub detailed : Bool

abbrev pub Stats : Type 0
Stats = List (String × String)

-- healthResponse
pub record HealthResponse : Type 0 where
  pub status : String
  pub components : Option (List (String × Stats))

stats_of : List (String × String) → Stats → Stats
stats_of [] stats = stats
stats_of ((name, value) ∷ calls) stats = stats_of calls (put name value stats)

module _ {S : Type 0} where
  -- The loop over the components.
  all_stats : List (Component S) → S → List (String × Stats) → S × List (String × Stats)
  unfolding stats_of
  all_stats [] s found = (s, found)
  all_stats (c ∷ cs) s found =
      let (s', calls) = c.get_stats s in all_stats cs s' (put c.bean_name (stats_of calls []) found)

  details : Config → List (Component S) → S → S × Option (List (String × Stats))
  unfolding all_stats
  details cfg [] s = (s, none)
  details cfg (c ∷ cs) s =
      let (s', found) = all_stats (c ∷ cs) s [] in
      if cfg.detailed then (s', some found) else (s, none)

module _ {S : Type 0} (runtime : S → Runtime) (json : HealthResponse → List ℕ) where
  -- ServeHTTP
  unfoldable pub serve : Config → List (Component S) → Handler S
  unfolding details active
  serve cfg components r s =
      if not (str_eq r.method "GET") && not (str_eq r.method "HEAD")
      then (s, error "method not allowed" 405)
      else let up = active (runtime s) in
        let (s', found) = details cfg components s in
        (
          s',
          set_header "Content-Type" "application/json"
              ∷ write_header (if up then 200 else 503)
              ∷ write (json (record { status = if up then "UP" else "DOWN"; components = found }))
              ∷ [],
        )
