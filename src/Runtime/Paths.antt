-- ===== src/Runtime/Paths.antt =====
-- runtime.go, the paths of the process: PostConstruct, and GetStats with what it reports. filepath
-- and the arguments of the process are arguments here.
use servion.Base.{String, List, [], ◌∷◌, Option, none, some, if◌then◌else◌, str_eq}

-- implRuntime, its fields that PostConstruct sets.
pub record Paths : Type 0 where
  pub executable : String
  pub executable_dir : String
  pub home_dir : String

-- filepath.Abs, where none is its error, filepath.Dir and filepath.Base.
pub record FilePath : Type 0 where
  pub abs : String → Option String
  pub dir : String → String
  pub base : String → String

module _ (path : FilePath) where
  -- The last part: the home directory is absolute by then, so that the case does not arise.
  absolute_home : Paths → Option Paths
  absolute_home t =
      if str_eq t.home_dir "."
      then elim (path.abs t.home_dir) [
        | none ↦ none
        | some home ↦ some (record t { home_dir = home })
      ]
      else some t

  -- PostConstruct of a runtime for a home directory; none is the error.
  unfoldable pub post_construct : String → String → Option Paths
  unfolding absolute_home
  post_construct arg0 home = elim (path.abs home) [
    | none ↦ none
    | some abs_home ↦ elim (path.abs (path.dir arg0)) [
      | none ↦ none
      | some dir ↦
          absolute_home
            (record { executable = path.base arg0; executable_dir = dir; home_dir = abs_home })
    ]
  ]

-- cligo.CliApplication
pub record CliApplication : Type 0 where
  pub name : String
  pub version : String
  pub build : String

-- GetStats: the calls that it makes.
unfoldable pub get_stats : CliApplication → Paths → List (String × String)
get_stats app t =
    ("name", app.name)
    ∷ ("version", app.version)
    ∷ ("build", app.build)
    ∷ ("executable", t.executable)
    ∷ ("home", t.home_dir)
    ∷ []
