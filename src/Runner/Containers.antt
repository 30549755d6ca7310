-- ===== src/Runner/Containers.antt =====
-- utils.go, doWithServers.
use Prim.Native.String.{[], ◌∷◌}
use servion.Base.{List, [], ◌∷◌, ◌++◌, Option, none, some, ◌⊎◌, inl, inr}
use servion.Runner.Types.{
  Error, RunError, creation_failed, invalid_server, joined, Server, Container, Core, Outcome,
  returned, panicked, Body,
}

unfoldable pub recovered : Outcome → List Error
recovered (returned _) = []
recovered (panicked e) = e ∷ []

unfoldable pub result_of : Outcome → Option RunError
result_of (returned err) = err
result_of (panicked _) = none

-- The error that the deferred function leaves.
unfoldable pub settle : Outcome → List Error → Option RunError
unfolding recovered result_of
settle out closing = elim (recovered out ++ closing) [
  | [] ↦ result_of out
  | e ∷ es ↦ some (joined (e ∷ es))
]

module _ {S : Type 0} where
  -- The children in order, up to the first that fails.
  unfoldable pub create :
      List (S → S × (Error ⊎ Container S)) → S → S × List (Container S) × Option Error
  create [] s = (s, [], none)
  create (child ∷ children) s =
      let (s₁, made) = child s in
      elim made [
        | inl e ↦ (s₁, [], some e)
        | inr c ↦ let (s₂, cs, failed) = create children s₁ in (s₂, c ∷ cs, failed)
      ]

  unfoldable pub usable : List (Error ⊎ Server S) → Error ⊎ List (Server S)
  usable [] = inr []
  usable (inl e ∷ beans) = inl e
  usable (inr server ∷ beans) = elim (usable beans) [
    | inl e ↦ inl e
    | inr servers ↦ inr (server ∷ servers)
  ]

  unfoldable pub inject : List (S → S × (Error ⊎ Server S)) → S → S × (Error ⊎ List (Server S))
  inject [] s = (s, inr [])
  inject (bean ∷ beans) s =
      let (s₁, made) = bean s in
      let rest = inject beans s₁ in
      elim made [
        | inl e ↦ (s₁, inl e)
        | inr server ↦ elim rest.1 [
          | inl e ↦ (rest.0, inl e)
          | inr servers ↦ (rest.0, inr (server ∷ servers))
        ]
      ]

  -- The servers of the containers, in order, up to the first unusable bean.
  unfoldable pub collect : List (Container S) → S → S × (RunError ⊎ List (Server S))
  unfolding usable inject
  collect [] s = (s, inr [])
  collect (c ∷ cs) s =
      let (s₁, injected) = inject c.http_servers s in
      let rest = collect cs s₁ in
      elim (usable c.servers) [
        | inl e ↦ (s, inl (invalid_server e))
        | inr own ↦ elim injected [
          | inl e ↦ (s₁, inl (invalid_server e))
          | inr http ↦ elim rest.1 [
            | inl e ↦ (rest.0, inl e)
            | inr more ↦ (rest.0, inr (own ++ http ++ more))
          ]
        ]
      ]

  -- The deferred loop over the children; the core is not closed.
  unfoldable pub close_all : List (Container S) → S → S × List Error
  close_all [] s = (s, [])
  close_all (c ∷ cs) s =
      let (s₁, failed) = c.close s in
      let (s₂, errs) = close_all cs s₁ in (s₂, elim failed [ none ↦ errs | some e ↦ e ∷ errs ])

  -- The containers are there: their servers, and the callback.
  unfoldable pub with_containers : Body S → List (Container S) → S → S × Outcome
  unfolding collect
  with_containers cb cs s =
      let (s', servers) = collect cs s in
      elim servers [ inl e ↦ (s', returned (some e)) | inr list ↦ cb list s' ]

  -- The part of doWithServers before the deferred function, with the children that it made.
  unfoldable pub open_servers : Core S → Body S → S → S × List (Container S) × Outcome
  unfolding create with_containers
  open_servers core cb s = elim core.children [
    | [] ↦ let (s', out) = with_containers cb (core.self ∷ []) s in (s', [], out)
    | child ∷ children ↦
        let (s', cs, failed) = create (child ∷ children) s in
        elim failed [
          | some e ↦ (s', cs, returned (some (creation_failed e)))
          | none ↦ let (s'', out) = with_containers cb cs s' in (s'', cs, out)
        ]
  ]

  -- doWithServers
  unfoldable pub do_with_servers : Core S → Body S → S → S × Option RunError
  unfolding open_servers close_all settle
  do_with_servers core cb s =
      let (s₁, made, out) = open_servers core cb s in
      let (s₂, closing) = close_all made s₁ in (s₂, settle out closing)
