-- ===== src/Servers/Members.antt =====
-- What each step does to the servers of the group.
use servion.Base.{Bool, true, false, List, ◌∷◌, All, Option, ◌≡◌, refl, sym, ap, ◌∙◌, subst}
use servion.Runner.{Error}
use servion.HttpServer.{Blocking}
use servion.Serving.{
  Slot, is_running, is_unasked, ask, end_serve as end_slot, Change, here, there, ChangeFirst, first,
  later,
}
use servion.Serving.Outcome.{is_running-ask}
use servion.Servers.Steps.{Agrees, flags, begin_serve-Agrees, end_serve-Agrees}
use servion.Servers.Together.{
  Member, Begins, begins, Ends, ends, One, this, other, AskFirst, ask_this, ask_other, places,
}

module _ {S GSrv Lis Dialer Srv Policy : Type 0} where
  -- The server does what the abstract one does, is bound, and is behind its Serve when that has
  -- returned.
  abbrev pub Good : Member S GSrv Lis Dialer Srv Policy → Type 0
  Good m =
      Agrees m.view (flags m.server)
      × (m.view.bound ≡ true)
      × (is_running m.place ≡ false → m.view.serving ≡ false)

  pub AskFirst-ChangeFirst :
      {ms ms' : List (Member S GSrv Lis Dialer Srv Policy)}
      → AskFirst ms ms'
      → ChangeFirst is_unasked ask (places ms) (places ms')
  AskFirst-ChangeFirst (ask_this m ms u) = first m.place (places ms) u
  AskFirst-ChangeFirst (ask_other m u a) = later m.place u (AskFirst-ChangeFirst a)

  pub AskFirst-Good :
      {ms ms' : List (Member S GSrv Lis Dialer Srv Policy)}
      → AskFirst ms ms'
      → All Good ms
      → All Good ms'
  AskFirst-Good (ask_this m ms u) ((a, b, n), gs) =
      ((a, b, λ e. n (sym (is_running-ask m.place) ∙ e)), gs)
  AskFirst-Good (ask_other m u a) (g, gs) = (g, AskFirst-Good a gs)

  module _
      {Act : Member S GSrv Lis Dialer Srv Policy
        → S
        → Member S GSrv Lis Dialer Srv Policy
        → S
        → Type 0}
      {s s' : S} where
    pub One-Good :
        ((m m' : Member S GSrv Lis Dialer Srv Policy) → Act m s m' s' → Good m → Good m')
        → {ms ms' : List (Member S GSrv Lis Dialer Srv Policy)} → One Act s s' ms ms'
        → All Good ms
        → All Good ms'
    One-Good h (this {m} {m'} ms a) (g, gs) = (h m m' a g, gs)
    One-Good h (other m o) (g, gs) = (g, One-Good h o gs)

    pub One-Change :
        {test : Slot → Bool} {f : Slot → Slot}
        → ((m m' : Member S GSrv Lis Dialer Srv Policy)
            → Act m s m' s'
            → (test m.place ≡ true) × (m'.place ≡ f m.place))
        → {ms ms' : List (Member S GSrv Lis Dialer Srv Policy)} → One Act s s' ms ms'
        → Change test f (places ms) (places ms')
    One-Change {test} {f} h (this {m} {m'} ms a) =
        let (t, e) = h m m' a in
        subst (λ x. Change test f (m.place ∷ places ms) (x ∷ places ms)) (sym e)
          (here m.place (places ms) t)
    One-Change h (other m o) = there m.place (One-Change h o)

    pub One-places :
        ((m m' : Member S GSrv Lis Dialer Srv Policy) → Act m s m' s' → m'.place ≡ m.place)
        → {ms ms' : List (Member S GSrv Lis Dialer Srv Policy)} → One Act s s' ms ms'
        → places ms' ≡ places ms
    One-places h (this {m} {m'} ms a) = ap (λ x. x ∷ places ms) (h m m' a)
    One-places h (other m o) = ap (λ xs. m.place ∷ xs) (One-places h o)

  pub Begins-Good :
      (s s' : S) (m m' : Member S GSrv Lis Dialer Srv Policy) → Begins m s m' s' → Good m → Good m'
  Begins-Good s s' m m' (begins r) (a, b, n) = (begin_serve-Agrees m.view m.server b a, b, λ e. cc)

  pub Ends-Good :
      (blocked : Blocking Error) (result : Option Error) (s s' : S)
      (m m' : Member S GSrv Lis Dialer Srv Policy)
      → Ends blocked result m s m' s'
      → Good m
      → Good m'
  Ends-Good blocked result s s' m m' (ends r v e) (a, b, n) =
      (end_serve-Agrees m.view blocked m.server v a, b, λ e. refl)

  pub Begins-place :
      (s s' : S) (m m' : Member S GSrv Lis Dialer Srv Policy)
      → Begins m s m' s'
      → m'.place ≡ m.place
  Begins-place s s' m m' (begins r) = refl

  pub Ends-place :
      (blocked : Blocking Error) (result : Option Error) (s s' : S)
      (m m' : Member S GSrv Lis Dialer Srv Policy)
      → Ends blocked result m s m' s'
      → (is_running m.place ≡ true) × (m'.place ≡ end_slot result m.place)
  Ends-place blocked result s s' m m' (ends r v e) = (r, refl)
