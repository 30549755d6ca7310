-- ===== src/Servers/Together.antt =====
-- utils.go, runServers, with the servers themselves: each step of a member of the errgroup runs the
-- method of its server.
use servion.Base.{true, false, List, ◌∷◌, map, length, All, any, Option, none, some, ◌≡◌}
use servion.Runner.{Error}
use servion.Runtime
use servion.HttpServer.{Blocking}
use servion.Serving.{
  Slot, slot, running, ended, not_asked, asked, closed, is_running, is_asked, is_unasked, ask,
  close, end_serve as end_slot, Change, here, there, ChangeFirst, first, later, Group, keep_first,
  Cancelled, begin, Outside, runtime_moved, signalled, aborted, Reachable,
}
use servion.Serving
use servion.Servers.{AnyServer, World, begin_serve, end_serve, shutdown}
use servion.Servers.Steps.{View, behind_serve}
use servion.Servers.Contract.{Reached}

-- A server of boundServers, its two members of the group, and its abstract server.
pub record Member (S GSrv Lis Dialer Srv Policy : Type 0) : Type 0 where
  pub place : Slot
  pub view : View
  pub server : AnyServer S GSrv Lis Dialer Srv Policy

module _ {S GSrv Lis Dialer Srv Policy : Type 0} where
  -- Serve passes its first half.
  pub data Begins (m : Member S GSrv Lis Dialer Srv Policy) (s : S)
      : Member S GSrv Lis Dialer Srv Policy → S → Type 0 where
    begins :
        is_running m.place ≡ true
        → Begins m s
            (record m {
              view = record m.view { serving = true };
              server = (begin_serve m.server).0;
            })
            s

  -- The blocking call of Serve comes back, by a panic or not, and Serve returns.
  pub data Ends (blocked : Blocking Error) (result : Option Error)
      (m : Member S GSrv Lis Dialer Srv Policy) (s : S)
      : Member S GSrv Lis Dialer Srv Policy → S → Type 0 where
    ends :
        is_running m.place ≡ true
        → m.view.serving ≡ true
        → (end_serve blocked m.server).1 ≡ result
        → Ends blocked result m s
            (record {
              place = end_slot result m.place;
              view = behind_serve blocked m.view;
              server = (end_serve blocked m.server).0;
            })
            s

  -- One member does a step.
  pub data One
      (Act : Member S GSrv Lis Dialer Srv Policy
        → S
        → Member S GSrv Lis Dialer Srv Policy
        → S
        → Type 0)
      (s s' : S)
      : List (Member S GSrv Lis Dialer Srv Policy)
        → List (Member S GSrv Lis Dialer Srv Policy)
        → Type 0 where
    this :
        {m m' : Member S GSrv Lis Dialer Srv Policy}
        (ms : List (Member S GSrv Lis Dialer Srv Policy))
        → Act m s m' s'
        → One Act s s' (m ∷ ms) (m' ∷ ms)
    other :
        {ms ms' : List (Member S GSrv Lis Dialer Srv Policy)}
        (m : Member S GSrv Lis Dialer Srv Policy)
        → One Act s s' ms ms'
        → One Act s s' (m ∷ ms) (m ∷ ms')

  -- The first server whose Shutdown was not handed to the group yet.
  pub data AskFirst
      : List (Member S GSrv Lis Dialer Srv Policy)
        → List (Member S GSrv Lis Dialer Srv Policy)
        → Type 0 where
    ask_this :
        (m : Member S GSrv Lis Dialer Srv Policy) (ms : List (Member S GSrv Lis Dialer Srv Policy))
        → is_unasked m.place ≡ true
        → AskFirst (m ∷ ms) (record m { place = ask m.place } ∷ ms)
    ask_other :
        (m : Member S GSrv Lis Dialer Srv Policy)
        {ms ms' : List (Member S GSrv Lis Dialer Srv Policy)}
        → is_unasked m.place ≡ false
        → AskFirst ms ms'
        → AskFirst (m ∷ ms) (m ∷ ms')

  abbrev pub places : List (Member S GSrv Lis Dialer Srv Policy) → List Slot
  places ms = map (λ m. m.place) ms

module _ {S GSrv Base Conn Lis Dialer Srv Policy : Type 0}
    (world : World S Base Conn Lis Srv Policy) where
  -- A server that bindServers bound, before the group runs.
  abbrev pub Ready : Member S GSrv Lis Dialer Srv Policy → Type 0
  Ready m =
      (m.place ≡ slot running not_asked)
      × (m.view ≡ record { bound = true; serving = false; crashed = false; closed = false })
      × ((s : S) × Reached world m.view m.server s)

  -- The goroutine that was handed the server's Shutdown runs it.
  pub data Closes (result : Option Error) (m : Member S GSrv Lis Dialer Srv Policy) (s : S)
      : Member S GSrv Lis Dialer Srv Policy → S → Type 0 where
    closes_it :
        is_asked m.place ≡ true
        → (shutdown world m.server s).2 ≡ result
        → Closes result m s
            (record {
              place = close m.place;
              view = record m.view { closed = true };
              server = (shutdown world m.server s).1;
            })
            (shutdown world m.server s).0

  -- The group and its servers, in a world that others change too.
  pub data Joint : Group → List (Member S GSrv Lis Dialer Srv Policy) → S → Type 0 where
    begun :
        (runtime : Runtime.State)
        → Runtime.Reachable runtime
        → (ms : List (Member S GSrv Lis Dialer Srv Policy)) (s : S) → All Ready ms
        → Joint (begin (length ms) runtime) ms s
    outside :
        {g g' : Group} {ms : List (Member S GSrv Lis Dialer Srv Policy)} {s : S} (s' : S)
        → Joint g ms s
        → Outside g g'
        → Joint g' ms s'
    serving :
        {g : Group} {ms ms' : List (Member S GSrv Lis Dialer Srv Policy)} {s s' : S}
        → Joint g ms s
        → One Begins s s' ms ms'
        → Joint g ms' s'
    served :
        {g : Group} {ms ms' : List (Member S GSrv Lis Dialer Srv Policy)} {s s' : S}
        (blocked : Blocking Error) (result : Option Error)
        → Joint g ms s
        → One (Ends blocked result) s s' ms ms'
        → Joint (record g { slots = places ms'; err = keep_first g.err result }) ms' s'
    woke :
        {g : Group} {ms : List (Member S GSrv Lis Dialer Srv Policy)} {s : S}
        → Joint g ms s
        → Cancelled g
        → g.watcher ≡ false
        → Joint (record g { watcher = true }) ms s
    spawned :
        {g : Group} {ms ms' : List (Member S GSrv Lis Dialer Srv Policy)} {s : S}
        → Joint g ms s
        → g.watcher ≡ true
        → AskFirst ms ms'
        → Joint (record g { slots = places ms' }) ms' s
    shut :
        {g : Group} {ms ms' : List (Member S GSrv Lis Dialer Srv Policy)} {s s' : S}
        (result : Option Error)
        → Joint g ms s
        → One (Closes result) s s' ms ms'
        → Joint (record g { slots = places ms'; err = keep_first g.err result }) ms' s'
    waited :
        {g : Group} {ms : List (Member S GSrv Lis Dialer Srv Policy)} {s : S}
        → Joint g ms s
        → g.result ≡ none
        → any Serving.is_pending g.slots ≡ false
        → Joint (record g { result = some g.err }) ms s
