-- ===== src/Sync/Session.antt =====
-- The state of a session of src/sync.rs: one channel of the node and the socket, and operations on
-- the parts; and the state of a connection, with all channels of the node.
use embernet.Prelude.{Str, ◌==◌, str_eq, if◌then◌else◌, ◌≡◌, ap, ap₂}
use embernet.Fallible.{Result, ok, Action}
use embernet.Redb.{Redb}
use embernet.Channel.{ChannelDir}
use embernet.MessageLog.Messages.{IndexedDir}
use embernet.Sync.Socket.{Socket}

module _ ⦃r : Redb⦄ where
  pub record Session : Type 0 where
    pub node : IndexedDir
    pub socket : Socket

  pub record Connection : Type 0 where
    pub channels : Str → IndexedDir
    pub socket : Socket

  -- The channel of a name, and the others as they are.
  abbrev pub replace : Str → IndexedDir → (Str → IndexedDir) → Str → IndexedDir
  replace chan d channels name = if chan == name then d else channels name

  -- A session on one of the channels.
  abbrev pub session_on : Str → Connection → Session
  session_on chan s = record { node = s.channels chan; socket = s.socket }

  module _ {A : Type 0} where
    abbrev pub on_node : Action IndexedDir A → Action Session A
    on_node act s = ((act s.node).0, record s { node = (act s.node).1 })

    abbrev pub on_dir : Action ChannelDir A → Action Session A
    on_dir act s =
        ((act s.node.dir).0, record s { node = record s.node { dir = (act s.node.dir).1 } })

    abbrev pub on_socket : Action Socket A → Action Session A
    on_socket act s = ((act s.socket).0, record s { socket = (act s.socket).1 })

    abbrev pub on_connection : Action Socket A → Action Connection A
    on_connection act s = ((act s.socket).0, record s { socket = (act s.socket).1 })

    abbrev pub within : Str → Action Session A → Action Connection A
    within chan act s =
        let t = act (session_on chan s) in
        (t.0, record { channels = replace chan t.1.node s.channels; socket = t.1.socket })

    -- The node after an operation on it.
    pub on_node-eq_ok :
        (act : Action IndexedDir A) (x z : Session) (a : A)
        → on_node act x ≡ (ok a, z)
        → act x.node ≡ (ok a, z.node)
    on_node-eq_ok act x z a h =
        ap₂ (λ (b : Result A) (d : IndexedDir). (b, d)) (ap (λ (q : Result A × Session). q.0) h)
          (ap (λ (q : Result A × Session). q.1.node) h)
