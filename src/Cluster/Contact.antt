-- ===== src/Cluster/Contact.antt =====
-- The first messages for a service of another node, until they are sent.
use million.Prelude.{ℕ, ◌≡◌, Bool, true, none, some, List, [], ◌∷◌, ◌++◌, refl, subst, sym}
use mathlib.Core.List.{map}
use million.Prelude.Maps.{find, assign, emplace, erase, erase-assign}
use million.Cluster.Duplicate.{create_fresh, node_id_of-set_node_id, find_created}
use million.Cluster.{
  ClusterService, ClusterMessage, Effect, notify, connect, handshake_request, set_node_id,
  find_queue, flush_queue, handle_messages, connected, handle_handshake_response,
  find_service_endpoint,
}
use million.Cluster.Queues.{
  all_for, send_each, handle_first_messages, connected_lem, find_queue-assign, with_connection,
}

module _ (alive : ℕ → Bool) (name : ℕ) where
  -- The queue is flushed on the session of its endpoint.
  flush_sends :
      (endpoint session : ℕ) (ms : List ClusterMessage) (effects : List Effect) (c : ClusterService)
      → all_for alive name ms ≡ true
      → find name c.service_name_to_node_session ≡ some session
      → find endpoint c.queues ≡ none
      → find_queue session c.queues ≡ none
      → flush_queue alive (
        record c {
          queues = assign endpoint (record { node_session = some session; elements = ms }) c.queues;
        },
        effects,
        session,
      )
        ≡ some (record c { queues = erase endpoint c.queues }, effects ++ map (notify session) ms)
  unfolding flush_queue
  flush_sends endpoint session ms effects c h r n f =
      rw
        (
          find_queue-assign endpoint session ms c.queues n f,
          flush_queue,
          erase-assign endpoint (record { node_session = some session; elements = ms }) c.queues,
          send_each alive name session ms (record c { queues = erase endpoint c.queues }) h r,
        )
        refl

  -- The service when the handshake is over.
  contacted : ℕ → ℕ → ℕ → ClusterService → ClusterService
  contacted endpoint session target c = record c {
    node_ids = assign session target c.node_ids;
    nodes = emplace target session c.nodes;
    service_name_to_node_session = emplace name session c.service_name_to_node_session;
    queues = erase endpoint c.queues;
  }

  response_sends :
      (endpoint session target : ℕ) (ms : List ClusterMessage) (c : ClusterService)
      → all_for alive name ms ≡ true
      → find name c.service_name_to_node_session ≡ none
      → find endpoint c.queues ≡ none
      → find_queue session c.queues ≡ none
      → find target c.nodes ≡ none
      → handle_handshake_response alive session target (with_connection name endpoint session ms c)
        ≡ some (contacted endpoint session target c, map (notify session) ms)
  unfolding handle_handshake_response with_connection contacted
  response_sends endpoint session target ms c h r n f t =
      let c' = set_node_id session target (with_connection name endpoint session ms c) in
      subst
        (λ x.
          flush_queue alive x ≡ some (contacted endpoint session target c, map (notify session) ms))
        (sym (
          create_fresh session true target c'
            (node_id_of-set_node_id session target (with_connection name endpoint session ms c)) t))
        (flush_sends endpoint session ms []
          (record c {
            node_ids = assign session target c.node_ids;
            nodes = emplace target session c.nodes;
            service_name_to_node_session = emplace name session c.service_name_to_node_session;
          })
          h (find_created name session c.service_name_to_node_session r) n f)

  -- Messages for a service of another node, with live senders, before there is a connection or a
  -- queue for its endpoint: the first has the connection made, and all wait. When the connection is
  -- there, a handshake is asked for. When the node answers, with which there was no connection, all
  -- are sent on the session in their order. The service and the node then have the session.
  pub first_contact :
      (endpoint session target : ℕ) (m : ClusterMessage) (ms : List ClusterMessage)
      (c : ClusterService)
      → all_for alive name (m ∷ ms) ≡ true
      → find name c.service_name_to_node_session ≡ none
      → find_service_endpoint name c ≡ some endpoint
      → find endpoint c.queues ≡ none
      → find_queue session c.queues ≡ none
      → find target c.nodes ≡ none
      → (let (waiting, first) = handle_messages alive (m ∷ ms) c in
          let (linked, asked) = connected name endpoint (some session) waiting in
          (first ≡ connect name endpoint ∷ [])
          × (asked ≡ handshake_request session c.node_id ∷ [])
          × ((after : ClusterService) × (handle_handshake_response alive session target linked
                ≡ some (after, map (notify session) (m ∷ ms)))
              × (find name after.service_name_to_node_session ≡ some session)
              × (find target after.nodes ≡ some session)))
  unfolding contacted
  first_contact endpoint session target m ms c h r e n f t =
      rw
        (
          handle_first_messages alive name endpoint m ms c h r e n,
          connected_lem alive name endpoint session (m ∷ ms) c,
        )
        (
          refl,
          refl,
          (
            contacted endpoint session target c,
            response_sends endpoint session target (m ∷ ms) c h r n f t,
            find_created name session c.service_name_to_node_session r,
            find_created target session c.nodes t,
          ),
        )

  -- A message that comes between the connection and the answer to the handshake is sent at once, while
  -- those that came before it stay in the queue.
  pub overtakes_queue :
      (endpoint session : ℕ) (later : ClusterMessage) (m : ClusterMessage)
      (ms : List ClusterMessage) (c : ClusterService)
      → all_for alive name (m ∷ ms) ≡ true
      → all_for alive name (later ∷ []) ≡ true
      → find name c.service_name_to_node_session ≡ none
      → find_service_endpoint name c ≡ some endpoint
      → find endpoint c.queues ≡ none
      → find_queue session c.queues ≡ none
      → (let linked =
            (connected name endpoint (some session) (handle_messages alive (m ∷ ms) c).0).0 in
          (handle_messages alive (later ∷ []) linked ≡ (linked, notify session later ∷ []))
          × (find_queue session linked.queues ≡ some (endpoint, m ∷ ms)))
  unfolding with_connection
  overtakes_queue endpoint session later m ms c h l r e n f =
      rw
        (
          handle_first_messages alive name endpoint m ms c h r e n,
          connected_lem alive name endpoint session (m ∷ ms) c,
        )
        (
          send_each alive name session (later ∷ [])
              (with_connection name endpoint session (m ∷ ms) c) l
              (find_created name session c.service_name_to_node_session r),
          find_queue-assign endpoint session (m ∷ ms) c.queues n f,
        )
