-- ===== src/Cluster/Duplicate.antt =====
-- Two connections between the same nodes.
use million.Prelude.{
  ℕ, ◌≡◌, ◌≢◌, ◌≤◌, Bool, true, false, none, some, List, [], ◌∷◌, ltb, if◌then◌else◌, arith, refl,
  subst, sym,
}
use million.Prelude.Maps.{
  find, assign, emplace, find-assign, find-emplace, find-erase, absent_of_find,
}
use million.Cluster.{
  ClusterService, Effect, close, handshake_response, node_id_of, create_node_session,
  disconnect_old, delete_node_session, handle_handshake_request, handle_handshake_response,
  set_node_id, find_queue, flush_queue,
}

pub create_fresh :
    (session : ℕ) (active : Bool) (target : ℕ) (c : ClusterService)
    → node_id_of session c ≡ target
    → find target c.nodes ≡ none
    → create_node_session session active c
      ≡ (record c { nodes = emplace target session c.nodes }, [], session)
unfolding create_node_session
create_fresh session active target c e h = ground arith

create_duplicate :
    (session : ℕ) (active : Bool) (target : ℕ) (c : ClusterService) (old : ℕ)
    → node_id_of session c ≡ target
    → find target c.nodes ≡ some old
    → create_node_session session active c ≡ (
        if disconnect_old active c.node_id target
        then (record c { nodes = assign target session c.nodes }, close old ∷ [], session)
        else (c, close session ∷ [], old))
unfolding create_node_session
create_duplicate session active target c old e h = ground arith

-- After the first connection with the node the map has it.
pub find_created :
    (target session : ℕ) (nodes : List (ℕ × ℕ))
    → find target nodes ≡ none
    → find target (emplace target session nodes) ≡ some session
find_created target session nodes h =
    ground (arith, find-emplace target target session nodes, absent_of_find target nodes h)

pub node_id_of-set_node_id :
    (session id : ℕ) (c : ClusterService) → node_id_of session (set_node_id session id c) ≡ id
node_id_of-set_node_id session id c = ground (arith, find-assign session session id c.node_ids)

-- A second connection with the node of the first.
second_connection :
    (first second target : ℕ) (active : Bool) (c : ClusterService)
    → node_id_of second c ≡ target
    → find target c.nodes ≡ none
    → (let next =
          create_node_session second active (record c { nodes = emplace target first c.nodes }) in
        let replaced = disconnect_old active c.node_id target in
        (find target next.0.nodes ≡ some (if replaced then second else first))
        × (next.1 ≡ close (if replaced then first else second) ∷ []))
second_connection first second target active c e h =
    let found = find_created target first c.nodes h in
    rw
      (create_duplicate second active target (record c { nodes = emplace target first c.nodes })
        first e found)
      (ground (arith, find-assign target target second (emplace target first c.nodes)))

-- Two nodes connect to each other at the same time. In whichever order a node completes the
-- connection that it made and the one that it accepted, it keeps the one made by the node with the
-- larger id, and closes the other.
pub crossing_connections :
    (made accepted target : ℕ) (c : ClusterService)
    → c.node_id ≢ target
    → node_id_of made c ≡ target
    → node_id_of accepted c ≡ target
    → find target c.nodes ≡ none
    → (let first_made = create_node_session made true c in
        let then_accepted = create_node_session accepted false first_made.0 in
        let first_accepted = create_node_session accepted false c in
        let then_made = create_node_session made true first_accepted.0 in
        let kept = if ltb target c.node_id then made else accepted in
        let closed = if ltb target c.node_id then accepted else made in
        (find target then_accepted.0.nodes ≡ some kept)
        × (then_accepted.1 ≡ close closed ∷ [])
        × (find target then_made.0.nodes ≡ some kept)
        × (then_made.1 ≡ close closed ∷ []))
unfolding disconnect_old
crossing_connections made accepted target c ne m a none_yet =
    let later_accepted = second_connection made accepted target false c a none_yet in
    let later_made = second_connection accepted made target true c m none_yet in
    rw (create_fresh made true target c m none_yet, create_fresh accepted false target c a none_yet)
      (
        ground (arith, later_accepted.0),
        ground (arith, later_accepted.1),
        later_made.0,
        later_made.1,
      )

-- A node has a connection with a node whose id is not larger than its own, and is asked for a
-- handshake on a new one by that node. Then it closes both, and keeps the closed old one as the
-- connection with that node.
pub request_closes_both :
    (session src old : ℕ) (c : ClusterService)
    → find src c.nodes ≡ some old
    → src ≤ c.node_id
    → (let (after, effects) = handle_handshake_request session src c in
        (effects ≡ close old ∷ handshake_response session c.node_id ∷ close session ∷ [])
        × (find src after.nodes ≡ some old))
unfolding handle_handshake_request disconnect_old
request_closes_both session src old c h le = ground (
  arith,
  create_duplicate session false src (set_node_id session src c) old
      (node_id_of-set_node_id session src c) h,
)

-- A duplicate replaces the connection with a node. When the old one, which was closed, is reported
-- as disconnected, the new one is removed: the node then has no connection.
pub late_disconnect :
    (session old target : ℕ) (active : Bool) (c : ClusterService)
    → node_id_of session c ≡ target
    → node_id_of old c ≡ target
    → find target c.nodes ≡ some old
    → disconnect_old active c.node_id target ≡ true
    → (let (after, effects, kept) = create_node_session session active c in
        (effects ≡ close old ∷ [])
        × (find target after.nodes ≡ some session)
        × (find target (delete_node_session old after).nodes ≡ none))
unfolding delete_node_session
late_disconnect session old target active c e o h d = ground (
  arith,
  create_duplicate session active target c old e h,
  find-assign target target session c.nodes,
  find-erase target target (assign target session c.nodes),
)

flush_nothing :
    (alive : ℕ → Bool) (c : ClusterService) (effects : List Effect) (kept : ℕ)
    → find_queue kept c.queues ≡ none
    → flush_queue alive (c, effects, kept) ≡ none
unfolding flush_queue
flush_nothing alive c effects kept q = rw (q, flush_queue) refl

-- The response to a handshake arrives on a connection that the node gives up for the one that it has
-- with that node, and no queue waits for the latter. Then the handler has no queue to send.
pub response_without_queue :
    (alive : ℕ → Bool) (session target old : ℕ) (c : ClusterService)
    → find target c.nodes ≡ some old
    → c.node_id ≤ target
    → find_queue old c.queues ≡ none
    → handle_handshake_response alive session target c ≡ none
unfolding handle_handshake_response disconnect_old
response_without_queue alive session target old c h le q =
    let kept : create_node_session session true (set_node_id session target c)
        ≡ (set_node_id session target c, close session ∷ [], old) =
      ground (
        arith,
        create_duplicate session true target (set_node_id session target c) old
            (node_id_of-set_node_id session target c) h,
      ) in
    subst (λ r. flush_queue alive r ≡ none) (sym kept)
      (flush_nothing alive (set_node_id session target c) (close session ∷ []) old q)
