-- ===== src/Cluster/Queues.antt =====
-- The queues of messages for endpoints that are not connected yet.
use million.Prelude.{
  ℕ, ◌≡◌, Bool, true, ◌&&◌, none, some, List, [], ◌∷◌, ◌++◌, ◌==◌, arith, refl, ◌∙◌,
}
use mathlib.Core.List.{map, append-nil, append_assoc}
use million.Prelude.Maps.{assign-assign, find, assign, emplace, find_assigned}
use million.Cluster.{
  ClusterService, ClusterMessage, MessageQueue, notify, connect, handshake_request, find_queue,
  handle_message, handle_messages, connected, find_service_endpoint, enqueue,
}

-- All messages are for one service, and their senders are alive.
unfoldable pub all_for : (ℕ → Bool) → ℕ → List ClusterMessage → Bool
all_for alive name [] = true
all_for alive name (m ∷ ms) =
    alive m.sender && (m.target_service_name_id == name) && all_for alive name ms

unfoldable pub with_queue : ℕ → MessageQueue → ClusterService → ClusterService
with_queue endpoint q c = record c { queues = assign endpoint q c.queues }

-- The service once a connection to the endpoint is there.
unfoldable pub with_connection : ℕ → ℕ → ℕ → List ClusterMessage → ClusterService → ClusterService
with_connection name endpoint session ms c = record c {
  service_name_to_node_session = emplace name session c.service_name_to_node_session;
  queues = assign endpoint (record { node_session = some session; elements = ms }) c.queues;
}

enqueue_one :
    (endpoint : ℕ) (q : MessageQueue) (m : ClusterMessage) (c : ClusterService)
    → enqueue endpoint m (with_queue endpoint q c)
      ≡ (with_queue endpoint (record q { elements = q.elements ++ m ∷ [] }) c, [])
unfolding enqueue with_queue
enqueue_one endpoint q m c =
    rw
      (
        find_assigned endpoint q c.queues,
        enqueue,
        assign-assign endpoint (record q { elements = q.elements ++ m ∷ [] }) q c.queues,
      )
      refl

pub find_queue-assign :
    (endpoint session : ℕ) (ms : List ClusterMessage) (qs : List (ℕ × MessageQueue))
    → find endpoint qs ≡ none
    → find_queue session qs ≡ none
    → find_queue session
        (assign endpoint (record { node_session = some session; elements = ms }) qs)
      ≡ some (endpoint, ms)
unfolding find_queue find assign
find_queue-assign endpoint session ms [] n f = ground arith
find_queue-assign endpoint session ms ((e, q) ∷ qs) n f =
    ground (arith, find_queue-assign endpoint session ms qs)

module _ (alive : ℕ → Bool) (name : ℕ) where
  -- On a service with a connection each message is sent at once.
  pub send_each :
      (session : ℕ) (ms : List ClusterMessage) (c : ClusterService)
      → all_for alive name ms ≡ true
      → find name c.service_name_to_node_session ≡ some session
      → handle_messages alive ms c ≡ (c, map (notify session) ms)
  unfolding handle_messages handle_message all_for
  send_each session [] c h r = refl
  send_each session (m ∷ ms) c h r = ground (arith, send_each session ms c)

  handle_queued :
      (endpoint : ℕ) (q : MessageQueue) (m : ClusterMessage) (c : ClusterService)
      → alive m.sender ≡ true
      → m.target_service_name_id ≡ name
      → find name c.service_name_to_node_session ≡ none
      → find_service_endpoint name c ≡ some endpoint
      → handle_message alive m (with_queue endpoint q c)
        ≡ (with_queue endpoint (record q { elements = q.elements ++ m ∷ [] }) c, [])
  unfolding handle_message with_queue find_service_endpoint
  handle_queued endpoint q m c a t r e =
      let same : handle_message alive m (with_queue endpoint q c)
          ≡ enqueue endpoint m (with_queue endpoint q c) =
        ground arith in
      same ∙ enqueue_one endpoint q m c

  -- On one without, it is queued behind those that wait for the same endpoint.
  enqueue_each :
      (endpoint : ℕ) (q : MessageQueue) (ms : List ClusterMessage) (c : ClusterService)
      → all_for alive name ms ≡ true
      → find name c.service_name_to_node_session ≡ none
      → find_service_endpoint name c ≡ some endpoint
      → handle_messages alive ms (with_queue endpoint q c)
        ≡ (with_queue endpoint (record q { elements = q.elements ++ ms }) c, [])
  unfolding handle_messages all_for
  enqueue_each endpoint q [] c h r e = rw (append-nil q.elements) refl
  enqueue_each endpoint q (m ∷ ms) c h r e =
      let a : alive m.sender ≡ true = ground arith in
      let t : m.target_service_name_id ≡ name = ground arith in
      let all : all_for alive name ms ≡ true = ground arith in
      rw
        (
          handle_queued endpoint q m c a t r e,
          enqueue_each endpoint (record q { elements = q.elements ++ m ∷ [] }) ms c all r e,
          append_assoc q.elements (m ∷ []) ms,
        )
        refl

  -- The first message for an endpoint has a connection made.
  handle_first :
      (endpoint : ℕ) (m : ClusterMessage) (c : ClusterService)
      → alive m.sender ≡ true
      → m.target_service_name_id ≡ name
      → find name c.service_name_to_node_session ≡ none
      → find_service_endpoint name c ≡ some endpoint
      → find endpoint c.queues ≡ none
      → handle_message alive m c ≡ (
        with_queue endpoint (record { node_session = none; elements = m ∷ [] }) c,
        connect name endpoint ∷ [],
      )
  unfolding handle_message with_queue enqueue
  handle_first endpoint m c a t r e n = ground arith

  -- What waits while the connection is made.
  pub handle_first_messages :
      (endpoint : ℕ) (m : ClusterMessage) (ms : List ClusterMessage) (c : ClusterService)
      → all_for alive name (m ∷ ms) ≡ true
      → find name c.service_name_to_node_session ≡ none
      → find_service_endpoint name c ≡ some endpoint
      → find endpoint c.queues ≡ none
      → handle_messages alive (m ∷ ms) c ≡ (
        with_queue endpoint (record { node_session = none; elements = m ∷ ms }) c,
        connect name endpoint ∷ [],
      )
  unfolding handle_messages all_for
  handle_first_messages endpoint m ms c h r e n =
      let a : alive m.sender ≡ true = ground arith in
      let t : m.target_service_name_id ≡ name = ground arith in
      let all : all_for alive name ms ≡ true = ground arith in
      let q : MessageQueue = record { node_session = none; elements = m ∷ [] } in
      rw (handle_first endpoint m c a t r e n, enqueue_each endpoint q ms c all r e) refl

  pub connected_lem :
      (endpoint session : ℕ) (ms : List ClusterMessage) (c : ClusterService)
      → connected name endpoint
          (some session)
          (with_queue endpoint (record { node_session = none; elements = ms }) c)
        ≡ (with_connection name endpoint session ms c, handshake_request session c.node_id ∷ [])
  unfolding connected with_queue with_connection
  connected_lem endpoint session ms c =
      let q : MessageQueue = record { node_session = none; elements = ms } in
      let q' : MessageQueue = record { node_session = some session; elements = ms } in
      rw (find_assigned endpoint q c.queues, connected, assign-assign endpoint q' q c.queues) refl
