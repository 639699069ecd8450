-- ===== src/Cluster.antt =====
-- module/cluster/src/cluster_service.h: the connections to other nodes and the messages that wait for
-- one. A NodeSession is given by its address; the node ids of all sessions are in `node_ids`. What
-- the service asks of its connections is a list of effects. Which senders are alive is an argument.
pub mod Queues
pub mod Contact
pub mod Duplicate
pub mod Packets
pub mod Forward
mod Tests
use million.Prelude.{
  ℕ, Bool, true, false, not, Option, none, some, List, [], ◌∷◌, ◌++◌, ltb, ◌==◌, if◌then◌else◌,
}
use million.Prelude.Maps.{find, contains, erase, emplace, assign}

-- ClusterSendMessage and ClusterCallMessage differ in the notification that is sent for them.
pub data Notify : Type 0 where
  cluster_send cluster_call : Notify

-- A message for a service of another node, with its sender and session.
pub record ClusterMessage : Type 0 where
  pub sender : ℕ
  pub session_id : ℕ
  pub kind : Notify
  pub target_service_name_id : ℕ
  pub proto_msg : ℕ

pub data Effect : Type 0 where
  -- session->Close().
  close : ℕ → Effect
  -- HandshakeRequest and HandshakeResponse with the id of this node, on a session.
  handshake_request handshake_response : ℕ → ℕ → Effect
  -- SendClusterSendNotify or SendClusterCallNotify of a message on a session.
  notify : ℕ → ClusterMessage → Effect
  -- server_.ConnectTo(endpoint) for a service, in an io thread.
  connect : ℕ → ℕ → Effect

pub record MessageQueue : Type 0 where
  pub node_session : Option ℕ
  pub elements : List ClusterMessage

pub record ClusterService : Type 0 where
  pub node_id : ℕ
  pub node_ids : List (ℕ × ℕ)  -- NodeSession::node_id
  pub nodes : List (ℕ × ℕ)  -- by node id
  pub service_name_to_node_session : List (ℕ × ℕ)
  pub service_name_code_to_endpoints : List (ℕ × List ℕ)
  pub queues : List (ℕ × MessageQueue)  -- node_session_message_queue_map_, by endpoint

abbrev pub node_id_of : ℕ → ClusterService → ℕ
node_id_of session c = elim (find session c.node_ids) [ none ↦ 0 | some id ↦ id ]

-- session->set_node_id(id).
abbrev pub set_node_id : ℕ → ℕ → ClusterService → ClusterService
set_node_id session id c = record c { node_ids = assign session id c.node_ids }

-- Whether the old one of two connections to a node goes, by the end that made the new one.
unfoldable pub disconnect_old : Bool → ℕ → ℕ → Bool
disconnect_old active own target = if active then ltb target own else ltb own target

-- CreateNodeSession(session, active): the service, its effects, and the session that stays.
unfoldable pub create_node_session : ℕ → Bool → ClusterService → ClusterService × List Effect × ℕ
unfolding disconnect_old
create_node_session session active c =
    let target = node_id_of session c in
    elim (find target c.nodes) [
      | none ↦ (record c { nodes = emplace target session c.nodes }, [], session)
      | some old ↦
          if disconnect_old active c.node_id target
          then (record c { nodes = assign target session c.nodes }, close old ∷ [], session)
          else (c, close session ∷ [], old)
    ]

-- FindNodeSession(node_id).
abbrev pub find_node_session : ℕ → ClusterService → Option ℕ
find_node_session id c = find id c.nodes

-- Every entry that leads to the session goes.
unfoldable pub erase_routes : ℕ → List (ℕ × ℕ) → List (ℕ × ℕ)
erase_routes session [] = []
erase_routes session ((name, s) ∷ routes) =
    let rest = erase_routes session routes in if s == session then rest else (name, s) ∷ rest

-- DeleteNodeSession(node_session).
unfoldable pub delete_node_session : ℕ → ClusterService → ClusterService
unfolding erase_routes
delete_node_session session c = record c {
  nodes = erase (node_id_of session c) c.nodes;
  service_name_to_node_session = erase_routes session c.service_name_to_node_session;
}

first_endpoint : List ℕ → Option ℕ
first_endpoint [] = none
first_endpoint (e ∷ es) = some e

-- FindServiceEndpoint(service_name_code): the first endpoint, if there is one.
unfoldable pub find_service_endpoint : ℕ → ClusterService → Option ℕ
unfolding first_endpoint
find_service_endpoint name c = elim (find name c.service_name_code_to_endpoints) [
  | none ↦ none
  | some es ↦ first_endpoint es
]

-- Into the queue of an endpoint, which is made, and the connection started, if there is none.
unfoldable pub enqueue : ℕ → ClusterMessage → ClusterService → ClusterService × List Effect
enqueue endpoint m c = elim (find endpoint c.queues) [
  | none ↦ (
    record c {
      queues = assign endpoint (record { node_session = none; elements = m ∷ [] }) c.queues;
    },
    connect m.target_service_name_id endpoint ∷ [],
  )
  | some q ↦ (
    record c { queues = assign endpoint (record q { elements = q.elements ++ m ∷ [] }) c.queues },
    [],
  )
]

-- HandleClusterCallOrSendMessage, whose `send_notify_function` is that of the message's kind.
unfoldable pub handle_message :
    (ℕ → Bool) → ClusterMessage → ClusterService → ClusterService × List Effect
unfolding enqueue find_service_endpoint
handle_message alive m c =
    if not (alive m.sender)
    then (c, [])
    else elim (find m.target_service_name_id c.service_name_to_node_session) [
      | some session ↦ (c, notify session m ∷ [])
      | none ↦ elim (find_service_endpoint m.target_service_name_id c) [
        | none ↦ (c, [])
        | some endpoint ↦ enqueue endpoint m c
      ]
    ]

-- The end of `ConnectTo` for the queue of an endpoint: `none` where no connection came about.
unfoldable pub connected : ℕ → ℕ → Option ℕ → ClusterService → ClusterService × List Effect
connected name endpoint none c = (record c { queues = erase endpoint c.queues }, [])
connected name endpoint (some session) c = elim (find endpoint c.queues) [
  | none ↦ (c, [])
  | some q ↦ (
    record c {
      service_name_to_node_session = emplace name session c.service_name_to_node_session;
      queues = assign endpoint (record q { node_session = some session }) c.queues;
    },
    handshake_request session c.node_id ∷ [],
  )
]

-- `old_node_session->Close()` if there is one.
abbrev pub close_found : Option ℕ → List Effect
close_found none = []
close_found (some old) = close old ∷ []

-- HandleRecvHandshakeRequest(session, req).
unfoldable pub handle_handshake_request : ℕ → ℕ → ClusterService → ClusterService × List Effect
unfolding create_node_session
handle_handshake_request session src_node_id c =
    let c' = set_node_id session src_node_id c in
    let closed = close_found (find_node_session src_node_id c') in
    let (c'', effects, _) = create_node_session session false c' in
    (c'', closed ++ handshake_response session c.node_id ∷ effects)

abbrev pub is_of : ℕ → MessageQueue → Bool
is_of session q = elim q.node_session [ none ↦ false | some s ↦ s == session ]

-- The search for the queue of a session: its endpoint and its messages.
unfoldable pub find_queue : ℕ → List (ℕ × MessageQueue) → Option (ℕ × List ClusterMessage)
find_queue session [] = none
find_queue session ((endpoint, q) ∷ qs) =
    let rest = find_queue session qs in
    if is_of session q then some (endpoint, q.elements) else rest

-- `MessageDispatch` of the queued messages, one after another.
unfoldable pub handle_messages :
    (ℕ → Bool) → List ClusterMessage → ClusterService → ClusterService × List Effect
handle_messages alive [] c = (c, [])
handle_messages alive (m ∷ ms) c =
    let (c', effects) = handle_message alive m c in
    let (c'', more) = handle_messages alive ms c' in (c'', effects ++ more)

-- The queue of the session that stays is taken out, and its messages are handled.
unfoldable pub flush_queue :
    (ℕ → Bool) → ClusterService × List Effect × ℕ → Option (ClusterService × List Effect)
unfolding find_queue handle_messages
flush_queue alive (c, effects, kept) = elim (find_queue kept c.queues) [
  | none ↦ none
  | some (endpoint, ms) ↦
      let (c', more) = handle_messages alive ms (record c { queues = erase endpoint c.queues }) in
      some (c', effects ++ more)
]

-- HandleRecvHandshakeResponse(session, res). `none`: no queue belongs to the session that stays,
-- where the code asserts that one does, and then uses the end iterator.
unfoldable pub handle_handshake_response :
    (ℕ → Bool) → ℕ → ℕ → ClusterService → Option (ClusterService × List Effect)
unfolding create_node_session flush_queue
handle_handshake_response alive session target_node_id c =
    flush_queue alive (create_node_session session true (set_node_id session target_node_id c))
