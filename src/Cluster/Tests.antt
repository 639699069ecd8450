-- ===== src/Cluster/Tests.antt =====
-- Node 3, which reaches service 0x30001 at endpoint 9.
use million.Prelude.{ℕ, ◌≡◌, refl, true, some, [], ◌∷◌}
use mathlib.Core.List.{map}
use million.Prelude.Maps.{find}
use million.Cluster.{
  ClusterService, ClusterMessage, cluster_call, handshake_request, notify, connect, connected,
  handle_handshake_response, handle_messages, find_queue, find_service_endpoint,
}
use million.Cluster.Queues.{all_for}
use million.Cluster.Contact.{first_contact}

abbrev call_of : ℕ → ClusterMessage
call_of session_id = record {
  sender = 1;
  session_id = session_id;
  kind = cluster_call;
  target_service_name_id = 0x30001;
  proto_msg = 50;
}

abbrev node_three : ClusterService
node_three = record {
  node_id = 3;
  node_ids = [];
  nodes = [];
  service_name_to_node_session = [];
  service_name_code_to_endpoints = (0x30001, 9 ∷ 10 ∷ []) ∷ [];
  queues = [];
}

first_contact_example :
    (let (waiting, first) = handle_messages (λ s. true) (call_of 71 ∷ call_of 72 ∷ []) node_three in
      let (linked, asked) = connected 0x30001 9 (some 100) waiting in
      (first ≡ connect 0x30001 9 ∷ [])
      × (asked ≡ handshake_request 100 3 ∷ [])
      × ((after : ClusterService) × (handle_handshake_response (λ s. true) 100 5 linked
            ≡ some (after, map (notify 100) (call_of 71 ∷ call_of 72 ∷ [])))
          × (find 0x30001 after.service_name_to_node_session ≡ some 100)
          × (find 5 after.nodes ≡ some 100)))
unfolding all_for find find_service_endpoint find_queue
first_contact_example =
    first_contact (λ s. true) 0x30001 9 100 5 (call_of 71) (call_of 72 ∷ []) node_three refl refl
      refl refl refl refl

-- Sessions 100 and 101 are with node 5.
abbrev two_sessions : ClusterService
two_sessions = record node_three { node_ids = (100, 5) ∷ (101, 5) ∷ [] }

-- Session 100 is the connection with node 5, and 102 the one with node 2.
abbrev linked_service : ClusterService
linked_service = record two_sessions { nodes = (5, 100) ∷ (2, 102) ∷ [] }
