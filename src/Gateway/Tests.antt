-- ===== src/Gateway/Tests.antt =====
-- The gateway at concrete inputs: users 1 and 2 with the agent ids 11 and 12.
use million.Prelude.{ℕ, ◌≡◌, ◌⊎◌, Bool, true, false, some, List, [], ◌∷◌, map, arith, refl}
use million.Prelude.Maps.{find, contains, assign}
use million.ProtoCodec.{
  Protobuf, ProtoCodec, encode_message, find_message_key, store_u32, host_to_network_u32,
}
use million.ProtoCodec.Registry.{IsRegistry}
use million.TcpConnection.{process, write_all}
use million.TcpConnection.Stream.{read_bytes, read_bytes-ReadsAll}
use million.Gateway.{
  UserSession, new_user_session, gateway_tcp_connection, gateway_send_packet,
  gateway_reset_agent_id, gateway_persistent_user_session, GatewayService, process_next,
  process_element, handle, tcp_connection, push_element, set_user, set_agent_id, reply_received,
}
use million.Gateway.Isolation.{
  new_gateway, sent, replied, open_step, process_step, Reach, start, next, reply_reaches_owner,
}
use million.Gateway.Kept.{IsFresh}
use million.Gateway.Client.{none_left, fits, encoded, reply_all, with_header, client_receives}

abbrev tagged : Protobuf
tagged = record {
  Msg = ℕ × List ℕ;
  descriptor = λ m. m.0;
  serialize = λ m. m.1;
  parse = λ desc body. some (desc, body);
  has_prototype = λ desc. true;
}

abbrev registry : ProtoCodec
registry = record { msg_desc_map = (0x30002, 102) ∷ []; msg_id_map = (102, 0x30002) ∷ [] }

registry-IsRegistry : IsRegistry registry
unfolding IsRegistry find
registry-IsRegistry desc key e = ground arith

abbrev none_alive : ℕ → Bool
none_alive h = false

-- Both connections are open, and the first messages are processed.
abbrev opened : GatewayService tagged
opened =
    push_element tagged (sent tagged 1 (gateway_tcp_connection 1))
      (set_user tagged 1 new_user_session (new_gateway tagged registry))

abbrev both_opened : GatewayService tagged
both_opened =
    push_element tagged (sent tagged 2 (gateway_tcp_connection 2))
      (set_user tagged 2 new_user_session opened)

abbrev first_known : GatewayService tagged
first_known = process_next tagged none_alive 11 both_opened

abbrev both_known : GatewayService tagged
both_known = process_next tagged none_alive 12 first_known

-- No message of these asks for an agent id.
no_reset : (u : ℕ) (given : List (ℕ × ℕ)) → IsFresh tagged (gateway_tcp_connection u) given
unfolding IsFresh
no_reset u given = λ id e. ground arith

both_known-Reach : Reach tagged both_known
unfolding process_next process_element handle tcp_connection push_element set_user set_agent_id find
    assign contains
both_known-Reach =
    next
      (next (next (next (start registry) (open_step 1 1 refl refl)) (open_step 2 2 refl refl)) (
        process_step none_alive 11 (sent tagged 1 (gateway_tcp_connection 1))
          (sent tagged 2 (gateway_tcp_connection 2) ∷ []) refl refl (no_reset 1 []) refl))
      (process_step none_alive 12 (sent tagged 2 (gateway_tcp_connection 2))
        (sent tagged 11 (gateway_persistent_user_session 1) ∷ []) refl refl
        (no_reset 2 ((11, 1) ∷ [])) refl)

abbrev second : UserSession
second = record new_user_session { agent_id = 12 }

reply_reaches_owner_example :
    (find 2 (reply_received tagged 11 (gateway_send_packet (7 ∷ [])) both_known).users
      ≡ some second)
    × ((second.agent_id ≡ 0) ⊎ (¬ (second.agent_id ≡ 11)))
unfolding process_next process_element handle tcp_connection push_element set_user set_agent_id find
    assign contains
reply_reaches_owner_example =
    reply_reaches_owner tagged both_known 11 1 2 (gateway_send_packet (7 ∷ [])) second
      both_known-Reach refl (omega arith) refl

-- User 1 under the agent id 11, whose connection has closed, and a reply that resets the agent id.
abbrev closed : GatewayService tagged
closed = record {
  codec = registry;
  user_service = 5;
  queue =
      sent tagged 1 (gateway_tcp_connection 1) ∷ replied tagged 11 (gateway_reset_agent_id 20) ∷ [];
  users = (1, record new_user_session { connected = false; agent_id = 11 }) ∷ [];
  tasks = (11, 1) ∷ [];
  agent_ids = (11, 1) ∷ [];
  forwarded = [];
}

-- The same user while the connection is open.
abbrev waiting_user : UserSession
waiting_user = record new_user_session { agent_id = 11 }

abbrev waits : GatewayService tagged
waits = record closed { queue = []; users = (1, waiting_user) ∷ [] }

client_receives_example :
    (y : UserSession) × (find 1 (reply_all tagged 11 ((102, 7 ∷ []) ∷ (102, []) ∷ []) waits).users
      ≡ some y)
    × (process read_bytes (write_all y.sends)
        ≡ map with_header ((0 ∷ 3 ∷ 0 ∷ 2 ∷ 7 ∷ []) ∷ (0 ∷ 3 ∷ 0 ∷ 2 ∷ []) ∷ []))
unfolding encode_message find_message_key find store_u32 host_to_network_u32
client_receives_example =
    client_receives tagged read_bytes read_bytes-ReadsAll 11 1 waiting_user
      ((102, 7 ∷ []) ∷ (102, []) ∷ []) ((0 ∷ 3 ∷ 0 ∷ 2 ∷ 7 ∷ []) ∷ (0 ∷ 3 ∷ 0 ∷ 2 ∷ []) ∷ []) waits
      refl refl refl (encoded refl (encoded refl none_left))
      (fits (omega arith) (fits (omega arith) none_left))
