-- ===== src/Gateway.antt =====
-- module/gateway/src/gateway_service.h: the sessions of users. A connection of a user has a coroutine
-- of GatewayPersistentUserSession that waits under the agent id of the user and sends to the client
-- what is replied under it; what the client sends goes to the agent of the user or to the user
-- service, under the agent id. `alive` says whether a handle can be locked, and `new_id` is the
-- session id that a Send makes.
pub mod Given
pub mod Kept
pub mod Isolation
pub mod Client
pub mod Leak
mod Tests
use million.Prelude.{
  ℕ, ◌+◌, ◌%◌, ◌^◌, Bool, true, false, Option, none, some, List, [], ◌∷◌, ◌++◌, ◌==◌, if◌then◌else◌,
  ltb, length, drop, ◌≡◌,
}
use million.Prelude.Maps.{find, contains, erase, emplace, assign}
use million.Session.{session_id_invalid}
use million.TcpConnection.{SendPacket}
use million.ProtoCodec.{Protobuf, ProtoCodec, encode_message, decode_message}

abbrev pub gateway_header_size : ℕ
gateway_header_size = 8

-- net::Packet(kGatewayHeaderSize).
abbrev pub header_packet : List ℕ
header_packet = 0 ∷ 0 ∷ 0 ∷ 0 ∷ 0 ∷ 0 ∷ 0 ∷ 0 ∷ []

-- A UserSession; its connection is open or not, and has been given packets to send.
pub record UserSession : Type 0 where
  pub connected : Bool
  pub agent_id : ℕ
  pub agent_handle : Option ℕ
  pub sends : List SendPacket

abbrev pub new_user_session : UserSession
new_user_session = record {
  connected = true;
  agent_id = session_id_invalid;
  agent_handle = none;
  sends = [];
}

-- The header and a packet: Send(header_packet, span, size of both), Send(packet, span, 0).
unfoldable pub send_to_client : List ℕ → UserSession → UserSession
send_to_client packet x = record x {
  sends =
      x.sends
      ++ record {
        span = header_packet;
        total_size = (length header_packet + length packet) % 2 ^ 32;
      }
        ∷ record { span = packet; total_size = 0 }
        ∷ [];
}

module _ (pb : Protobuf) where
  open pb use {Msg}

  -- A message; a user session is the number of the user.
  pub data GatewayMsg : Type 0 where
    gateway_tcp_connection gateway_persistent_user_session : ℕ → GatewayMsg
    gateway_tcp_recv_packet : ℕ → List ℕ → GatewayMsg
    gateway_register_user_service_req : ℕ → GatewayMsg
    proto_message : Msg → GatewayMsg
    gateway_send_packet : List ℕ → GatewayMsg
    gateway_sure_agent gateway_reset_agent_id : ℕ → GatewayMsg

  -- A message in the queue of the service, sent or replied under a session id.
  pub record Element : Type 0 where
    pub session_id : ℕ
    pub is_reply : Bool
    pub msg : GatewayMsg

  -- SendTo another service.
  pub record Forwarded : Type 0 where
    pub target : ℕ
    pub session_id : ℕ
    pub msg : Msg

  -- The service with its queue, the users, and the coroutines of persistent sessions by the session
  -- ids that they wait for; `agent_ids` has every call of set_agent_id, the last one first.
  pub record GatewayService : Type 0 where
    pub codec : ProtoCodec
    pub user_service : ℕ
    pub queue : List Element
    pub users : List (ℕ × UserSession)
    pub tasks : List (ℕ × ℕ)
    pub agent_ids : List (ℕ × ℕ)
    pub forwarded : List Forwarded

  unfoldable pub push_element : Element → GatewayService → GatewayService
  push_element e s = record s { queue = s.queue ++ e ∷ [] }

  unfoldable pub set_user : ℕ → UserSession → GatewayService → GatewayService
  set_user u x s = record s { users = assign u x s.users }

  unfoldable pub set_agent_id : ℕ → ℕ → UserSession → GatewayService → GatewayService
  set_agent_id id u x s = record s {
    users = assign u (record x { agent_id = id }) s.users;
    agent_ids = (id, u) ∷ s.agent_ids;
  }

  -- The coroutine ends.
  unfoldable pub end_task : ℕ → GatewayService → GatewayService
  end_task id s = record s { tasks = erase id s.tasks }

  -- GatewayPersistentUserSession up to its first wait: the executor takes the task under its id.
  unfoldable pub persistent_started : ℕ → ℕ → GatewayService → GatewayService
  persistent_started id u s =
      if id == session_id_invalid then s else record s { tasks = emplace id u s.tasks }

  -- One round of its loop, for the user `u` with the session `x` under the session id `id`.
  unfoldable pub persistent_received :
      ℕ → ℕ → UserSession → GatewayMsg → GatewayService → GatewayService
  unfolding set_user set_agent_id end_task push_element send_to_client
  persistent_received id u x (proto_message m) s = elim (encode_message pb m s.codec) [
    | none ↦ s
    | some packet ↦ set_user u (send_to_client packet x) s
  ]
  persistent_received id u x (gateway_send_packet packet) s = set_user u (send_to_client packet x) s
  persistent_received id u x (gateway_sure_agent agent_service) s =
      set_user u (record x { agent_handle = some agent_service }) s
  persistent_received id u x (gateway_reset_agent_id agent_id) s = end_task id (
      push_element
        (record {
          session_id = agent_id;
          is_reply = false;
          msg = gateway_persistent_user_session u;
        })
        (set_agent_id agent_id u x s))
  persistent_received id u x (gateway_persistent_user_session v) s = end_task id s
  persistent_received id u x _ s = s

  -- A reply resumes the coroutine that waits under its id; where there is none it is dropped.
  unfoldable pub reply_received : ℕ → GatewayMsg → GatewayService → GatewayService
  unfolding persistent_received
  reply_received id msg s = elim (find id s.tasks) [
    | none ↦ s
    | some u ↦ elim (find u s.users) [ none ↦ s | some x ↦ persistent_received id u x msg s ]
  ]

  -- GatewayTcpConnection.
  unfoldable pub tcp_connection : ℕ → ℕ → UserSession → GatewayService → GatewayService
  unfolding push_element set_agent_id
  tcp_connection new_id u x s =
      if x.connected
      then set_agent_id new_id u x (
          push_element
            (record {
              session_id = new_id;
              is_reply = false;
              msg = gateway_persistent_user_session u;
            })
            s)
      else push_element
          (record {
            session_id = x.agent_id;
            is_reply = true;
            msg = gateway_persistent_user_session u;
          })
          s

  -- The agent of a user, or the user service.
  unfoldable pub packet_target : (ℕ → Bool) → UserSession → GatewayService → ℕ
  packet_target alive x s = elim x.agent_handle [
    | none ↦ s.user_service
    | some h ↦ if alive h then h else s.user_service
  ]

  -- GatewayTcpRecvPacket.
  unfoldable pub tcp_recv_packet :
      (ℕ → Bool) → UserSession → List ℕ → GatewayService → GatewayService
  unfolding packet_target
  tcp_recv_packet alive x packet s =
      if ltb (length packet) gateway_header_size
      then s
      else elim (decode_message pb (drop gateway_header_size packet) s.codec) [
        | none ↦ s
        | some res ↦ record s {
          forwarded =
              s.forwarded
              ++ record { target = packet_target alive x s; session_id = x.agent_id; msg = res.msg }
                ∷ [];
        }
      ]

  -- The handlers; the answer of GatewayRegisterUserServiceReq goes to its sender.
  unfoldable pub handle : (ℕ → Bool) → ℕ → ℕ → GatewayMsg → GatewayService → GatewayService
  unfolding tcp_connection tcp_recv_packet persistent_started
  handle alive new_id id (gateway_tcp_connection u) s = elim (find u s.users) [
    | none ↦ s
    | some x ↦ tcp_connection new_id u x s
  ]
  handle alive new_id id (gateway_tcp_recv_packet u packet) s = elim (find u s.users) [
    | none ↦ s
    | some x ↦ tcp_recv_packet alive x packet s
  ]
  handle alive new_id id (gateway_persistent_user_session u) s = persistent_started id u s
  handle alive new_id id (gateway_register_user_service_req h) s = record s { user_service = h }
  handle alive new_id id _ s = s

  unfoldable pub process_element : (ℕ → Bool) → ℕ → Element → GatewayService → GatewayService
  unfolding handle reply_received
  process_element alive new_id e s =
      if e.is_reply
      then reply_received e.session_id e.msg s
      else handle alive new_id e.session_id e.msg s

  -- The first message of the queue.
  unfoldable pub process_next : (ℕ → Bool) → ℕ → GatewayService → GatewayService
  unfolding process_element
  process_next alive new_id s = elim s.queue [
    | [] ↦ s
    | e ∷ rest ↦ process_element alive new_id e (record s { queue = rest })
  ]
