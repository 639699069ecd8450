-- ===== src/Cluster/Forward.antt =====
-- module/cluster/src/cluster_service.h: the notifications of messages for services of another node,
-- from the sending service to the one that gets the message, and the answers to calls. What protobuf
-- writes of a ss::MsgBody, and the services of a node, are parameters.
pub mod Remote
mod Tests
use million.Prelude.{ℕ, Bool, true, false, Option, none, some, List, [], ◌∷◌, if◌then◌else◌}
use million.ProtoCodec.{Protobuf, ProtoCodec, encode_message, decode_message}
use million.TcpConnection.{SendPacket}
use million.Cluster.Packets.{
  send_notify, Received, invalid_size, read_past_end, parts, receive_packet,
}

-- ss::ClusterSend, ss::ClusterCall and ss::ClusterReply: the service that sends, the one that is to
-- get the message, and the session.
pub data Header : Type 0 where
  cluster_send cluster_call cluster_reply : ℕ → ℕ → ℕ → Header

-- How protobuf writes and reads a header.
pub record HeaderFormat : Type 0 where
  pub write : Header → List ℕ
  pub read : List ℕ → Option Header

-- The services of a node by their names and ids, whether one is still there, and their ids.
pub record Services : Type 0 where
  pub find_by_name_id : ℕ → Option ℕ
  pub find_by_id : ℕ → Option ℕ
  pub is_alive : ℕ → Bool
  pub service_id : ℕ → ℕ

module _ (pb : Protobuf) where
  open pb use {Msg}

  -- What comes of a packet: the connection is closed, the memory behind the packet is read, nothing is
  -- done, a message is sent to a service under a session, for a call an answer is waited for, or a
  -- message is a reply to a service.
  pub data Action : Type 0 where
    closes reads_past_end drops : Action
    sends sends_and_waits replies : ℕ → ℕ → Msg → Action

  -- SendClusterSendNotify, SendClusterCallNotify and SendClusterReplyNotify; `none` where the message
  -- has no encoding.
  unfoldable pub send_cluster : HeaderFormat → ProtoCodec → Header → Msg → Option (List SendPacket)
  send_cluster format codec header msg = elim (encode_message pb msg codec) [
    | none ↦ none
    | some packet ↦ some (send_notify (format.write header) packet)
  ]

  -- HandleRecvClusterSend, HandleRecvClusterCall up to its `Recv`, and HandleRecvClusterReply.
  unfoldable pub handle_recv : Services → ProtoCodec → Header → List ℕ → Action
  handle_recv s codec (cluster_send src name session) body = elim (s.find_by_name_id name) [
    | none ↦ drops
    | some target ↦ elim (decode_message pb body codec) [
      | none ↦ drops
      | some res ↦ sends target session res.msg
    ]
  ]
  handle_recv s codec (cluster_call src name session) body = elim (s.find_by_name_id name) [
    | none ↦ drops
    | some target ↦ elim (s.is_alive target) [
      | false ↦ drops
      | true ↦ elim (decode_message pb body codec) [
        | none ↦ drops
        | some res ↦ sends_and_waits target session res.msg
      ]
    ]
  ]
  handle_recv s codec (cluster_reply src target session) body = elim (s.find_by_id target) [
    | none ↦ drops
    | some handle ↦ elim (decode_message pb body codec) [
      | none ↦ drops
      | some res ↦ replies handle session res.msg
    ]
  ]

  -- HandleRecvClusterCall from the answer on.
  unfoldable pub call_answered :
      HeaderFormat → Services → ProtoCodec → ℕ → ℕ → ℕ → Msg → Option (List SendPacket)
  unfolding send_cluster
  call_answered format s codec target src session msg =
      send_cluster format codec (cluster_reply (s.service_id target) src session) msg

  -- ClusterTcpRecvPacketMsg for the three notifications.
  unfoldable pub recv_packet : HeaderFormat → Services → ProtoCodec → Received → Action
  unfolding handle_recv
  recv_packet format s codec invalid_size = closes
  recv_packet format s codec read_past_end = reads_past_end
  recv_packet format s codec (parts header body) = elim (format.read header) [
    | none ↦ closes
    | some h ↦ handle_recv s codec h body
  ]
