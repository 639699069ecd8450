-- ===== src/Cluster/Packets.antt =====
-- module/cluster/src/cluster_service.h: the packets of the cluster service, which are sent in parts,
-- and how a packet that a connection has received is taken apart. A header is the bytes that
-- protobuf writes of a ss::MsgBody, and a body those of ProtoCodec.EncodeMessage.
pub mod Parts
pub mod Torn
mod Tests
use million.Prelude.{
  ℕ, ◌+◌, ◌%◌, ◌^◌, Option, none, some, List, [], ◌∷◌, ◌++◌, ltb, if◌then◌else◌, length, take, drop,
}
use million.TcpConnection.{SendPacket, wire_u32, read_u32}

-- PacketHeaderInit: the size of the header, under the size of the whole.
unfoldable pub packet_header_init : List ℕ → List ℕ → SendPacket
packet_header_init header_packet forward_packet = record {
  span = wire_u32 (length header_packet % 2 ^ 32);
  total_size = (4 + length header_packet + length forward_packet) % 2 ^ 32;
}

-- `Send(packet, span, 0)`.
abbrev pub send_part : List ℕ → SendPacket
send_part packet = record { span = packet; total_size = 0 }

-- What the handlers of the handshake send.
unfoldable pub send_handshake : List ℕ → List SendPacket
unfolding packet_header_init
send_handshake packet = packet_header_init packet [] ∷ send_part packet ∷ []

-- What SendClusterSendNotify, SendClusterCallNotify and SendClusterReplyNotify send.
unfoldable pub send_notify : List ℕ → List ℕ → List SendPacket
unfolding packet_header_init
send_notify header_packet packet =
    packet_header_init header_packet packet ∷ send_part header_packet ∷ send_part packet ∷ []

-- What ClusterTcpRecvPacketMsg makes of a packet: the connection is closed; the header is read past
-- the end of the packet; or a header and the bytes that follow it.
pub data Received : Type 0 where
  invalid_size read_past_end : Received
  parts : List ℕ → List ℕ → Received

unfoldable pub receive_packet : List ℕ → Received
receive_packet (a ∷ b ∷ c ∷ d ∷ rest) =
    let header_size = read_u32 a b c d in
    if ltb (length rest) header_size
    then read_past_end
    else parts (take header_size rest) (drop header_size rest)
receive_packet _ = invalid_size
