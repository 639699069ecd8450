-- ===== src/Cluster/Forward/Tests.antt =====
-- A call to a service of another node at a concrete input.
use million.Prelude.{
  ℕ, ◌≡◌, true, Option, some, none, List, [], ◌∷◌, ◌==◌, if◌then◌else◌, map, arith, refl,
}
use million.Prelude.Maps.{find}
use million.ProtoCodec.{
  Protobuf, ProtoCodec, encode_message, find_message_key, store_u32, host_to_network_u32,
  network_to_host_u32,
}
use million.ProtoCodec.Registry.{IsRegistry}
use million.TcpConnection.{SendPacket, process, write_all}
use million.Cluster.Packets.{receive_packet}
use million.Cluster.Forward.{
  Header, cluster_send, cluster_call, cluster_reply, HeaderFormat, Services, sends_and_waits,
  replies, send_cluster, call_answered, recv_packet,
}
use million.Cluster.Forward.Remote.{remote_call}
use million.TcpConnection.Stream.{read_bytes, read_bytes-ReadsAll}

abbrev tagged : Protobuf
tagged = record {
  Msg = ℕ × List ℕ;
  descriptor = λ m. m.0;
  serialize = λ m. m.1;
  parse = λ desc body. some (desc, body);
  has_prototype = λ desc. true;
}

abbrev registry : ProtoCodec
registry = record { msg_desc_map = (0x30002, 102) ∷ []; msg_id_map = (102, 0x30002) ∷ [] }

registry-IsRegistry : IsRegistry registry
unfolding IsRegistry find
registry-IsRegistry desc key e = ground arith

abbrev write_header : Header → List ℕ
write_header (cluster_send a b c) = 0 ∷ a ∷ b ∷ c ∷ []
write_header (cluster_call a b c) = 1 ∷ a ∷ b ∷ c ∷ []
write_header (cluster_reply a b c) = 2 ∷ a ∷ b ∷ c ∷ []

abbrev read_header : List ℕ → Option Header
read_header (t ∷ a ∷ b ∷ c ∷ []) =
    if t == 0
    then some (cluster_send a b c)
    else if t == 1
    then some (cluster_call a b c)
    else some (cluster_reply a b c)
read_header _ = none

abbrev four_numbers : HeaderFormat
four_numbers = record { write = write_header; read = read_header }

reads_back : (h : Header) → read_header (write_header h) ≡ some h
reads_back (cluster_send a b c) = refl
reads_back (cluster_call a b c) = refl
reads_back (cluster_reply a b c) = refl

abbrev near : Services
near = record {
  find_by_name_id = λ name. none;
  find_by_id = λ id. if id == 11 then some 21 else none;
  is_alive = λ s. true;
  service_id = λ s. 11;
}

abbrev far : Services
far = record {
  find_by_name_id = λ name. if name == 5 then some 31 else none;
  find_by_id = λ id. none;
  is_alive = λ s. true;
  service_id = λ s. 41;
}

remote_call_example :
    (sent replied : List SendPacket) × (send_cluster tagged four_numbers registry
        (cluster_call 11 5 77)
        (102, 7 ∷ [])
      ≡ some sent)
    × (map
          (recv_packet tagged four_numbers far registry)
          (map receive_packet (process read_bytes (write_all sent)))
        ≡ sends_and_waits 31 77 (102, 7 ∷ []) ∷ [])
    × (call_answered tagged four_numbers far registry 31 11 77 (102, 8 ∷ []) ≡ some replied)
    × (map
          (recv_packet tagged four_numbers near registry)
          (map receive_packet (process read_bytes (write_all replied)))
        ≡ replies 21 77 (102, 8 ∷ []) ∷ [])
unfolding encode_message find_message_key find store_u32 host_to_network_u32 network_to_host_u32
remote_call_example =
    remote_call tagged read_bytes read_bytes-ReadsAll four_numbers near far registry (102, 7 ∷ [])
      (102, 8 ∷ []) 11 5 77 21 31 (0 ∷ 3 ∷ 0 ∷ 2 ∷ 7 ∷ []) (0 ∷ 3 ∷ 0 ∷ 2 ∷ 8 ∷ [])
      registry-IsRegistry reads_back refl refl refl refl refl refl (omega arith) (omega arith) refl
      refl refl
