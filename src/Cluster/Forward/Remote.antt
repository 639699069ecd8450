-- ===== src/Cluster/Forward/Remote.antt =====
-- A call to a service of another node, and its answer.
use million.Prelude.{ℕ, ◌+◌, ◌≤◌, ◌≡◌, true, some, List, [], ◌∷◌, length, map, refl, sym, ap, ◌∙◌}
use mathlib.Core.List.{append-nil}
use million.ProtoCodec.{Protobuf, ProtoCodec, encode_message}
use million.ProtoCodec.Registry.{IsRegistry}
use million.ProtoCodec.RoundTrip.{decode_message-encode_message}
use million.TcpConnection.{AsyncRead, ReadsAll, SendPacket, process, write_all, packet_max_size}
use million.Cluster.Packets.{send_notify, parts, receive_packet}
use million.Cluster.Packets.Parts.{none_left, fits, notifies_arrive, send_notifies}
use million.Cluster.Forward.{
  Header, cluster_call, cluster_reply, HeaderFormat, Services, Action, sends_and_waits, replies,
  send_cluster, handle_recv, call_answered, recv_packet,
}

module _ (pb : Protobuf) (async_read : AsyncRead) (asio : ReadsAll async_read) where
  open pb use {Msg, descriptor, serialize, parse, has_prototype}

  one_notify :
      (header body : List ℕ)
      → 4 + length header + length body ≤ packet_max_size
      → map receive_packet (process async_read (write_all (send_notify header body)))
        ≡ parts header body ∷ []
  unfolding send_notifies
  one_notify header body m =
      ap (λ (qs : List SendPacket). map receive_packet (process async_read (write_all qs)))
        (sym (append-nil (send_notify header body)))
      ∙ notifies_arrive async_read asio {ps = (header, body) ∷ []} (fits m none_left)

  -- A service with the id `src` calls a service of another node by its name, and that answers. If both
  -- nodes have the same message types, protobuf reads the headers and the two messages as they were
  -- written, the packets are not too large, and both services are there: the other node sends the
  -- message to the service of that name under the session of the call and waits, and when it has been
  -- answered the first node replies with the answer to the calling service under that session.
  pub remote_call :
      (format : HeaderFormat) (near far : Services) (codec : ProtoCodec) (m answer : Msg)
      (src name session caller target : ℕ) (packet packet' : List ℕ)
      → IsRegistry codec
      → ((h : Header) → format.read (format.write h) ≡ some h)
      → encode_message pb m codec ≡ some packet
      → encode_message pb answer codec ≡ some packet'
      → has_prototype (descriptor m) ≡ true
      → parse (descriptor m) (serialize m) ≡ some m
      → has_prototype (descriptor answer) ≡ true
      → parse (descriptor answer) (serialize answer) ≡ some answer
      → 4 + length (format.write (cluster_call src name session)) + length packet ≤ packet_max_size
      → 4
          + length (format.write (cluster_reply (far.service_id target) src session))
          + length packet'
        ≤ packet_max_size
      → far.find_by_name_id name ≡ some target
      → far.is_alive target ≡ true
      → near.find_by_id src ≡ some caller
      → (sent replied : List SendPacket) × (send_cluster pb format codec
            (cluster_call src name session)
            m
          ≡ some sent)
        × (map
              (recv_packet pb format far codec)
              (map receive_packet (process async_read (write_all sent)))
            ≡ sends_and_waits target session m ∷ [])
        × (call_answered pb format far codec target src session answer ≡ some replied)
        × (map
              (recv_packet pb format near codec)
              (map receive_packet (process async_read (write_all replied)))
            ≡ replies caller session answer ∷ [])
  unfolding send_cluster call_answered recv_packet handle_recv
  remote_call format near far codec m answer src name session caller target packet packet' ok law e
        e' p b p' b' l l' f a g =
      let call = cluster_call src name session in
      let reply = cluster_reply (far.service_id target) src session in
      let (ids, i, d) = decode_message-encode_message pb m codec packet ok p b e in
      let (ids', i', d') = decode_message-encode_message pb answer codec packet' ok p' b' e' in
      let forwarded : recv_packet pb format far codec (parts (format.write call) packet)
          ≡ sends_and_waits target session m =
        rw (law call, f, a, d, recv_packet, handle_recv) refl in
      let replied : recv_packet pb format near codec (parts (format.write reply) packet')
          ≡ replies caller session answer =
        rw (law reply, g, d', recv_packet, handle_recv) refl in
      (
        send_notify (format.write call) packet,
        send_notify (format.write reply) packet',
        rw (e, send_cluster) refl,
        ap (map (recv_packet pb format far codec)) (one_notify (format.write call) packet l)
            ∙ ap (λ (x : Action pb). x ∷ []) forwarded,
        rw (e', call_answered, send_cluster) refl,
        ap (map (recv_packet pb format near codec)) (one_notify (format.write reply) packet' l')
            ∙ ap (λ (x : Action pb). x ∷ []) replied,
      )
