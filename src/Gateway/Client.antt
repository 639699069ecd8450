-- ===== src/Gateway/Client.antt =====
-- What the client of a user receives of gateway_service.h, and what becomes of a packet that it sends.
use million.Prelude.{
  ℕ, ◌+◌, ◌%◌, ◌^◌, ◌≤◌, ◌≡◌, Bool, true, false, some, List, [], ◌∷◌, ◌++◌, ◌==◌, ltb, length,
  length-append, drop-length-append, map, drop, arith, refl, ap, ◌∙◌, subst,
}
use mathlib.Core.List.{append_assoc, append-nil}
use million.Prelude.Maps.{find, find-assign}
use million.TcpConnection.{
  AsyncRead, ReadsAll, SendPacket, send_packet, write_packet, write_all, process, packet_max_size,
}
use million.TcpConnection.Framing.{AllSendable, no_packets, sendable}
use million.TcpConnection.Sending.Delivery.{process_all}
use million.TcpConnection.Sending.Order.{write_all-append}
use million.ProtoCodec.{Protobuf, ProtoCodec, encode_message}
use million.ProtoCodec.Registry.{IsRegistry}
use million.ProtoCodec.RoundTrip.{decode_message-encode_message}
use million.Gateway.{
  UserSession, proto_message, GatewayService, reply_received, persistent_received, set_user,
  send_to_client, header_packet, tcp_recv_packet, packet_target,
}

-- What is sent for packets one after another.
abbrev pub sends_of : List (List ℕ) → List SendPacket
sends_of [] = []
sends_of (p ∷ ps) =
    record { span = header_packet; total_size = (length header_packet + length p) % 2 ^ 32 }
    ∷ record { span = p; total_size = 0 }
    ∷ sends_of ps

-- The packets with their headers.
abbrev pub with_header : List ℕ → List ℕ
with_header p = header_packet ++ p

pub data AllFit : List (List ℕ) → Type 0 where
  none_left : AllFit []
  fits :
      {p : List ℕ} {ps : List (List ℕ)}
      → 8 + length p ≤ packet_max_size
      → AllFit ps
      → AllFit (p ∷ ps)

-- Both parts write what the packet with its header would.
parts_are_packet :
    (p : List ℕ)
    → 8 + length p ≤ packet_max_size
    → write_all (sends_of (p ∷ [])) ≡ write_packet (send_packet (with_header p))
unfolding write_all write_packet send_packet
parts_are_packet p m =
    let n : length (with_header p) ≡ 8 + length p = length-append header_packet p in
    let a : (8 + length p) % 2 ^ 32 == 0 ≡ false = ground arith in
    rw (n, a) (simp (append_assoc, append-nil))

sends_are_packets :
    {ps : List (List ℕ)}
    → AllFit ps
    → write_all (sends_of ps) ≡ write_all (map send_packet (map with_header ps))
unfolding write_all
sends_are_packets none_left = refl
sends_are_packets (fits {p} {ps} m ok) =
    write_all-append (sends_of (p ∷ [])) (sends_of ps)
    ∙ ap (λ (t : List ℕ). t ++ write_all (sends_of ps)) (parts_are_packet p m)
    ∙ ap (λ (t : List ℕ). write_packet (send_packet (with_header p)) ++ t) (sends_are_packets ok)

packets_sendable : {ps : List (List ℕ)} → AllFit ps → AllSendable (map with_header ps)
packets_sendable none_left = no_packets
packets_sendable (fits {p} {ps} m ok) =
    let n : length (with_header p) ≡ 8 + length p = length-append header_packet p in
    sendable (omega arith) (omega arith) (packets_sendable ok)

module _ (pb : Protobuf) where
  open pb use {Msg}

  -- Messages are replied under a session id, one after another.
  unfoldable pub reply_all : ℕ → List Msg → GatewayService pb → GatewayService pb
  reply_all id [] s = s
  reply_all id (m ∷ ms) s = reply_all id ms (reply_received pb id (proto_message m) s)

  -- The packets that messages are encoded as.
  pub data AllEncoded (codec : ProtoCodec) : List Msg → List (List ℕ) → Type 0 where
    none_left : AllEncoded codec [] []
    encoded :
        {m : Msg} {p : List ℕ} {ms : List Msg} {ps : List (List ℕ)}
        → encode_message pb m codec ≡ some p
        → AllEncoded codec ms ps
        → AllEncoded codec (m ∷ ms) (p ∷ ps)

  replied_once :
      (id u : ℕ) (x : UserSession) (m : Msg) (p : List ℕ) (s : GatewayService pb)
      → find id s.tasks ≡ some u
      → find u s.users ≡ some x
      → encode_message pb m s.codec ≡ some p
      → reply_received pb id (proto_message m) s ≡ set_user pb u (send_to_client p x) s
  unfolding reply_received persistent_received
  replied_once id u x m p s t f e = rw (reply_received, t, f, persistent_received, e) refl

  replies_sent :
      (id u : ℕ) (x : UserSession) (ms : List Msg) (ps : List (List ℕ)) (s : GatewayService pb)
      → find id s.tasks ≡ some u
      → find u s.users ≡ some x
      → AllEncoded s.codec ms ps
      → find u (reply_all id ms s).users ≡ some (record x { sends = x.sends ++ sends_of ps })
  unfolding reply_all set_user send_to_client
  replies_sent id u x [] [] s t f none_left = rw (f, append-nil x.sends) refl
  replies_sent id u x [] (p ∷ ps) s t f e = elim e [ ]
  replies_sent id u x (m ∷ ms) [] s t f e = elim e [ ]
  replies_sent id u x (m ∷ ms) (p ∷ ps) s t f (encoded e es) =
      let y = send_to_client p x in
      let rest =
        replies_sent id u y ms ps (set_user pb u y s) t (ground (arith, find-assign u u y s.users))
          es in
      rw (reply_all, replied_once id u x m p s t f e)
        (subst
          (λ (q : List SendPacket).
            find u (reply_all id ms (set_user pb u y s)).users ≡ some (record x { sends = q }))
          (append_assoc x.sends (sends_of (p ∷ [])) (sends_of ps)) rest)

  -- Messages are replied one after another under the session id that the coroutine of a user waits
  -- under, where nothing was sent to the client before, each can be encoded, and no packet is larger
  -- than a client takes: the client receives, in order, each message's packet after eight zero bytes.
  pub client_receives :
      (async_read : AsyncRead) (asio : ReadsAll async_read) (id u : ℕ) (x : UserSession)
      (ms : List Msg) (ps : List (List ℕ)) (s : GatewayService pb)
      → find id s.tasks ≡ some u
      → find u s.users ≡ some x
      → x.sends ≡ []
      → AllEncoded s.codec ms ps
      → AllFit ps
      → (y : UserSession) × (find u (reply_all id ms s).users ≡ some y)
        × (process async_read (write_all y.sends) ≡ map with_header ps)
  client_receives async_read asio id u x ms ps s t f e es ok = (
    record x { sends = x.sends ++ sends_of ps },
    replies_sent id u x ms ps s t f es,
    rw (e, sends_are_packets ok) (process_all async_read asio (packets_sendable ok)),
  )

  -- A client sends eight bytes followed by the packet of a message, whose type is registered, which
  -- protobuf can make, and which it reads as it was written: that message is sent to the agent of the
  -- user if it lives, else to the user service, under the agent id, and nothing else changes.
  pub packet_forwarded :
      (alive : ℕ → Bool) (x : UserSession) (m : Msg) (header packet : List ℕ)
      (s : GatewayService pb)
      → IsRegistry s.codec
      → pb.has_prototype (pb.descriptor m) ≡ true
      → pb.parse (pb.descriptor m) (pb.serialize m) ≡ some m
      → encode_message pb m s.codec ≡ some packet
      → length header ≡ 8
      → tcp_recv_packet pb alive x (header ++ packet) s ≡ record s {
        forwarded =
            s.forwarded
            ++ record { target = packet_target pb alive x s; session_id = x.agent_id; msg = m }
              ∷ [];
      }
  unfolding tcp_recv_packet
  packet_forwarded alive x m header packet s ok proto back e l =
      let (ids, found, read) = decode_message-encode_message pb m s.codec packet ok proto back e in
      let long : ltb (length (header ++ packet)) 8 ≡ false =
        ground (arith, length-append header packet) in
      let body : drop 8 (header ++ packet) ≡ packet =
        subst (λ (n : ℕ). drop n (header ++ packet) ≡ packet) l
          (drop-length-append header packet) in
      rw (tcp_recv_packet, long, body, read) refl
