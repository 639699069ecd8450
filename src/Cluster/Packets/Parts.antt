-- ===== src/Cluster/Packets/Parts.antt =====
-- The parts of the packets of the cluster service arrive as they were sent.
use million.Prelude.{
  ℕ, ◌+◌, ◌%◌, ◌^◌, ◌≤◌, ◌≡◌, false, List, [], ◌∷◌, ◌++◌, ◌==◌, ltb, length, length-append, map,
  take-length-append, drop-length-append, arith, refl, ap, ◌∙◌,
}
use mathlib.Core.List.{append_assoc, append-nil}
use million.ProtoCodec.{byte}
use million.TcpConnection.{
  AsyncRead, ReadsAll, SendPacket, send_packet, write_packet, write_all, process, packet_max_size,
  wire_u32, read_u32,
}
use million.TcpConnection.Framing.{AllSendable, no_packets, sendable}
use million.TcpConnection.Sending.Delivery.{process_all}
use million.TcpConnection.Sending.Order.{write_all-append}
use million.Cluster.Packets.{packet_header_init, send_notify, Received, parts, receive_packet}

-- The packet that a header and a body make.
abbrev pub whole_packet : List ℕ → List ℕ → List ℕ
whole_packet header body = wire_u32 (length header % 2 ^ 32) ++ (header ++ body)

pub length-whole_packet :
    (header body : List ℕ) → length (whole_packet header body) ≡ 4 + length header + length body
unfolding wire_u32
length-whole_packet header body = omega (arith, length-append header body)

-- Its parts write what it would.
notify_is_packet :
    (header body : List ℕ)
    → 4 + length header + length body ≤ packet_max_size
    → write_all (send_notify header body) ≡ write_packet (send_packet (whole_packet header body))
unfolding send_notify packet_header_init write_all write_packet send_packet
notify_is_packet header body m =
    let n = length-whole_packet header body in
    let a : (4 + length header + length body) % 2 ^ 32 == 0 ≡ false = ground arith in
    rw (n, a) (simp (append_assoc, append-nil))

pub receive_whole :
    (header body : List ℕ)
    → 4 + length header + length body ≤ packet_max_size
    → receive_packet (whole_packet header body) ≡ parts header body
unfolding receive_packet wire_u32
receive_whole header body m =
    let n = length header in
    let size : read_u32 (byte 3 (n % 2 ^ 32)) (byte 2 (n % 2 ^ 32)) (byte 1 (n % 2 ^ 32))
          (byte 0 (n % 2 ^ 32))
        ≡ n =
      omega arith in
    let fits : ltb (length (header ++ body)) n ≡ false =
      ground (arith, length-append header body) in
    rw (size, fits, take-length-append header body, drop-length-append header body) refl

-- What is sent for notifications one after another, each a header and a body.
unfoldable pub send_notifies : List (List ℕ × List ℕ) → List SendPacket
unfolding send_notify
send_notifies [] = []
send_notifies ((header, body) ∷ ps) = send_notify header body ++ send_notifies ps

abbrev pub packets_of : List (List ℕ × List ℕ) → List (List ℕ)
packets_of [] = []
packets_of ((header, body) ∷ ps) = whole_packet header body ∷ packets_of ps

abbrev pub parts_of : List (List ℕ × List ℕ) → List Received
parts_of [] = []
parts_of ((header, body) ∷ ps) = parts header body ∷ parts_of ps

-- Every header and body fit into a packet.
pub data AllFit : List (List ℕ × List ℕ) → Type 0 where
  none_left : AllFit []
  fits :
      {header body : List ℕ} {ps : List (List ℕ × List ℕ)}
      → 4 + length header + length body ≤ packet_max_size
      → AllFit ps
      → AllFit ((header, body) ∷ ps)

packets_sendable : {ps : List (List ℕ × List ℕ)} → AllFit ps → AllSendable (packets_of ps)
packets_sendable none_left = no_packets
packets_sendable (fits {header} {body} m ok) =
    let n = length-whole_packet header body in
    sendable (omega arith) (omega arith) (packets_sendable ok)

notifies_are_packets :
    {ps : List (List ℕ × List ℕ)}
    → AllFit ps
    → write_all (send_notifies ps) ≡ write_all (map send_packet (packets_of ps))
unfolding send_notifies write_all
notifies_are_packets none_left = refl
notifies_are_packets (fits {header} {body} {ps} m ok) =
    write_all-append (send_notify header body) (send_notifies ps)
    ∙ ap (λ (t : List ℕ). t ++ write_all (send_notifies ps)) (notify_is_packet header body m)
    ∙ ap (λ (t : List ℕ). write_packet (send_packet (whole_packet header body)) ++ t)
        (notifies_are_packets ok)

receive_all :
    {ps : List (List ℕ × List ℕ)} → AllFit ps → map receive_packet (packets_of ps) ≡ parts_of ps
receive_all none_left = refl
receive_all (fits {header} {body} {ps} m ok) = rw (receive_whole header body m, receive_all ok) refl

module _ (async_read : AsyncRead) (asio : ReadsAll async_read) where
  -- Notifications that are sent one after another on a connection, each in its three parts, and each of
  -- a size that the other side takes: the other side receives each as one packet, in order, and takes it
  -- apart into the header and the body that were sent.
  pub notifies_arrive :
      {ps : List (List ℕ × List ℕ)}
      → AllFit ps
      → map receive_packet (process async_read (write_all (send_notifies ps))) ≡ parts_of ps
  notifies_arrive ok =
      ap (λ (t : List ℕ). map receive_packet (process async_read t)) (notifies_are_packets ok)
      ∙ ap (λ (t : List (List ℕ)). map receive_packet t)
          (process_all async_read asio (packets_sendable ok))
      ∙ receive_all ok
