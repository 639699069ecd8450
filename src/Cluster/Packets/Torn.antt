-- ===== src/Cluster/Packets/Torn.antt =====
-- The handshake of an io thread and a notification of the service's thread on one connection.
use million.Prelude.{
  ℕ, ◌+◌, ◌%◌, ◌^◌, ◌≤◌, ◌≡◌, false, List, [], ◌∷◌, ◌++◌, ◌==◌, length, length-append, map, take,
  drop, length-take, take-append-drop, arith, refl, sym, ap, ◌∙◌,
}
use mathlib.Core.List.{append_assoc, append-nil}
use million.TcpConnection.{
  AsyncRead, ReadsAll, SendPacket, send_packet, write_packet, write_all, process, packet_max_size,
  wire_u32,
}
use million.TcpConnection.Reading.{process_first}
use million.TcpConnection.Sending.Order.{write_all-append}
use million.Cluster.Packets.{
  packet_header_init, send_part, send_notify, Received, parts, receive_packet,
}
use million.Cluster.Packets.Parts.{whole_packet, length-whole_packet, receive_whole}

-- A handshake of which another thread's notification comes between its two parts.
unfoldable pub send_torn : List ℕ → List ℕ → List ℕ → List SendPacket
unfolding packet_header_init send_notify
send_torn handshake header body =
    packet_header_init handshake [] ∷ (send_notify header body ++ send_part handshake ∷ [])

around :
    (handshake : List ℕ) (between : List SendPacket)
    → 4 + length handshake ≤ packet_max_size
    → write_all (packet_header_init handshake [] ∷ (between ++ send_part handshake ∷ []))
      ≡ wire_u32 ((4 + length handshake) % 2 ^ 32)
        ++ (wire_u32 (length handshake % 2 ^ 32) ++ (write_all between ++ handshake))
unfolding packet_header_init write_all write_packet
around handshake between m =
    let n = length handshake in
    let zero_body : 4 + n + 0 ≡ 4 + n = omega arith in
    let a : (4 + n) % 2 ^ 32 == 0 ≡ false = ground arith in
    rw (zero_body, a, write_all-append between (send_part handshake ∷ []))
      (simp (append_assoc, append-nil))

first_frame :
    (n : ℕ) (y : List ℕ)
    → 4 + n ≤ packet_max_size
    → n ≤ length y
    → write_packet (send_packet (whole_packet (take n y) [])) ++ drop n y
      ≡ wire_u32 ((4 + n) % 2 ^ 32) ++ (wire_u32 (n % 2 ^ 32) ++ y)
unfolding write_packet send_packet
first_frame n y m l =
    let size : length (take n y) ≡ n = omega (arith, length-take n y) in
    let whole : length (whole_packet (take n y) []) ≡ 4 + n =
      omega (arith, length-whole_packet (take n y) [], size) in
    let a : (4 + n) % 2 ^ 32 == 0 ≡ false = ground arith in
    rw (whole, a, size) (simp (append_assoc, append-nil) (rw (take-append-drop n y) refl))

module _ (async_read : AsyncRead) (asio : ReadsAll async_read) where
  -- A handshake, and a notification that another thread sends between its two parts, where the
  -- handshake has a size that the other side takes: what the other side receives first is a packet whose
  -- header is not the handshake. It is of the same size and made of the bytes of the notification, with
  -- the size of its packet in front, as far as they go.
  pub handshake_torn :
      (handshake header body : List ℕ)
      → 4 + length handshake ≤ packet_max_size
      → (later : List Received) × (map receive_packet
            (process async_read (write_all (send_torn handshake header body)))
          ≡ parts (take (length handshake) (write_all (send_notify header body) ++ handshake)) []
            ∷ later)
  unfolding send_torn
  handshake_torn handshake header body m =
      let n = length handshake in
      let y = write_all (send_notify header body) ++ handshake in
      let l : n ≤ length y =
        omega (arith, length-append (write_all (send_notify header body)) handshake) in
      let h = take n y in
      let size : length h ≡ n = omega (arith, length-take n y) in
      let whole = length-whole_packet h [] in
      let (later, p) =
        process_first async_read asio (whole_packet h []) (drop n y) (omega arith) (omega arith) in
      let e = around handshake (send_notify header body) m ∙ sym (first_frame n y m l) in
      (
        map receive_packet later,
        ap (λ (t : List ℕ). map receive_packet (process async_read t)) e
            ∙ ap (λ (t : List (List ℕ)). map receive_packet t) p
            ∙ ap (λ (r : Received). r ∷ map receive_packet later)
                (receive_whole h [] (omega arith)),
      )
