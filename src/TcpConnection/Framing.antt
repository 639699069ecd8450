-- ===== src/TcpConnection/Framing.antt =====
-- The frames that tcp_connection.cpp writes.
use million.Prelude.{
  ℕ, ◌%◌, ◌^◌, ◌<◌, ◌≤◌, ◌≡◌, List, [], ◌∷◌, ◌++◌, length, arith, refl, false, map, length-append,
  ◌==◌,
}
use million.TcpConnection.{packet_max_size, write_all, write_packet, send_packet, wire_u32}

-- Every packet has a byte, and none is larger than what is taken.
pub data AllSendable : List (List ℕ) → Type 0 where
  no_packets : AllSendable []
  sendable :
      {p : List ℕ} {ps : List (List ℕ)}
      → 0 < length p
      → length p ≤ packet_max_size
      → AllSendable ps
      → AllSendable (p ∷ ps)

pub frame :
    (p : List ℕ)
    → 0 < length p
    → length p ≤ packet_max_size
    → write_packet (send_packet p) ≡ wire_u32 (length p % 2 ^ 32) ++ p
unfolding write_packet send_packet
frame p h m = let e : length p % 2 ^ 32 == 0 ≡ false = ground arith in rw e refl

pub enough_fuel :
    {ps : List (List ℕ)} → AllSendable ps → length ps ≤ length (write_all (map send_packet ps))
unfolding write_all wire_u32
enough_fuel no_packets = omega arith
enough_fuel (sendable {p} {ps} l m ok) =
    rw (frame p l m)
      (omega (arith, enough_fuel ok, length-append p (write_all (map send_packet ps))))
