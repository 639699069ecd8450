-- ===== src/TcpConnection/Reading.antt =====
-- The packets of tcp_connection.cpp are received as they were sent.
use million.Prelude.{
  ℕ, zero, suc, ◌+◌, ◌-◌, ◌*◌, ◌%◌, ◌^◌, ◌<◌, ◌≤◌, ◌≡◌, none, some, List, [], ◌∷◌, ◌++◌, ltb,
  length, ◌∙◌, arith, refl, true, false, take, drop, length-drop, length-take, map,
  take-append-drop, length-append, ap, dec_lt, sym,
}
use mathlib.Core.List.{append_assoc, append-nil}
use million.ProtoCodec.{byte}
use million.TcpConnection.Buffer.{grow_lem}
use million.TcpConnection.{
  Body, smaller, read_body, received, threw, AsyncRead, ReadsAll, packet_max_size, max_read_size,
  read_packet, read_packets, process, write_all, write_packet, send_packet, wire_u32, read_u32,
}
use million.TcpConnection.Framing.{AllSendable, no_packets, sendable, frame, enough_fuel}

ReceivedAll : List ℕ → List ℕ → Body → Type 0
ReceivedAll packet rest b = (size : ℕ) × (b ≡ received packet size rest)

module _ (async_read : AsyncRead) (asio : ReadsAll async_read) where
  async_read_lem :
      (n : ℕ) (xs rest : List ℕ)
      → n ≤ length xs
      → async_read n (xs ++ rest) ≡ some (take n xs, drop n xs ++ rest)
  async_read_lem n xs rest h =
      let size : length (take n xs) ≡ n = omega (arith, length-take n xs) in
      let e : take n xs ++ (drop n xs ++ rest) ≡ xs ++ rest =
        sym (append_assoc (take n xs) (drop n xs) rest)
        ∙ ap (λ (t : List ℕ). t ++ rest) (take-append-drop n xs) in
      rw (size, e) at (asio.reads (take n xs) (drop n xs ++ rest))

  async_read_whole :
      (n : ℕ) (xs : List ℕ) → n ≤ length xs → async_read n xs ≡ some (take n xs, drop n xs)
  async_read_whole n xs h = rw (append-nil xs, append-nil (drop n xs)) at (async_read_lem n xs [] h)

  -- The rounds that are left read the rest of the body.
  read_body_lem :
      (fuel total done size : ℕ) (packet rest : List ℕ)
      → total ≤ packet_max_size
      → done + length packet ≡ total
      → length packet < fuel
      → (0 < length packet → 0 < size)
      → size ≤ packet_max_size * 2
      → ReceivedAll packet rest (read_body async_read fuel total done size (packet ++ rest))
  unfolding ReceivedAll read_body
  read_body_lem zero total done size packet rest m l f p b = absurd (omega arith)
  read_body_lem (suc fuel) total done size [] rest m l f p b =
      let e : ltb done total ≡ false = ground arith in (size, rw (e, read_body) refl)
  read_body_lem (suc fuel) total done size (x ∷ xs) rest m l f p b =
      let packet = x ∷ xs in
      let chunk = smaller (total - done) max_read_size in
      let more : ltb done total ≡ true = ground arith in
      let some_left : 0 < chunk = ground arith in
      let enough : chunk ≤ length packet = ground arith in
      let (n, e, u, v, w) =
        grow_lem (done + chunk + 1) size (done + chunk) (p (omega arith)) b (omega arith)
          (omega (arith, p (omega arith))) (omega arith) in
      let left = length-drop chunk packet in
      let (z, d) =
        read_body_lem fuel total (done + chunk) n (drop chunk packet) rest m (omega arith)
          (omega arith) (λ q. omega arith) w in
      (
        z,
        rw (more, e, async_read_lem chunk packet rest enough, d, read_body)
            (ap (λ (ys : List ℕ). received ys z rest) (take-append-drop chunk packet)),
      )

  -- With fewer bytes than the rest of the body, a read throws.
  read_body_short :
      (fuel total done size : ℕ) (stream : List ℕ)
      → total ≤ packet_max_size
      → done + length stream < total
      → total < done + fuel
      → 0 < size
      → size ≤ packet_max_size * 2
      → read_body async_read fuel total done size stream ≡ threw
  unfolding read_body
  read_body_short zero total done size stream m l f p b = absurd (omega arith)
  read_body_short (suc fuel) total done size stream m l f p b =
      let chunk = smaller (total - done) max_read_size in
      let more : ltb done total ≡ true = ground arith in
      let some_left : 0 < chunk = ground arith in
      let within : chunk ≤ total - done = ground arith in
      let (n, e, u, v, w) =
        grow_lem (done + chunk + 1) size (done + chunk) p b (omega arith) (omega arith)
          (omega arith) in
      elim (dec_lt (length stream) chunk) [
        | yes short ↦ rw (more, e, asio.throws chunk stream short, read_body) refl
        | no long ↦
            let left = length-drop chunk stream in
            let d =
              read_body_short fuel total (done + chunk) n (drop chunk stream) m (omega arith)
                (omega arith) (omega arith) w in
            rw (more, e, async_read_whole chunk stream (omega arith), d, read_body) refl
      ]

  -- A frame on the wire is read as the packet.
  read_packet_frame :
      (p rest : List ℕ)
      → 0 < length p
      → length p ≤ packet_max_size
      → read_packet async_read (wire_u32 (length p % 2 ^ 32) ++ (p ++ rest)) ≡ some (p, rest)
  unfolding read_packet wire_u32 ReceivedAll
  read_packet_frame p rest h m =
      let n = length p in
      let total : read_u32 (byte 3 (n % 2 ^ 32)) (byte 2 (n % 2 ^ 32)) (byte 1 (n % 2 ^ 32))
            (byte 0 (n % 2 ^ 32))
          ≡ n =
        omega arith in
      let ok : ltb packet_max_size n ≡ false = ground arith in
      let (z, d) =
        read_body_lem (n + 1) n 0 (smaller n max_read_size) p rest m (omega arith) (omega arith)
          (λ q. ground arith) (ground arith) in
      rw (total, ok, d) refl

  -- A frame that is cut short is no packet.
  pub read_packet_cut :
      (p : List ℕ) (k : ℕ)
      → length p ≤ packet_max_size
      → k < 4 + length p
      → read_packet async_read (take k (wire_u32 (length p % 2 ^ 32) ++ p)) ≡ none
  unfolding read_packet wire_u32
  read_packet_cut p zero m h = refl
  read_packet_cut p (suc zero) m h = refl
  read_packet_cut p (suc (suc zero)) m h = refl
  read_packet_cut p (suc (suc (suc zero))) m h = refl
  read_packet_cut p (suc (suc (suc (suc k)))) m h =
      let n = length p in
      let total : read_u32 (byte 3 (n % 2 ^ 32)) (byte 2 (n % 2 ^ 32)) (byte 1 (n % 2 ^ 32))
            (byte 0 (n % 2 ^ 32))
          ≡ n =
        omega arith in
      let ok : ltb packet_max_size n ≡ false = ground arith in
      let s = length-take k p in
      let d =
        read_body_short (n + 1) n 0 (smaller n max_read_size) (take k p) m (omega arith)
          (omega arith) (ground arith) (ground arith) in
      rw (total, ok, d) refl

  pub received_in_order :
      (fuel : ℕ) {ps : List (List ℕ)} (rest : List ℕ)
      → AllSendable ps
      → length ps ≤ fuel
      → read_packet async_read rest ≡ none
      → read_packets async_read fuel (write_all (map send_packet ps) ++ rest) ≡ ps
  unfolding read_packets write_all
  received_in_order zero rest no_packets h cut = refl
  received_in_order (suc fuel) rest no_packets h cut = rw cut refl
  received_in_order zero rest (sendable l m ok) h cut = absurd (omega arith)
  received_in_order (suc fuel) rest (sendable {p} {ps} l m ok) h cut =
      rw
        (
          frame p l m,
          append_assoc (wire_u32 (length p % 2 ^ 32) ++ p) (write_all (map send_packet ps)) rest,
          append_assoc (wire_u32 (length p % 2 ^ 32)) p (write_all (map send_packet ps) ++ rest),
          read_packets,
          read_packet_frame p (write_all (map send_packet ps) ++ rest) l m,
        )
        (ap (λ (qs : List (List ℕ)). p ∷ qs) (received_in_order fuel rest ok (omega arith) cut))

  -- A frame at the start of a stream is received first, whatever follows.
  pub process_first :
      (p rest : List ℕ)
      → 0 < length p
      → length p ≤ packet_max_size
      → (later : List (List ℕ)) × (process async_read (write_packet (send_packet p) ++ rest)
          ≡ p ∷ later)
  unfolding process read_packets wire_u32
  process_first p rest l m =
      let size = wire_u32 (length p % 2 ^ 32) in
      let e : write_packet (send_packet p) ++ rest ≡ size ++ (p ++ rest) =
        ap (λ (t : List ℕ). t ++ rest) (frame p l m) ∙ append_assoc size p rest in
      (
        read_packets async_read (suc (suc (suc (length (p ++ rest))))) rest,
        rw (e, read_packet_frame p rest l m, read_packets) refl,
      )

  -- Packets that have a byte each and are no larger than what is taken, and of which the last is cut
  -- short at any point when the connection ends: the other side is given all those before the last, as
  -- they were sent and in order, and nothing of the last.
  pub received_as_sent :
      {ps : List (List ℕ)} (last : List ℕ) (k : ℕ)
      → AllSendable ps
      → AllSendable (last ∷ [])
      → k < length (write_packet (send_packet last))
      → process async_read
          (write_all (map send_packet ps) ++ take k (write_packet (send_packet last)))
        ≡ ps
  unfolding process wire_u32
  received_as_sent {ps} last k ok (sendable l m none_after) h =
      let e = frame last l m in
      let cut : read_packet async_read (take k (write_packet (send_packet last))) ≡ none =
        rw e (read_packet_cut last k m (omega (arith, ap (λ (t : List ℕ). length t) e))) in
      received_in_order _ _ ok
        (omega (
          arith,
          enough_fuel ok,
          length-append (write_all (map send_packet ps)) (take k (write_packet (send_packet last))),
        ))
        cut
