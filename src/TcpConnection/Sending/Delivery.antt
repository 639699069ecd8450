-- ===== src/TcpConnection/Sending/Delivery.antt =====
-- What is sent on one end of a connection and what the other end is given.
use million.Prelude.{
  ℕ, ◌≤◌, ◌≡◌, false, none, List, [], ◌∷◌, ◌++◌, take, drop, length, map, arith, refl, sym, ap, ◌∙◌,
  dec_lt, take-append-drop, take-append_le, drop-append_le, take-length-append, drop-length-append,
  length-append,
}
use mathlib.Core.List.{append_assoc, append-nil}
use million.TcpConnection.{
  AsyncRead, ReadsAll, SendPacket, send_packet, write_all, write_packet, process, read_packets,
  read_packet, wire_u32,
}
use million.TcpConnection.Framing.{AllSendable, no_packets, sendable, enough_fuel, frame}
use million.TcpConnection.Sending.{Connection, Reach}
use million.TcpConnection.Sending.Order.{IsOrdered, resting, busy, dead, left, Reach-IsOrdered}
use million.TcpConnection.Reading.{received_in_order, read_packet_cut}

-- What has been taken of two texts that are the same: less than the first part, or all of it.
taken_less :
    (xs ys us vs : List ℕ) → xs ++ ys ≡ us ++ vs → length xs ≤ length us → xs ≡ take (length xs) us
taken_less xs ys us vs e h =
    sym (take-length-append xs ys)
    ∙ ap (λ (t : List ℕ). take (length xs) t) e
    ∙ take-append_le (length xs) us vs h

taken_more :
    (xs ys us vs : List ℕ)
    → xs ++ ys ≡ us ++ vs
    → length us ≤ length xs
    → (xs ≡ us ++ drop (length us) xs) × (drop (length us) xs ++ ys ≡ vs)
taken_more xs ys us vs e h =
    let a : take (length us) xs ≡ us =
      sym (take-append_le (length us) xs ys h)
      ∙ ap (λ (t : List ℕ). take (length us) t) e
      ∙ take-length-append us vs in
    let b =
      sym (drop-append_le (length us) xs ys h)
      ∙ ap (λ (t : List ℕ). drop (length us) t) e
      ∙ drop-length-append us vs in
    (sym (take-append-drop (length us) xs) ∙ ap (λ (t : List ℕ). t ++ drop (length us) xs) a, b)

missing_of :
    {c : Connection} → IsOrdered c → (missing : List ℕ) × (c.written ++ missing ≡ write_all c.sent)
missing_of {c} (resting a b d f g) = ([], append-nil c.written ∙ g)
missing_of {c} (busy s a d f g) = (left s ++ write_all c.send_queue, g)
missing_of (dead missing a d f g) = (missing, g)

at_most_one : {c : Connection} → IsOrdered c → length c.senders ≤ 1
at_most_one (resting a b d f g) = rw a (omega arith)
at_most_one (busy s a d f g) = rw a (omega arith)
at_most_one (dead missing a d f g) = rw a (omega arith)

module _ (async_read : AsyncRead) (asio : ReadsAll async_read) where
  -- The packets that are on the wire as a whole, before one that is cut short.
  data CutAt (ps : List (List ℕ)) (written : List ℕ) : Type 0 where
    cut_at :
        (whole later : List (List ℕ)) (part : List ℕ)
        → ps ≡ whole ++ later
        → AllSendable whole
        → written ≡ write_all (map send_packet whole) ++ part
        → read_packet async_read part ≡ none
        → CutAt ps written

  no_packet : read_packet async_read [] ≡ none
  unfolding read_packet
  no_packet = refl

  cut_within :
      {ps : List (List ℕ)} (written missing : List ℕ)
      → AllSendable ps
      → written ++ missing ≡ write_all (map send_packet ps)
      → CutAt ps written
  unfolding write_all wire_u32
  cut_within [] missing no_packets e = cut_at [] [] [] refl no_packets refl no_packet
  cut_within (x ∷ xs) missing no_packets e = ground arith
  cut_within written missing (sendable {p} {ps} l m ok) e =
      let f = write_packet (send_packet p) in
      let g = write_all (map send_packet ps) in
      elim (dec_lt (length written) (length f)) [
        | yes short ↦
            let w = taken_less written missing f g e (omega arith) in
            cut_at [] (p ∷ ps) written refl no_packets refl (
              rw w (
                rw (frame p l m) (
                  read_packet_cut async_read asio p (length written) m
                    (omega (arith, ap (λ (t : List ℕ). length t) (frame p l m))))))
        | no long ↦
            let (w, d) = taken_more written missing f g e (omega arith) in
            elim (cut_within (drop (length f) written) missing ok d) [
              | cut_at whole later part a b c n ↦
                  cut_at (p ∷ whole) later part (ap (λ (t : List (List ℕ)). p ∷ t) a)
                    (sendable l m b)
                    (w
                      ∙ ap (λ (t : List ℕ). f ++ t) c
                      ∙ sym (append_assoc f (write_all (map send_packet whole)) part))
                    n
            ]
      ]

  process_cut :
      {ps : List (List ℕ)} {written : List ℕ}
      → CutAt ps written
      → (later : List (List ℕ)) × (ps ≡ process async_read written ++ later)
  unfolding process
  process_cut {ps} {written} (cut_at whole later part a b c n) =
      let fuel : length whole ≤ length written =
        rw c
          (omega (arith, enough_fuel b, length-append (write_all (map send_packet whole)) part)) in
      let all : read_packets async_read (length written) written ≡ whole =
        ap (λ (t : List ℕ). read_packets async_read (length written) t) c
        ∙ received_in_order async_read asio (length written) part b fuel n in
      (later, a ∙ ap (λ (t : List (List ℕ)). t ++ later) (sym all))

  pub process_all :
      {ps : List (List ℕ)}
      → AllSendable ps
      → process async_read (write_all (map send_packet ps)) ≡ ps
  unfolding process
  process_all {ps} ok =
      let w = write_all (map send_packet ps) in
      ap (λ (t : List ℕ). read_packets async_read (length w) t) (sym (append-nil w))
      ∙ received_in_order async_read asio (length w) [] ok (enough_fuel ok) no_packet

  -- However the calls of Send, the coroutines and a write that fails interleave: at any time at most
  -- one coroutine sends, and if every packet that was sent has a byte and is no larger than what is
  -- taken, then the packets that the other side makes of the bytes written so far are those that were
  -- sent first, as they were and in order.
  pub received_prefix :
      {c : Connection} {ps : List (List ℕ)}
      → Reach c
      → c.sent ≡ map send_packet ps
      → AllSendable ps
      → (length c.senders ≤ 1)
        × (later : List (List ℕ)) × (ps ≡ process async_read c.written ++ later)
  received_prefix {c} r e ok =
      let (missing, m) = missing_of (Reach-IsOrdered r) in
      let (later, p) = process_cut (cut_within c.written missing ok (rw e at m)) in
      (at_most_one (Reach-IsOrdered r), later, p)

  -- When no coroutine sends any more and no write has failed, and every packet that was sent has a byte
  -- and is no larger than what is taken, then none is left in the queue, and the other side makes
  -- exactly those packets of what was written.
  pub received_all_at_rest :
      {c : Connection} {ps : List (List ℕ)}
      → Reach c
      → c.sent ≡ map send_packet ps
      → AllSendable ps
      → c.senders ≡ []
      → c.failed ≡ false
      → (c.send_queue ≡ []) × (process async_read c.written ≡ ps)
  received_all_at_rest {c} {ps} r e ok none_left fine = elim (Reach-IsOrdered r) [
    | resting a b d f g ↦ (
      b,
      ap (process async_read) g
          ∙ ap (λ (t : List SendPacket). process async_read (write_all t)) e
          ∙ process_all ok,
    )
    | busy s a d f g ↦ ground arith
    | dead missing a d f g ↦ ground arith
  ]
