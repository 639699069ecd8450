-- ===== src/TcpConnection/Tests.antt =====
-- Runs of the model of tcp_connection.cpp at concrete inputs.
use million.Prelude.{◌*◌, ◌≤◌, ◌≡◌, ℕ, some, List, [], ◌∷◌, ◌++◌, arith, refl, take, length}
use million.TcpConnection.{
  send_packet, write_packet, write_all, process, grow, packet_max_size, wire_u32, read_packets,
  read_packet, read_body,
}
use million.TcpConnection.Buffer.{grow_lem}
use million.TcpConnection.Framing.{AllSendable, no_packets, sendable}
use million.TcpConnection.Reading.{received_as_sent}
use million.TcpConnection.Sending.{
  Connection, new_connection, send, resume, resumed, swapping, writing, writing_span, Reach, start,
  next, send_step, resume_step,
}
use million.TcpConnection.Sending.Delivery.{received_prefix, received_all_at_rest}
use million.TcpConnection.Stream.{read_bytes, read_bytes-ReadsAll}

abbrev first : List ℕ
first = 7 ∷ 8 ∷ []

abbrev last : List ℕ
last = 9 ∷ []

one : AllSendable (first ∷ [])
one = sendable (omega arith) (omega arith) no_packets

received_as_sent_example :
    process read_bytes
      (write_all (send_packet first ∷ []) ++ take 3 (write_packet (send_packet last)))
    ≡ first ∷ []
unfolding write_packet wire_u32 send_packet
received_as_sent_example =
    received_as_sent read_bytes read_bytes-ReadsAll last 3 one
      (sendable (omega arith) (omega arith) no_packets) (omega arith)

-- An empty packet writes nothing.
empty_packet : write_packet (send_packet []) ≡ []
unfolding write_packet send_packet
empty_packet = refl

two_packets :
    process read_bytes (0 ∷ 0 ∷ 0 ∷ 2 ∷ 7 ∷ 8 ∷ 0 ∷ 0 ∷ 0 ∷ 1 ∷ 9 ∷ []) ≡ first ∷ last ∷ []
unfolding process read_packets read_packet read_body grow read_bytes
two_packets = refl

grow_lem_example :
    (new_size : ℕ) × (grow 10 4 9 ≡ some new_size)
    × (9 ≤ new_size)
    × (4 ≤ new_size)
    × (new_size ≤ packet_max_size * 2)
grow_lem_example =
    grow_lem 10 4 9 (omega arith) (omega arith) (omega arith) (omega arith) (omega arith)

abbrev sent : Connection
sent = send (send_packet first) new_connection

abbrev taken : Connection
taken = resumed [] swapping [] sent

abbrev half : Connection
half = resumed [] (writing (send_packet first ∷ [])) [] taken

sent-Reach : Reach sent
sent-Reach = next start (send_step (send_packet first) refl)

taken-Reach : Reach taken
unfolding send
taken-Reach = next sent-Reach (resume_step [] swapping [] refl refl)

half-Reach : Reach half
unfolding resumed resume send
half-Reach = next taken-Reach (resume_step [] (writing (send_packet first ∷ [])) [] refl refl)

received_prefix_example :
    (length half.senders ≤ 1)
    × (later : List (List ℕ)) × (first ∷ [] ≡ process read_bytes half.written ++ later)
unfolding send resume resumed
received_prefix_example =
    received_prefix read_bytes read_bytes-ReadsAll {c = half} {ps = first ∷ []} half-Reach refl one

abbrev whole : Connection
whole = resumed [] (writing_span (send_packet first) []) [] half

abbrev again : Connection
again = resumed [] (writing []) [] whole

abbrev done : Connection
done = resumed [] swapping [] again

whole-Reach : Reach whole
unfolding resumed resume send
whole-Reach = next half-Reach (resume_step [] (writing_span (send_packet first) []) [] refl refl)

again-Reach : Reach again
unfolding resumed resume send
again-Reach = next whole-Reach (resume_step [] (writing []) [] refl refl)

done-Reach : Reach done
unfolding resumed resume send
done-Reach = next again-Reach (resume_step [] swapping [] refl refl)

received_all_at_rest_example :
    (done.send_queue ≡ []) × (process read_bytes done.written ≡ first ∷ [])
unfolding send resume resumed
received_all_at_rest_example =
    received_all_at_rest read_bytes read_bytes-ReadsAll {c = done} {ps = first ∷ []} done-Reach refl
      one refl refl
