-- ===== src/Cluster/Packets/Tests.antt =====
-- Packets of the cluster service at concrete inputs.
use million.Prelude.{ℕ, ◌≡◌, List, [], ◌∷◌, map, arith}
use million.TcpConnection.{process, write_all}
use million.Cluster.Packets.{parts, receive_packet}
use million.Cluster.Packets.Parts.{none_left, fits, send_notifies, notifies_arrive}
use million.TcpConnection.Stream.{read_bytes, read_bytes-ReadsAll}

abbrev two_notifies : List (List ℕ × List ℕ)
two_notifies = (1 ∷ 2 ∷ [], 3 ∷ []) ∷ (4 ∷ [], []) ∷ []

notifies_arrive_example :
    map receive_packet (process read_bytes (write_all (send_notifies two_notifies)))
    ≡ parts (1 ∷ 2 ∷ []) (3 ∷ []) ∷ parts (4 ∷ []) [] ∷ []
notifies_arrive_example =
    notifies_arrive read_bytes read_bytes-ReadsAll {ps = two_notifies}
      (fits (omega arith) (fits (omega arith) none_left))
