-- ===== src/TcpConnection/Stream.antt =====
-- A stream whose bytes have all come: it gives what tcp_connection.cpp reads at once.
use million.Prelude.{ℕ, zero, suc, ◌<◌, ◌≡◌, none, some, List, [], ◌∷◌, ◌++◌, length, arith, refl}
use million.TcpConnection.{AsyncRead, ReadsAll}

unfoldable pub read_bytes : AsyncRead
read_bytes zero stream = some ([], stream)
read_bytes (suc n) [] = none
read_bytes (suc n) (x ∷ stream) = elim (read_bytes n stream) [
  | none ↦ none
  | some (xs, rest) ↦ some (x ∷ xs, rest)
]

reads_all : (xs rest : List ℕ) → read_bytes (length xs) (xs ++ rest) ≡ some (xs, rest)
unfolding read_bytes
reads_all [] rest = refl
reads_all (x ∷ xs) rest = rw (reads_all xs rest) refl

throws_early : (n : ℕ) (xs : List ℕ) → length xs < n → read_bytes n xs ≡ none
unfolding read_bytes
throws_early zero xs h = absurd (omega arith)
throws_early (suc n) [] h = refl
throws_early (suc n) (x ∷ xs) h = rw (throws_early n xs (omega arith)) refl

pub read_bytes-ReadsAll : ReadsAll read_bytes
read_bytes-ReadsAll = record { reads = reads_all; throws = throws_early }
