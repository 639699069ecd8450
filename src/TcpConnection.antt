-- ===== src/TcpConnection.antt =====
-- million/src/net/tcp_connection.cpp: what a connection writes for the packets that are sent on it, and
-- the packets that it reads from a stream of bytes. Of the asio library: a read of n bytes gives n
-- bytes or throws, and numbers are converted to and from big-endian order.
pub mod Buffer
pub mod Framing
pub mod Reading
pub mod Stream
pub mod Sending
mod Tests
use million.Prelude.{
  ℕ, zero, suc, ◌+◌, ◌-◌, ◌*◌, ◌/◌, ◌%◌, ◌^◌, Bool, true, false, Option, none, some, List, [], ◌∷◌,
  ◌++◌, ltb, ◌==◌, if◌then◌else◌, length, ◌≡◌, ◌<◌,
}
use million.ProtoCodec.{byte, load_u32}

abbrev pub packet_max_size : ℕ
packet_max_size = 1024 * 1024 * 64

abbrev pub max_read_size : ℕ
max_read_size = 1024 * 64

abbrev pub max_expansion_size : ℕ
max_expansion_size = 1024 * 1024 * 1

-- The bytes of a length on the wire, and the length of four bytes.
unfoldable pub wire_u32 : ℕ → List ℕ
wire_u32 n = byte 3 n ∷ byte 2 n ∷ byte 1 n ∷ byte 0 n ∷ []

abbrev pub read_u32 : ℕ → ℕ → ℕ → ℕ → ℕ
read_u32 a b c d = load_u32 d c b a

-- An entry of the send queue; its span is the bytes that are written, after `total_size` unless that
-- is 0.
pub record SendPacket : Type 0 where
  pub span : List ℕ
  pub total_size : ℕ

-- What the sending coroutine writes for an entry.
unfoldable pub write_packet : SendPacket → List ℕ
write_packet p = if p.total_size == 0 then p.span else wire_u32 p.total_size ++ p.span

-- Send(packet): the entry for a packet by itself.
unfoldable pub send_packet : List ℕ → SendPacket
send_packet packet = record { span = packet; total_size = length packet % 2 ^ 32 }

-- What it writes for a queue of entries.
unfoldable pub write_all : List SendPacket → List ℕ
unfolding write_packet
write_all [] = []
write_all (p ∷ ps) = write_packet p ++ write_all ps

-- `asio::async_read` of a number of bytes from a stream: the bytes and the rest of the stream, or
-- `none` where it throws.
abbrev pub AsyncRead : Type 0
AsyncRead = ℕ → List ℕ → Option (List ℕ × List ℕ)

-- What asio documents of it: it reads all the bytes, or throws when the stream ends before.
pub record ReadsAll (async_read : AsyncRead) : Type 0 where
  pub reads : (xs rest : List ℕ) → async_read (length xs) (xs ++ rest) ≡ some (xs, rest)
  pub throws : (n : ℕ) (xs : List ℕ) → length xs < n → async_read n xs ≡ none

-- The loop that grows the buffer for the next chunk, in 32 bits; `none` where the fuel runs out.
unfoldable pub grow : ℕ → ℕ → ℕ → Option ℕ
grow zero new_size needed = none
grow (suc fuel) new_size needed = elim (ltb new_size needed) [
  | false ↦ some new_size
  | true ↦
      grow fuel
        (if ltb new_size max_expansion_size
          then new_size * 2 % 2 ^ 32
          else (new_size + max_expansion_size) % 2 ^ 32)
        needed
]

-- `std::min`.
abbrev pub smaller : ℕ → ℕ → ℕ
smaller a b = if ltb b a then b else a

-- How the reading of a body ends: the bytes that it has read and the rest of the stream, with the
-- size of the buffer; the exception of a read; or the fuel running out.
pub data Body : Type 0 where
  received : List ℕ → ℕ → List ℕ → Body
  threw out_of_fuel : Body

abbrev pub prepend : List ℕ → Body → Body
prepend xs (received ys size rest) = received (xs ++ ys) size rest
prepend xs threw = threw
prepend xs out_of_fuel = out_of_fuel

module _ (async_read : AsyncRead) where
  -- The loop that reads a body of `total` bytes in chunks, of which `done` are read, into a buffer of
  -- `size` bytes.
  unfoldable pub read_body : ℕ → ℕ → ℕ → ℕ → List ℕ → Body
  unfolding grow
  read_body zero total done size stream = out_of_fuel
  read_body (suc fuel) total done size stream = elim (ltb done total) [
    | false ↦ received [] size stream
    | true ↦
        let chunk = smaller (total - done) max_read_size in
        elim (grow (done + chunk + 1) size (done + chunk)) [
          | none ↦ out_of_fuel
          | some new_size ↦ elim (async_read chunk stream) [
            | none ↦ threw
            | some (xs, rest) ↦ prepend xs (read_body fuel total (done + chunk) new_size rest)
          ]
        ]
  ]

  -- One packet: its length and its body; `none` where the loop of Process ends.
  unfoldable pub read_packet : List ℕ → Option (List ℕ × List ℕ)
  unfolding read_body
  read_packet (a ∷ b ∷ c ∷ d ∷ stream) =
      let total = read_u32 a b c d in
      if ltb packet_max_size total
      then none
      else elim (read_body (total + 1) total 0 (smaller total max_read_size) stream) [
        | received packet size rest ↦ some (packet, rest)
        | threw ↦ none
        | out_of_fuel ↦ none
      ]
  read_packet stream = none

  -- The loop of Process: the packets that are handed to `on_msg`, in order. Each takes four bytes or
  -- more, so that the length of the stream is enough fuel.
  unfoldable pub read_packets : ℕ → List ℕ → List (List ℕ)
  unfolding read_packet
  read_packets zero stream = []
  read_packets (suc fuel) stream = elim (read_packet stream) [
    | none ↦ []
    | some (packet, rest) ↦ packet ∷ read_packets fuel rest
  ]

  unfoldable pub process : List ℕ → List (List ℕ)
  unfolding read_packets
  process stream = read_packets (length stream) stream
