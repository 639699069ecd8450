-- ===== src/TcpConnection/Sending.antt =====
-- The send queue of million/src/net/tcp_connection.cpp and the coroutines that write it: any number
-- of threads call Send, and the coroutines run between two of their suspensions in any order.
pub mod Order
pub mod Delivery
use million.Prelude.{ℕ, ◌≡◌, Bool, true, false, List, [], ◌∷◌, ◌++◌, if◌then◌else◌, take, ◌==◌}
use million.TcpConnection.{SendPacket, wire_u32, write_all}

-- Where a sending coroutine stands, with its tmp_queue: before it looks at the send queue, before an
-- entry, and between the length and the bytes of an entry.
pub data Sender : Type 0 where
  swapping : Sender
  writing : List SendPacket → Sender
  writing_span : SendPacket → List SendPacket → Sender

pub record Connection : Type 0 where
  pub send_queue : List SendPacket
  pub sending : Bool
  pub senders : List Sender
  -- what the socket has taken
  pub written : List ℕ
  -- every entry that Send was called with, and whether a write threw
  pub sent : List SendPacket
  pub failed : Bool

abbrev pub new_connection : Connection
new_connection = record {
  send_queue = [];
  sending = false;
  senders = [];
  written = [];
  sent = [];
  failed = false;
}

-- Send under send_queue_mutex_, and the coroutine that it starts.
unfoldable pub send : SendPacket → Connection → Connection
send p c = record c {
  send_queue = c.send_queue ++ (p ∷ []);
  sending = true;
  senders = if c.sending then c.senders else c.senders ++ (swapping ∷ []);
  sent = c.sent ++ (p ∷ []);
}

abbrev pub length_bytes : SendPacket → List ℕ
length_bytes p = if p.total_size == 0 then [] else wire_u32 p.total_size

-- The next part of a coroutine; it goes on as the coroutines of the list, of which there is one or
-- none.
unfoldable pub resume : Sender → Connection → Connection × List Sender
resume swapping c = elim c.send_queue [
  | [] ↦ (record c { sending = false }, [])
  | p ∷ ps ↦ (record c { send_queue = [] }, writing (p ∷ ps) ∷ [])
]
resume (writing []) c = (c, swapping ∷ [])
resume (writing (p ∷ ps)) c =
    (record c { written = c.written ++ length_bytes p }, writing_span p ps ∷ [])
resume (writing_span p ps) c = (record c { written = c.written ++ p.span }, writing ps ∷ [])

-- What a coroutine writes next.
abbrev pub next_write : Sender → List ℕ
next_write swapping = []
next_write (writing []) = []
next_write (writing (p ∷ ps)) = length_bytes p
next_write (writing_span p ps) = p.span

unfoldable pub resumed : List Sender → Sender → List Sender → Connection → Connection
unfolding resume
resumed pre s post c = record (resume s c).0 { senders = pre ++ ((resume s c).1 ++ post) }

-- A write that throws after some bytes: the coroutine ends, and `sending_` stays set.
unfoldable pub write_failed : List Sender → Sender → List Sender → ℕ → Connection → Connection
write_failed pre s post k c = record c {
  written = c.written ++ take k (next_write s);
  senders = pre ++ post;
  failed = true;
}

pub data Step (c d : Connection) : Type 0 where
  send_step : (p : SendPacket) → d ≡ send p c → Step c d
  resume_step :
      (pre : List Sender) (s : Sender) (post : List Sender)
      → c.senders ≡ pre ++ (s ∷ post)
      → d ≡ resumed pre s post c
      → Step c d
  fail_step :
      (pre : List Sender) (s : Sender) (post : List Sender) (k : ℕ)
      → c.senders ≡ pre ++ (s ∷ post)
      → d ≡ write_failed pre s post k c
      → Step c d

pub data Reach : Connection → Type 0 where
  start : Reach new_connection
  next : {c d : Connection} → Reach c → Step c d → Reach d
