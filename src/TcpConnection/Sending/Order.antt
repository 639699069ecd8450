-- ===== src/TcpConnection/Sending/Order.antt =====
-- One coroutine at a time writes what is sent, in order.
use million.Prelude.{
  ℕ, ◌≡◌, true, false, List, [], ◌∷◌, ◌++◌, take, drop, take-append-drop, arith, refl, sym,
  List-cases, inl, inr, ◌∙◌,
}
use mathlib.Core.List.{append_assoc, append-nil}
use million.TcpConnection.{SendPacket, write_all, write_packet}
use million.TcpConnection.Sending.{
  Sender, swapping, writing, writing_span, Connection, send, length_bytes, resume, next_write,
  resumed, write_failed, Step, send_step, resume_step, fail_step, Reach, start, next,
}

pub write_all-append :
    (ps qs : List SendPacket) → write_all (ps ++ qs) ≡ write_all ps ++ write_all qs
unfolding write_all
write_all-append [] qs = refl
write_all-append (p ∷ ps) qs =
    rw (write_all-append ps qs) (sym (append_assoc (write_packet p) (write_all ps) (write_all qs)))

-- What a coroutine has left to write of the entries it has taken.
unfoldable pub left : Sender → List ℕ
left swapping = []
left (writing ps) = write_all ps
left (writing_span p ps) = p.span ++ write_all ps

-- No coroutine writes: either there is none, all is written and the next Send starts one, or one has
-- failed, and none is started again. Otherwise there is one, and what it has left and what is queued
-- is what is missing.
pub data IsOrdered (c : Connection) : Type 0 where
  resting :
      c.senders ≡ []
      → c.send_queue ≡ []
      → c.sending ≡ false
      → c.failed ≡ false
      → c.written ≡ write_all c.sent
      → IsOrdered c
  busy :
      (s : Sender)
      → c.senders ≡ s ∷ []
      → c.sending ≡ true
      → c.failed ≡ false
      → c.written ++ (left s ++ write_all c.send_queue) ≡ write_all c.sent
      → IsOrdered c
  dead :
      (missing : List ℕ)
      → c.senders ≡ []
      → c.sending ≡ true
      → c.failed ≡ true
      → c.written ++ missing ≡ write_all c.sent
      → IsOrdered c

none_there {ℓ} :
    {A : Type ℓ} (pre : List Sender) (s : Sender) (post : List Sender) → [] ≡ pre ++ (s ∷ post) → A
none_there [] s post e = ground arith
none_there (x ∷ pre) s post e = ground arith

only_one :
    (pre : List Sender) (r s : Sender) (post : List Sender)
    → r ∷ [] ≡ pre ++ (s ∷ post)
    → (pre ≡ []) × (s ≡ r) × (post ≡ [])
only_one [] r s post e = (refl, ground arith, ground arith)
only_one (x ∷ []) r s post e = ground arith
only_one (x ∷ y ∷ pre) r s post e = ground arith

some_sender :
    {c : Connection} (pre : List Sender) (s : Sender) (post : List Sender)
    → c.senders ≡ pre ++ (s ∷ post)
    → IsOrdered c
    → (r : Sender) × (c.senders ≡ r ∷ [])
some_sender pre s post e (resting a b d f g) = none_there pre s post (sym a ∙ e)
some_sender pre s post e (dead missing a d f g) = none_there pre s post (sym a ∙ e)
some_sender pre s post e (busy r a d f g) = (r, a)

send-IsOrdered : (p : SendPacket) (c : Connection) → IsOrdered c → IsOrdered (send p c)
unfolding send write_all left
send-IsOrdered p c (resting a b d e f) =
    busy swapping (rw (a, d) refl) refl e (rw (write_all-append c.sent (p ∷ []), b, f) refl)
send-IsOrdered p c (busy s a d e f) = busy s (rw (d, a) refl) refl e (
    rw (write_all-append c.send_queue (p ∷ []), write_all-append c.sent (p ∷ []), sym f)
      (simp append_assoc))
send-IsOrdered p c (dead missing a d e f) =
    dead (missing ++ write_all (p ∷ [])) (rw (d, a) refl) refl e
      (rw (write_all-append c.sent (p ∷ []), sym f) (simp append_assoc))

-- What is known while there is a coroutine.
at_work :
    (s : Sender) (c : Connection)
    → c.senders ≡ s ∷ []
    → IsOrdered c
    → (c.sending ≡ true)
      × (c.failed ≡ false)
      × (c.written ++ (left s ++ write_all c.send_queue) ≡ write_all c.sent)
at_work s c e (resting a b d f g) = ground arith
at_work s c e (dead missing a d f g) = ground arith
at_work s c e (busy r a d f g) = let q : s ≡ r = ground arith in (d, f, rw q g)

packet_parts : (p : SendPacket) → write_packet p ≡ length_bytes p ++ p.span
unfolding write_packet
packet_parts p = ground arith

left_parts : (s : Sender) → (more : List ℕ) × (left s ≡ next_write s ++ more)
unfolding left write_all
left_parts swapping = ([], refl)
left_parts (writing []) = ([], refl)
left_parts (writing (p ∷ ps)) = (
  p.span ++ write_all ps,
  rw (packet_parts p) (append_assoc (length_bytes p) p.span (write_all ps)),
)
left_parts (writing_span p ps) = (write_all ps, refl)

resume-IsOrdered :
    (s : Sender) (c : Connection) → c.senders ≡ s ∷ [] → IsOrdered c → IsOrdered (resumed [] s [] c)
unfolding resumed resume left write_all write_packet
resume-IsOrdered swapping c e ok =
    let (d, f, g) = at_work swapping c e ok in
    elim (List-cases c.send_queue) [
      | inl empty ↦
          rw (empty, resume) (resting refl empty refl f (rw (sym g, empty) (simp append-nil)))
      | inr (p, ps, more) ↦
          rw (more, resume) (busy (writing (p ∷ ps)) refl d f (rw (sym g, more) (simp append-nil)))
    ]
resume-IsOrdered (writing []) c e ok =
    let (d, f, g) = at_work (writing []) c e ok in busy swapping refl d f g
resume-IsOrdered (writing (p ∷ ps)) c e ok =
    let (d, f, g) = at_work (writing (p ∷ ps)) c e ok in
    busy (writing_span p ps) refl d f (rw (sym g, packet_parts p) (simp append_assoc))
resume-IsOrdered (writing_span p ps) c e ok =
    let (d, f, g) = at_work (writing_span p ps) c e ok in
    busy (writing ps) refl d f (rw (sym g) (simp append_assoc))

rejoin : (k : ℕ) (xs ys : List ℕ) → take k xs ++ (drop k xs ++ ys) ≡ xs ++ ys
rejoin k xs ys = rw (sym (append_assoc (take k xs) (drop k xs) ys), take-append-drop k xs) refl

failed-IsOrdered :
    (s : Sender) (k : ℕ) (c : Connection)
    → c.senders ≡ s ∷ []
    → IsOrdered c
    → IsOrdered (write_failed [] s [] k c)
unfolding write_failed
failed-IsOrdered s k c e ok =
    let (d, f, g) = at_work s c e ok in
    let (more, h) = left_parts s in
    let bytes = next_write s in
    dead (drop k bytes ++ (more ++ write_all c.send_queue)) refl d refl (
      rw (sym g, h) (simp append_assoc (rw (rejoin k bytes (more ++ write_all c.send_queue)) refl)))

Step-IsOrdered : {c d : Connection} → Step c d → IsOrdered c → IsOrdered d
Step-IsOrdered (send_step p e) ok = rw e (send-IsOrdered p _ ok)
Step-IsOrdered {c} (resume_step pre s post at e) ok =
    let (r, f) = some_sender pre s post at ok in
    let (x, y, z) = only_one pre r s post (sym f ∙ at) in
    rw (e, x, y, z) (resume-IsOrdered r c f ok)
Step-IsOrdered {c} (fail_step pre s post k at e) ok =
    let (r, f) = some_sender pre s post at ok in
    let (x, y, z) = only_one pre r s post (sym f ∙ at) in
    rw (e, x, y, z) (failed-IsOrdered r k c f ok)

pub Reach-IsOrdered : {c : Connection} → Reach c → IsOrdered c
unfolding write_all
Reach-IsOrdered start = resting refl refl refl refl refl
Reach-IsOrdered (next r st) = Step-IsOrdered st (Reach-IsOrdered r)
