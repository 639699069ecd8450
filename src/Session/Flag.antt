-- ===== src/Session/Flag.antt =====
-- What the two conversions of session_def.h do to the flag and to the rest of the id.
use million.Prelude.{ℕ, ◌+◌, ◌%◌, ◌^◌, ◌<◌, ◌≡◌, true, false, arith}
use million.Prelude.Bits.{bit_or_high, bit_and_mask}
use million.Session.{
  session_send_to_reply_id, session_reply_to_send_id, session_is_reply_id, session_is_send_id,
}

pub send_to_reply_sum : (id : ℕ) → id < 2 ^ 63 → session_send_to_reply_id id ≡ 2 ^ 63 + id
unfolding session_send_to_reply_id
send_to_reply_sum id h = ground (arith, bit_or_high 63 0 1 id h)

send_to_reply_flagged :
    (id : ℕ) → id < 2 ^ 63 → session_send_to_reply_id (2 ^ 63 + id) ≡ 2 ^ 63 + id
unfolding session_send_to_reply_id
send_to_reply_flagged id h = ground (arith, bit_or_high 63 1 1 id h)

pub reply_to_send_mod : (id : ℕ) → session_reply_to_send_id id ≡ id % 2 ^ 63
unfolding session_reply_to_send_id
reply_to_send_mod id = bit_and_mask 63 id

pub is_send_of_lt : (id : ℕ) → id < 2 ^ 63 → session_is_send_id id ≡ true
unfolding session_is_send_id
is_send_of_lt id h = ground arith

-- The id of a sent message, below 2 ^ 63, is not taken for a reply; flagged as a reply it is one,
-- and clearing the flag gives the id back.
pub reply_to_send-send_to_reply :
    (id : ℕ)
    → id < 2 ^ 63
    → (session_reply_to_send_id (session_send_to_reply_id id) ≡ id)
      × (session_is_reply_id id ≡ false)
      × (session_is_reply_id (session_send_to_reply_id id) ≡ true)
      × (session_is_send_id (session_send_to_reply_id id) ≡ false)
unfolding session_is_reply_id session_is_send_id
reply_to_send-send_to_reply id h =
    ground (arith, send_to_reply_sum id h, reply_to_send_mod (session_send_to_reply_id id))
