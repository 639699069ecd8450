-- ===== src/Session.antt =====
-- million/include/million/session_def.h: session ids and the flag in their highest bit, which tells
-- a reply from the message that it answers.
pub mod Flag
mod Tests
use million.Prelude.{ℕ, ◌/◌, ◌^◌, Bool, not, bit_and, bit_or, ◌==◌}

abbrev pub session_id_invalid : ℕ
session_id_invalid = 0

abbrev pub session_never_timeout : ℕ
session_never_timeout = 0xffffffff

unfoldable pub session_send_to_reply_id : ℕ → ℕ
session_send_to_reply_id session_id = bit_or session_id 0x8000000000000000

unfoldable pub session_reply_to_send_id : ℕ → ℕ
session_reply_to_send_id session_id = bit_and session_id 0x7fffffffffffffff

-- `session_id >> 63`, read as a truth value.
unfoldable pub session_is_reply_id : ℕ → Bool
session_is_reply_id session_id = not (session_id / 2 ^ 63 == 0)

unfoldable pub session_is_send_id : ℕ → Bool
session_is_send_id session_id = not (not (session_id / 2 ^ 63 == 0))
