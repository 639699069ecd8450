-- ===== src/Session/Tests.antt =====
-- Runs of session_def.h.
use million.Prelude.{◌≡◌, refl}
use million.Session.{session_send_to_reply_id}

flagged : session_send_to_reply_id 5 ≡ 0x8000000000000005
unfolding session_send_to_reply_id
flagged = refl
