-- ===== src/Message.antt =====
-- The messages that the framework itself tells apart: million/include/million/message.h (the null
-- pointer and the type key), the three life-cycle messages of million/src/service_mgr.h and the
-- timeout message of million/src/session_monitor.h. The contents of any other message are opaque.
use million.Prelude.{ℕ, Bool, true, false}

mutual
  pub data MessagePointer : Type 0 where
    null : MessagePointer
    holds : Message → MessagePointer

  pub data Message : Type 0 where
    service_start_msg : MessagePointer → Message
    service_stop_msg : MessagePointer → Message
    service_exit_msg : Message
    session_timeout_msg : ℕ → Message
    user_msg : ℕ → ℕ → Message  -- type key, contents

-- `operator bool`.
abbrev pub is_set : MessagePointer → Bool
is_set null = false
is_set (holds m) = true

-- `IsType<ServiceExitMsg>()`.
abbrev pub is_exit_msg : Message → Bool
is_exit_msg service_exit_msg = true
is_exit_msg _ = false
