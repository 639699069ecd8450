-- ===== src/Gateway/Leak.antt =====
-- A persistent session of gateway_service.h that outlives its connection.
use million.Prelude.{ℕ, zero, suc, Bool}
use million.ProtoCodec.{Protobuf}
use million.Gateway.{GatewayService, process_next}

module _ (pb : Protobuf) where
  -- A number of messages are processed.
  unfoldable pub process_some : ℕ → (ℕ → Bool) → ℕ → GatewayService pb → GatewayService pb
  process_some zero alive new_id s = s
  process_some (suc n) alive new_id s = process_some n alive new_id (process_next pb alive new_id s)
