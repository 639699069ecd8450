-- ===== src/Gateway/Isolation.antt =====
-- Whom a reply under an agent id reaches in gateway_service.h, however clients, agents and the service
-- take turns.
use million.Prelude.{
  ℕ, ◌≡◌, ◌⊎◌, Bool, true, false, some, List, [], ◌∷◌, arith, refl, inl, inr, Option-cases,
}
use million.Prelude.Maps.{find, contains, find-assign}
use million.ProtoCodec.{Protobuf, ProtoCodec, encode_message}
use million.Gateway.{
  UserSession, new_user_session, GatewayMsg, gateway_tcp_connection,
  gateway_persistent_user_session, gateway_tcp_recv_packet, gateway_register_user_service_req,
  proto_message, gateway_send_packet, gateway_sure_agent, gateway_reset_agent_id, Element,
  GatewayService, push_element, set_user, set_agent_id, end_task, persistent_received,
  reply_received, process_next, send_to_client,
}
use million.Gateway.Given.{
  UsersGiven, TasksGiven, QueueGiven, IsGiven, push_element-IsGiven, set_user-IsGiven,
  assign-UsersGiven, StartGiven,
}
use million.Gateway.Kept.{IsFresh, process_next-IsGiven}

module _ (pb : Protobuf) where
  abbrev pub new_gateway : ProtoCodec → GatewayService pb
  new_gateway codec = record {
    codec = codec;
    user_service = 0;
    queue = [];
    users = [];
    tasks = [];
    agent_ids = [];
    forwarded = [];
  }

  abbrev pub sent : ℕ → GatewayMsg pb → Element pb
  sent id msg = record { session_id = id; is_reply = false; msg = msg }

  abbrev pub replied : ℕ → GatewayMsg pb → Element pb
  replied id msg = record { session_id = id; is_reply = true; msg = msg }

  -- A connection opens, closes or receives a packet; a service registers or replies; the next message
  -- is processed, where ids that are given to users are new.
  pub data Step (s t : GatewayService pb) : Type 0 where
    open_step :
        (id u : ℕ)
        → contains u s.users ≡ false
        → t
          ≡ push_element pb (sent id (gateway_tcp_connection u)) (set_user pb u new_user_session s)
        → Step s t
    close_step :
        (id u : ℕ) (x : UserSession)
        → find u s.users ≡ some x
        → t
          ≡ push_element pb
              (sent id (gateway_tcp_connection u))
              (set_user pb u (record x { connected = false }) s)
        → Step s t
    packet_step :
        (id u : ℕ) (packet : List ℕ)
        → t ≡ push_element pb (sent id (gateway_tcp_recv_packet u packet)) s
        → Step s t
    register_step :
        (id h : ℕ)
        → t ≡ push_element pb (sent id (gateway_register_user_service_req h)) s
        → Step s t
    reply_step : (id : ℕ) (msg : GatewayMsg pb) → t ≡ push_element pb (replied id msg) s → Step s t
    process_step :
        (alive : ℕ → Bool) (new_id : ℕ) (e : Element pb) (rest : List (Element pb))
        → s.queue ≡ e ∷ rest
        → contains new_id s.agent_ids ≡ false
        → IsFresh pb e.msg s.agent_ids
        → t ≡ process_next pb alive new_id s
        → Step s t

  pub data Reach : GatewayService pb → Type 0 where
    start : (codec : ProtoCodec) → Reach (new_gateway codec)
    next : {s t : GatewayService pb} → Reach s → Step s t → Reach t

  add_user-IsGiven :
      (u : ℕ) (s : GatewayService pb) → IsGiven pb s → IsGiven pb (set_user pb u new_user_session s)
  unfolding set_user
  add_user-IsGiven u s g = record {
    of_users = assign-UsersGiven u new_user_session s.users s.agent_ids g.of_users (inl refl);
    of_tasks = g.of_tasks;
    of_queue = g.of_queue;
  }

  Step-IsGiven : {s t : GatewayService pb} → Step s t → IsGiven pb s → IsGiven pb t
  unfolding StartGiven
  Step-IsGiven {s} (open_step id u c e) g = rw e (
      push_element-IsGiven pb (sent id (gateway_tcp_connection u))
        (set_user pb u new_user_session s) (add_user-IsGiven u s g) (λ v r m. ground arith))
  Step-IsGiven {s} (close_step id u x f e) g = rw e (
      push_element-IsGiven pb (sent id (gateway_tcp_connection u))
        (set_user pb u (record x { connected = false }) s)
        (set_user-IsGiven pb u x (record x { connected = false }) s g f refl)
        (λ v r m. ground arith))
  Step-IsGiven {s} (packet_step id u packet e) g = rw e (
      push_element-IsGiven pb (sent id (gateway_tcp_recv_packet u packet)) s g
        (λ v r m. ground arith))
  Step-IsGiven {s} (register_step id h e) g = rw e (
      push_element-IsGiven pb (sent id (gateway_register_user_service_req h)) s g
        (λ v r m. ground arith))
  Step-IsGiven {s} (reply_step id msg e) g =
      rw e (push_element-IsGiven pb (replied id msg) s g (λ v r m. ground arith))
  Step-IsGiven {s} (process_step alive new_id el rest q new fresh e) g =
      rw e (process_next-IsGiven pb alive new_id el rest s g q new fresh)

  Reach-IsGiven : {s : GatewayService pb} → Reach s → IsGiven pb s
  unfolding find UsersGiven TasksGiven QueueGiven
  Reach-IsGiven (start codec) = record {
    of_users = λ u x f. ground arith;
    of_tasks = λ id u f. ground arith;
    of_queue = tt;
  }
  Reach-IsGiven (next r st) = Step-IsGiven st (Reach-IsGiven r)

  -- A coroutine of one user leaves the others as they are.
  others_kept :
      (id u v : ℕ) (x : UserSession) (msg : GatewayMsg pb) (s : GatewayService pb)
      → ¬ (u ≡ v)
      → find v (persistent_received pb id u x msg s).users ≡ find v s.users
  unfolding persistent_received set_user set_agent_id end_task push_element
  others_kept id u v x (proto_message m) s n = elim (Option-cases (encode_message pb m s.codec)) [
    | inl e ↦ rw (e, persistent_received) refl
    | inr (packet, e) ↦
        rw (e, persistent_received)
          (ground (arith, find-assign u v (send_to_client packet x) s.users))
  ]
  others_kept id u v x (gateway_send_packet packet) s n =
      ground (arith, find-assign u v (send_to_client packet x) s.users)
  others_kept id u v x (gateway_sure_agent a) s n =
      ground (arith, find-assign u v (record x { agent_handle = some a }) s.users)
  others_kept id u v x (gateway_reset_agent_id a) s n =
      ground (arith, find-assign u v (record x { agent_id = a }) s.users)
  others_kept id u v x (gateway_persistent_user_session w) s n = refl
  others_kept id u v x (gateway_tcp_connection w) s n = refl
  others_kept id u v x (gateway_tcp_recv_packet w p) s n = refl
  others_kept id u v x (gateway_register_user_service_req h) s n = refl

  -- However connections open and close, packets come, services reply and messages are processed, where
  -- every agent id that is given to a user is new: a reply under an agent id that was given to a user
  -- leaves the sessions of all other users, and what they are sent, as they are, and none of them has
  -- that agent id.
  pub reply_reaches_owner :
      (s : GatewayService pb) (id u v : ℕ) (msg : GatewayMsg pb) (y : UserSession)
      → Reach s
      → find id s.agent_ids ≡ some u
      → ¬ (u ≡ v)
      → find v s.users ≡ some y
      → (find v (reply_received pb id msg s).users ≡ some y)
        × ((y.agent_id ≡ 0) ⊎ (¬ (y.agent_id ≡ id)))
  unfolding reply_received UsersGiven TasksGiven
  reply_reaches_owner s id u v msg y r owned n f =
      let g = Reach-IsGiven r in
      (
        elim (Option-cases (find id s.tasks)) [
          | inl e ↦ rw (e, reply_received) f
          | inr (w, e) ↦
              let same : w ≡ u = ground (arith, g.of_tasks id w e) in
              elim (Option-cases (find w s.users)) [
                | inl k ↦ rw (e, k, reply_received) f
                | inr (x, k) ↦
                    rw (e, k, reply_received, others_kept id w v x msg s (ground arith)) f
              ]
        ],
        elim (g.of_users v y f) [ inl z ↦ inl z | inr o ↦ inr (λ t. ground arith) ],
      )
