-- ===== src/Gateway/Kept.antt =====
-- The handlers of gateway_service.h keep to whom agent ids were given. Ids are made by one generator, so that
-- an id that is given to a user was not given before.
use million.Prelude.{
  ℕ, ◌≡◌, Bool, true, false, some, List, ◌∷◌, arith, refl, ltb, length, drop, inl, inr, Bool-cases,
  Option-cases, subst,
}
use million.Prelude.Maps.{find, contains}
use million.ProtoCodec.{Protobuf, encode_message, decode_message}
use million.Gateway.{
  UserSession, GatewayMsg, gateway_tcp_connection, gateway_persistent_user_session,
  gateway_tcp_recv_packet, gateway_register_user_service_req, proto_message, gateway_send_packet,
  gateway_sure_agent, gateway_reset_agent_id, Element, GatewayService, push_element, set_agent_id,
  persistent_received, reply_received, tcp_connection, tcp_recv_packet, handle, process_element,
  process_next, send_to_client, gateway_header_size,
}
use million.Gateway.Given.{
  QueueGiven, StartGiven, IsGiven, push_element-IsGiven, set_user-IsGiven, set_agent_id-IsGiven,
  end_task-IsGiven, start_of, start_of-StartGiven, persistent_started-IsGiven,
}

module _ (pb : Protobuf) where
  -- An agent id that a message asks for was not given before.
  unfoldable pub IsFresh : GatewayMsg pb → List (ℕ × ℕ) → Type 0
  IsFresh msg given = (id : ℕ) → msg ≡ gateway_reset_agent_id id → contains id given ≡ false

  persistent_received-IsGiven :
      (id u : ℕ) (x : UserSession) (msg : GatewayMsg pb) (s : GatewayService pb)
      → IsGiven pb s
      → find u s.users ≡ some x
      → IsFresh msg s.agent_ids
      → IsGiven pb (persistent_received pb id u x msg s)
  unfolding persistent_received IsFresh send_to_client set_agent_id find
  persistent_received-IsGiven id u x (proto_message m) s g f new =
      elim (Option-cases (encode_message pb m s.codec)) [
        | inl n ↦ rw (n, persistent_received) g
        | inr (packet, e) ↦
            rw (e, persistent_received)
              (set_user-IsGiven pb u x (send_to_client packet x) s g f refl)
      ]
  persistent_received-IsGiven id u x (gateway_send_packet packet) s g f new =
      set_user-IsGiven pb u x (send_to_client packet x) s g f refl
  persistent_received-IsGiven id u x (gateway_sure_agent a) s g f new =
      set_user-IsGiven pb u x (record x { agent_handle = some a }) s g f refl
  persistent_received-IsGiven id u x (gateway_reset_agent_id a) s g f new =
      let t = set_agent_id pb a u x s in
      let given = set_agent_id-IsGiven pb a u x s g (new a refl) in
      end_task-IsGiven pb id (push_element pb (start_of pb a u) t) (
        push_element-IsGiven pb (start_of pb a u) t given
          (start_of-StartGiven pb a u t.agent_ids (ground arith)))
  persistent_received-IsGiven id u x (gateway_persistent_user_session v) s g f new =
      end_task-IsGiven pb id s g
  persistent_received-IsGiven id u x (gateway_tcp_connection v) s g f new = g
  persistent_received-IsGiven id u x (gateway_tcp_recv_packet v p) s g f new = g
  persistent_received-IsGiven id u x (gateway_register_user_service_req h) s g f new = g

  reply_received-IsGiven :
      (id : ℕ) (msg : GatewayMsg pb) (s : GatewayService pb)
      → IsGiven pb s
      → IsFresh msg s.agent_ids
      → IsGiven pb (reply_received pb id msg s)
  unfolding reply_received
  reply_received-IsGiven id msg s g new = elim (Option-cases (find id s.tasks)) [
    | inl n ↦ rw (n, reply_received) g
    | inr (u, e) ↦ elim (Option-cases (find u s.users)) [
      | inl n ↦ rw (e, n, reply_received) g
      | inr (x, f) ↦ rw (e, f, reply_received) (persistent_received-IsGiven id u x msg s g f new)
    ]
  ]

  opens :
      (new_id u : ℕ) (x : UserSession) (s : GatewayService pb)
      → x.connected ≡ true
      → tcp_connection pb new_id u x s
        ≡ push_element pb (start_of pb new_id u) (set_agent_id pb new_id u x s)
  unfolding tcp_connection push_element set_agent_id
  opens new_id u x s c = ground arith

  tcp_connection-IsGiven :
      (new_id u : ℕ) (x : UserSession) (s : GatewayService pb)
      → IsGiven pb s
      → contains new_id s.agent_ids ≡ false
      → IsGiven pb (tcp_connection pb new_id u x s)
  unfolding tcp_connection set_agent_id find StartGiven
  tcp_connection-IsGiven new_id u x s g new = elim (Bool-cases x.connected) [
    | inl c ↦
        let t = set_agent_id pb new_id u x s in
        rw (opens new_id u x s c) (
          push_element-IsGiven pb (start_of pb new_id u) t
            (set_agent_id-IsGiven pb new_id u x s g new)
            (start_of-StartGiven pb new_id u t.agent_ids (ground arith)))
    | inr c ↦
        rw (c, tcp_connection)
          (push_element-IsGiven pb
            (record {
              session_id = x.agent_id;
              is_reply = true;
              msg = gateway_persistent_user_session u;
            })
            s g (λ v r m. ground arith))
  ]

  -- Forwarding a packet leaves the users and their coroutines as they are.
  tcp_recv_packet-IsGiven :
      (alive : ℕ → Bool) (x : UserSession) (packet : List ℕ) (s : GatewayService pb)
      → IsGiven pb s
      → IsGiven pb (tcp_recv_packet pb alive x packet s)
  unfolding tcp_recv_packet
  tcp_recv_packet-IsGiven alive x packet s g =
      elim (Bool-cases (ltb (length packet) gateway_header_size)) [
        | inl short ↦ rw (short, tcp_recv_packet) g
        | inr whole ↦
            elim (Option-cases (decode_message pb (drop gateway_header_size packet) s.codec)) [
              | inl n ↦ rw (whole, n, tcp_recv_packet) g
              | inr (res, e) ↦
                  rw (whole, e, tcp_recv_packet)
                    (record { of_users = g.of_users; of_tasks = g.of_tasks; of_queue = g.of_queue })
            ]
      ]

  handle-IsGiven :
      (alive : ℕ → Bool) (new_id id : ℕ) (msg : GatewayMsg pb) (s : GatewayService pb)
      → IsGiven pb s
      → contains new_id s.agent_ids ≡ false
      → ((u : ℕ) → msg ≡ gateway_persistent_user_session u → find id s.agent_ids ≡ some u)
      → IsGiven pb (handle pb alive new_id id msg s)
  unfolding handle
  handle-IsGiven alive new_id id (gateway_tcp_connection u) s g new start =
      elim (Option-cases (find u s.users)) [
        | inl n ↦ rw (n, handle) g
        | inr (x, f) ↦ rw (f, handle) (tcp_connection-IsGiven new_id u x s g new)
      ]
  handle-IsGiven alive new_id id (gateway_tcp_recv_packet u packet) s g new start =
      elim (Option-cases (find u s.users)) [
        | inl n ↦ rw (n, handle) g
        | inr (x, f) ↦ rw (f, handle) (tcp_recv_packet-IsGiven alive x packet s g)
      ]
  handle-IsGiven alive new_id id (gateway_persistent_user_session u) s g new start =
      persistent_started-IsGiven pb id u s g (start u refl)
  handle-IsGiven alive new_id id (gateway_register_user_service_req h) s g new start = record {
    of_users = g.of_users;
    of_tasks = g.of_tasks;
    of_queue = g.of_queue;
  }
  handle-IsGiven alive new_id id (proto_message m) s g new start = g
  handle-IsGiven alive new_id id (gateway_send_packet p) s g new start = g
  handle-IsGiven alive new_id id (gateway_sure_agent h) s g new start = g
  handle-IsGiven alive new_id id (gateway_reset_agent_id a) s g new start = g

  pub process_next-IsGiven :
      (alive : ℕ → Bool) (new_id : ℕ) (e : Element pb) (rest : List (Element pb))
      (s : GatewayService pb)
      → IsGiven pb s
      → s.queue ≡ e ∷ rest
      → contains new_id s.agent_ids ≡ false
      → IsFresh e.msg s.agent_ids
      → IsGiven pb (process_next pb alive new_id s)
  unfolding process_next process_element StartGiven QueueGiven
  process_next-IsGiven alive new_id e rest s g q new fresh =
      let queued : StartGiven pb e s.agent_ids × QueueGiven pb rest s.agent_ids =
        subst (λ (es : List (Element pb)). QueueGiven pb es s.agent_ids) q g.of_queue in
      let t : IsGiven pb (record s { queue = rest }) = record {
        of_users = g.of_users;
        of_tasks = g.of_tasks;
        of_queue = queued.1;
      } in
      elim (Bool-cases e.is_reply) [
        | inl r ↦
            rw (q, process_next, process_element, r)
              (reply_received-IsGiven e.session_id e.msg (record s { queue = rest }) t fresh)
        | inr r ↦
            rw (q, process_next, process_element, r)
              (handle-IsGiven alive new_id e.session_id e.msg (record s { queue = rest }) t new
                (λ u m. queued.0 u r m))
      ]
