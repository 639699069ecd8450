-- ===== src/Gateway/Given.antt =====
-- To whom the agent ids of gateway_service.h were given.
use million.Prelude.{
  ℕ, ◌≡◌, ◌⊎◌, false, some, List, [], ◌∷◌, ◌++◌, ◌==◌, arith, sym, inl, inr, Bool-cases,
}
use million.Prelude.Maps.{
  find, contains, erase, emplace, assign, find-erase, find-emplace, find-assign, find_of_absent,
}
use million.ProtoCodec.{Protobuf}
use million.Gateway.{
  UserSession, gateway_persistent_user_session, Element, GatewayService, push_element, set_user,
  set_agent_id, end_task, persistent_started,
}

-- Every agent id of a user is 0 or was given to that user.
unfoldable pub UsersGiven : List (ℕ × UserSession) → List (ℕ × ℕ) → Type 0
UsersGiven users given =
    (u : ℕ) (x : UserSession)
    → find u users ≡ some x
    → (x.agent_id ≡ 0) ⊎ (find x.agent_id given ≡ some u)

-- Every coroutine waits under an id that was given to its user.
unfoldable pub TasksGiven : List (ℕ × ℕ) → List (ℕ × ℕ) → Type 0
TasksGiven tasks given = (id u : ℕ) → find id tasks ≡ some u → find id given ≡ some u

kept_by_given :
    (id u k v : ℕ) (m : List (ℕ × ℕ))
    → contains id m ≡ false
    → find k m ≡ some v
    → find k ((id, u) ∷ m) ≡ some v
unfolding find
kept_by_given id u k v m c f = ground (arith, find_of_absent id m c)

pub assign-UsersGiven :
    (u : ℕ) (y : UserSession) (users : List (ℕ × UserSession)) (given : List (ℕ × ℕ))
    → UsersGiven users given
    → (y.agent_id ≡ 0) ⊎ (find y.agent_id given ≡ some u)
    → UsersGiven (assign u y users) given
unfolding UsersGiven
assign-UsersGiven u y users given g o = λ v z h. elim (Bool-cases (u == v)) [
  | inl t ↦
      let same : y ≡ z = ground (arith, find-assign u v y users) in
      let who : u ≡ v = ground arith in rw (sym same, sym who) o
  | inr n ↦ g v z (ground (arith, find-assign u v y users))
]

more-UsersGiven :
    (id u : ℕ) (users : List (ℕ × UserSession)) (given : List (ℕ × ℕ))
    → contains id given ≡ false
    → UsersGiven users given
    → UsersGiven users ((id, u) ∷ given)
unfolding UsersGiven
more-UsersGiven id u users given c g = λ v z h. elim (g v z h) [
  | inl none_yet ↦ inl none_yet
  | inr owned ↦ inr (kept_by_given id u z.agent_id v given c owned)
]

more-TasksGiven :
    (id u : ℕ) (tasks given : List (ℕ × ℕ))
    → contains id given ≡ false
    → TasksGiven tasks given
    → TasksGiven tasks ((id, u) ∷ given)
unfolding TasksGiven
more-TasksGiven id u tasks given c g = λ k v h. kept_by_given id u k v given c (g k v h)

erase-TasksGiven :
    (id : ℕ) (tasks given : List (ℕ × ℕ))
    → TasksGiven tasks given
    → TasksGiven (erase id tasks) given
unfolding TasksGiven
erase-TasksGiven id tasks given g = λ k v h. g k v (ground (arith, find-erase id k tasks))

emplace-TasksGiven :
    (id u : ℕ) (tasks given : List (ℕ × ℕ))
    → TasksGiven tasks given
    → find id given ≡ some u
    → TasksGiven (emplace id u tasks) given
unfolding TasksGiven
emplace-TasksGiven id u tasks given g o = λ k v h. elim (Bool-cases (id == k)) [
  | inl t ↦ elim (Bool-cases (contains id tasks)) [
    | inl c ↦ g k v (ground (arith, find-emplace id k u tasks))
    | inr c ↦
        let same : u ≡ v = ground (arith, find-emplace id k u tasks) in
        let who : id ≡ k = ground arith in rw (sym same, sym who) o
  ]
  | inr n ↦ g k v (ground (arith, find-emplace id k u tasks))
]

module _ (pb : Protobuf) where
  -- A coroutine that is to be started will wait under an id that was given to its user.
  unfoldable pub StartGiven : Element pb → List (ℕ × ℕ) → Type 0
  StartGiven e given =
      (u : ℕ)
      → e.is_reply ≡ false
      → e.msg ≡ gateway_persistent_user_session u
      → find e.session_id given ≡ some u

  unfoldable pub QueueGiven : List (Element pb) → List (ℕ × ℕ) → Type 0
  unfolding StartGiven
  QueueGiven [] given = Unit
  QueueGiven (e ∷ es) given = StartGiven e given × QueueGiven es given

  more-QueueGiven :
      (id u : ℕ) (es : List (Element pb)) (given : List (ℕ × ℕ))
      → contains id given ≡ false
      → QueueGiven es given
      → QueueGiven es ((id, u) ∷ given)
  unfolding QueueGiven StartGiven
  more-QueueGiven id u [] given c g = tt
  more-QueueGiven id u (e ∷ es) given c (h, g) = (
    λ v r m. kept_by_given id u e.session_id v given c (h v r m),
    more-QueueGiven id u es given c g,
  )

  append-QueueGiven :
      (es : List (Element pb)) (e : Element pb) (given : List (ℕ × ℕ))
      → QueueGiven es given
      → StartGiven e given
      → QueueGiven (es ++ e ∷ []) given
  unfolding QueueGiven
  append-QueueGiven [] e given g h = (h, tt)
  append-QueueGiven (f ∷ es) e given (k, g) h = (k, append-QueueGiven es e given g h)

  -- The message that starts the coroutine of a user under an id that was given to it.
  abbrev pub start_of : ℕ → ℕ → Element pb
  start_of id u = record {
    session_id = id;
    is_reply = false;
    msg = gateway_persistent_user_session u;
  }

  pub start_of-StartGiven :
      (id u : ℕ) (given : List (ℕ × ℕ)) → find id given ≡ some u → StartGiven (start_of id u) given
  unfolding StartGiven
  start_of-StartGiven id u given f = λ v r m. let who : u ≡ v = ground arith in rw (sym who) f

  -- Sessions, coroutines and what is to be started are under ids that were given to their users.
  pub record IsGiven (s : GatewayService pb) : Type 0 where
    pub of_users : UsersGiven s.users s.agent_ids
    pub of_tasks : TasksGiven s.tasks s.agent_ids
    pub of_queue : QueueGiven s.queue s.agent_ids

  -- A message that is pushed from outside starts no coroutine.
  pub push_element-IsGiven :
      (e : Element pb) (s : GatewayService pb)
      → IsGiven s
      → StartGiven e s.agent_ids
      → IsGiven (push_element pb e s)
  unfolding push_element
  push_element-IsGiven e s g h = record {
    of_users = g.of_users;
    of_tasks = g.of_tasks;
    of_queue = append-QueueGiven s.queue e s.agent_ids g.of_queue h;
  }

  pub set_user-IsGiven :
      (u : ℕ) (x y : UserSession) (s : GatewayService pb)
      → IsGiven s
      → find u s.users ≡ some x
      → y.agent_id ≡ x.agent_id
      → IsGiven (set_user pb u y s)
  unfolding set_user UsersGiven
  set_user-IsGiven u x y s g f e = record {
    of_users = assign-UsersGiven u y s.users s.agent_ids g.of_users (rw e (g.of_users u x f));
    of_tasks = g.of_tasks;
    of_queue = g.of_queue;
  }

  pub set_agent_id-IsGiven :
      (id u : ℕ) (x : UserSession) (s : GatewayService pb)
      → IsGiven s
      → contains id s.agent_ids ≡ false
      → IsGiven (set_agent_id pb id u x s)
  unfolding set_agent_id find
  set_agent_id-IsGiven id u x s g c = record {
    of_users =
        assign-UsersGiven u (record x { agent_id = id }) s.users ((id, u) ∷ s.agent_ids)
          (more-UsersGiven id u s.users s.agent_ids c g.of_users) (inr (ground arith));
    of_tasks = more-TasksGiven id u s.tasks s.agent_ids c g.of_tasks;
    of_queue = more-QueueGiven id u s.queue s.agent_ids c g.of_queue;
  }

  pub end_task-IsGiven : (id : ℕ) (s : GatewayService pb) → IsGiven s → IsGiven (end_task pb id s)
  unfolding end_task
  end_task-IsGiven id s g = record {
    of_users = g.of_users;
    of_tasks = erase-TasksGiven id s.tasks s.agent_ids g.of_tasks;
    of_queue = g.of_queue;
  }

  emplace_task-IsGiven :
      (id u : ℕ) (s : GatewayService pb)
      → IsGiven s
      → find id s.agent_ids ≡ some u
      → IsGiven (record s { tasks = emplace id u s.tasks })
  emplace_task-IsGiven id u s g f = record {
    of_users = g.of_users;
    of_tasks = emplace-TasksGiven id u s.tasks s.agent_ids g.of_tasks f;
    of_queue = g.of_queue;
  }

  pub persistent_started-IsGiven :
      (id u : ℕ) (s : GatewayService pb)
      → IsGiven s
      → find id s.agent_ids ≡ some u
      → IsGiven (persistent_started pb id u s)
  unfolding persistent_started
  persistent_started-IsGiven id u s g f = elim (Bool-cases (id == 0)) [
    | inl t ↦ rw (t, persistent_started) g
    | inr t ↦ rw (t, persistent_started) (emplace_task-IsGiven id u s g f)
  ]
