-- ===== src/ServiceCore/Queue.antt =====
-- The message queue of service_core.cpp, and what holds of every number of processed messages.
use million.Prelude.{ℕ, zero, suc, some, ◌∷◌, ◌≡◌, ◌≢◌, inl, inr, arith, Option-cases, Bool-cases}
use million.ServiceCore.{
  exited, ServiceCore, IService, MessageElement, process_msg, process_msgs, pop_msg, is_exited,
}

-- Taking a message from the queue changes nothing but the queue.
pub pop_msg_keeps :
    (s : ServiceCore) (ele : MessageElement) (t : ServiceCore)
    → pop_msg s ≡ some (ele, t)
    → (s.stage ≡ t.stage) × (t.tasks ≡ s.tasks) × (s.msgs ≡ ele ∷ t.msgs)
unfolding pop_msg
pop_msg_keeps s ele t e = ground arith

-- What a message that is processed by an unexited service keeps holds after any number of them.
pub process_msgs_inv {ℓ} :
    (P : ServiceCore → Type ℓ)
    → ((j : IService) (ele : MessageElement) (s t : ServiceCore)
        → s.stage ≢ exited
        → pop_msg s ≡ some (ele, t)
        → P s
        → P (process_msg j ele t).0)
    → (count : ℕ) (i : ℕ → IService) (s : ServiceCore) → P s
    → P (process_msgs count i s).0
unfolding process_msgs
process_msgs_inv P keep zero i s p = p
process_msgs_inv P keep (suc count) i s p = elim (Bool-cases (is_exited s.stage)) [
  | inl gone ↦ rw gone p
  | inr alive ↦ elim (Option-cases (pop_msg s)) [
    | inl empty ↦ rw (alive, empty) p
    | inr ((ele, t), e) ↦
        rw (alive, e)
          (process_msgs_inv P keep count (λ n. i (suc n)) (process_msg (i 0) ele t).0
            (keep (i 0) ele s t (λ x. ground arith) e p))
  ]
]
