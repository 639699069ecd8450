-- ===== src/TcpConnection/Buffer.antt =====
-- The buffer of tcp_connection.cpp has room for every chunk that is read into it.
use million.Prelude.{
  ℕ, zero, suc, ◌+◌, ◌*◌, ◌%◌, ◌^◌, ◌<◌, ◌≤◌, ◌≡◌, some, ltb, arith, refl, Bool-cases, inl, inr,
  tests, if◌then◌else◌,
}
use million.TcpConnection.{grow, max_expansion_size, packet_max_size}

-- A buffer that has a byte grows until it has the room that is needed, which is at most the largest
-- packet, to a size that 32 bits hold; the loop ends after at most as many rounds as there are bytes
-- needed.
pub grow_lem :
    (fuel size needed : ℕ)
    → 0 < size
    → size ≤ packet_max_size * 2
    → needed ≤ packet_max_size
    → needed < size + fuel
    → 0 < fuel
    → (new_size : ℕ) × (grow fuel size needed ≡ some new_size)
      × (needed ≤ new_size)
      × (size ≤ new_size)
      × (new_size ≤ packet_max_size * 2)
unfolding grow
grow_lem zero size needed p b l f q = absurd (omega arith)
grow_lem (suc fuel) size needed p b l f q = elim (Bool-cases (ltb size needed)) [
  | inl small ↦
      let next =
        if ltb size max_expansion_size
        then size * 2 % 2 ^ 32
        else (size + max_expansion_size) % 2 ^ 32 in
      let more : size < next = ground arith in
      let bound : next ≤ packet_max_size * 2 = ground arith in
      let (n, e, u, v, w) =
        grow_lem fuel next needed (omega arith) bound l (omega tests) (omega tests) in
      (n, rw (small, grow) e, u, omega arith, w)
  | inr enough ↦ (size, rw (enough, grow) refl, ground arith, omega arith, omega arith)
]
