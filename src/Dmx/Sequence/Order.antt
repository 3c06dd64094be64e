-- ===== src/Dmx/Sequence/Order.antt =====
-- The order that native/src/dmx/artnet_sequence_tracker.cpp keeps, against the 255-cycle of
-- ArtDmx sequence numbers.
use peraviz.Prelude.{
  ℕ, zero, suc, ◌+◌, ◌-◌, ◌%◌, ◌≤◌, ◌<◌, ◌≡◌, sym, ◌∙◌, ◌≢◌, ◌↔◌, true, arith, ◌==◌, if◌then◌else◌,
}
use peraviz.Dmx.Sequence.{
  ArtNetEndpoint, State, ArtNetSequenceTracker, update, forward_distance, same_endpoint,
  accept_state, accept, reject,
}

-- The number after `p` in the cycle 1, 2, …, 255, 1, …
abbrev pub next_number : ℕ → ℕ
next_number p = if p == 255 then 1 else p + 1

unfoldable pub advance : ℕ → ℕ → ℕ
advance zero p = p
advance (suc k) p = next_number (advance k p)

-- A sequence number that takes part in the order.
abbrev pub IsNumber : ℕ → Type 0
IsNumber p = (1 ≤ p) × (p ≤ 255)

-- The state of a stream whose last number is known.
pub record IsOrdered (s : State) (endpoint : ArtNetEndpoint) : Type 0 where
  pub initialized : s.initialized ≡ true
  pub ordered : s.ordered ≡ true
  pub source : same_endpoint s.endpoint endpoint ≡ true
  pub number : IsNumber s.sequence

advance_closed : (k p : ℕ) → IsNumber p → advance k p ≡ 1 + (p - 1 + k) % 255
unfolding advance
advance_closed zero p h = omega arith
advance_closed (suc k) p h = ground (arith, advance_closed k p h)

distance-advance : (k p : ℕ) → IsNumber p → k < 255 → forward_distance p (advance k p) ≡ k
unfolding forward_distance
distance-advance k p h hk = omega (arith, advance_closed k p h)

advance-distance : (p q : ℕ) → IsNumber p → IsNumber q → advance (forward_distance p q) p ≡ q
unfolding forward_distance
advance-distance p q h hq = omega (arith, advance_closed ((q + 255 - p) % 255) p h)

-- In an ordered stream the test of the code is on the distance alone.
accepted_iff_distance :
    (s : State) (endpoint : ArtNetEndpoint) (number : ℕ)
    → IsOrdered s endpoint
    → IsNumber number
    → ((accept_state s number endpoint).0.accepted ≡ true)
      ↔ ((1 ≤ forward_distance s.sequence number) × (forward_distance s.sequence number ≤ 127))
unfolding accept_state
accepted_iff_distance s endpoint number v h = ground arith

-- From an ordered stream's own endpoint, a packet numbered 1 to 255 is accepted exactly when its
-- number lies 1 to 127 steps ahead of the last one in the cycle of 255 numbers.
pub accept_iff_ahead :
    (s : State) (endpoint : ArtNetEndpoint) (number : ℕ)
    → IsOrdered s endpoint
    → IsNumber number
    → ((accept_state s number endpoint).0.accepted ≡ true)
      ↔ ((k : ℕ) × (1 ≤ k) × (k ≤ 127) × (number ≡ advance k s.sequence))
accept_iff_ahead s endpoint number v h = (to, from)
  where
    test :
        ((accept_state s number endpoint).0.accepted ≡ true)
        ↔ ((1 ≤ forward_distance s.sequence number) × (forward_distance s.sequence number ≤ 127))
    test = accepted_iff_distance s endpoint number v h

    to :
        (accept_state s number endpoint).0.accepted ≡ true
        → (k : ℕ) × (1 ≤ k) × (k ≤ 127) × (number ≡ advance k s.sequence)
    to e = (
      forward_distance s.sequence number,
      (test.0 e).0,
      (test.0 e).1,
      sym (advance-distance s.sequence number v.number h),
    )

    from :
        (k : ℕ) × (1 ≤ k) × (k ≤ 127) × (number ≡ advance k s.sequence)
        → (accept_state s number endpoint).0.accepted ≡ true
    from (k, low, high, e) =
        test.1 (rw (e, distance-advance k s.sequence v.number (omega arith)) (low, high))

-- A packet that is accepted with a number 1 to 255 leaves an ordered stream of its endpoint, with
-- that number as the last one.
accept_state-IsOrdered :
    (s : State) (endpoint : ArtNetEndpoint) (number : ℕ)
    → IsNumber number
    → (accept_state s number endpoint).0.accepted ≡ true
    → IsOrdered (accept_state s number endpoint).1 endpoint
      × ((accept_state s number endpoint).1.sequence ≡ number)
unfolding accept_state same_endpoint
accept_state-IsOrdered s endpoint number h e = ground arith

behind_distance :
    (j p q : ℕ)
    → IsNumber p
    → IsNumber q
    → j ≤ 127
    → p ≡ advance j q
    → ¬ ((1 ≤ forward_distance p q) × (forward_distance p q ≤ 127))
unfolding forward_distance
behind_distance j p q hp hq hj e = omega (arith, advance_closed j q hq)

stale_state :
    (s : State) (endpoint : ArtNetEndpoint) (number : ℕ)
    → IsOrdered s endpoint
    → IsNumber number
    → ¬ ((1 ≤ forward_distance s.sequence number) × (forward_distance s.sequence number ≤ 127))
    → accept_state s number endpoint ≡ (reject, s)
unfolding accept_state
stale_state s endpoint number v h far = ground arith

update_self :
    (t : ArtNetSequenceTracker) (universe : ℕ) (s : State) → update t universe s universe ≡ s
update_self t universe s = ground arith

late_state :
    (s : State) (endpoint : ArtNetEndpoint) (number late j : ℕ)
    → IsNumber number
    → IsNumber late
    → j ≤ 127
    → number ≡ advance j late
    → (accept_state s number endpoint).0.accepted ≡ true
    → let s' = (accept_state s number endpoint).1 in accept_state s' late endpoint ≡ (reject, s')
late_state s endpoint number late j hn hl hj e ok =
    let kept = accept_state-IsOrdered s endpoint number hn ok in
    stale_state _ endpoint late kept.0 hl
      (behind_distance j _ late kept.0.number hl hj (kept.1 ∙ e))

-- Once a packet numbered 1 to 255 is accepted on a universe, whatever its state was, a packet
-- from the same endpoint on that universe with the same number or one of the 127 numbers before
-- it in the cycle is rejected and leaves the universe's state as it is.
pub accept-reject_late :
    (t : ArtNetSequenceTracker) (universe : ℕ) (endpoint : ArtNetEndpoint) (number late j : ℕ)
    → IsNumber number
    → IsNumber late
    → j ≤ 127
    → number ≡ advance j late
    → (accept t universe number endpoint).0.accepted ≡ true
    → let t' = (accept t universe number endpoint).1 in
      ((accept t' universe late endpoint).0 ≡ reject)
      × ((accept t' universe late endpoint).1 universe ≡ t' universe)
unfolding accept
accept-reject_late t universe endpoint number late j hn hl hj e ok = ground (
  arith,
  update_self t universe (accept_state (t universe) number endpoint).1,
  late_state (t universe) endpoint number late j hn hl hj e,
)

-- A packet on one universe leaves the order of every other universe as it is.
pub accept_other :
    (t : ArtNetSequenceTracker) (universe other number : ℕ) (endpoint : ArtNetEndpoint)
    → other ≢ universe
    → (accept t universe number endpoint).1 other ≡ t other
unfolding accept
accept_other t universe other number endpoint ne = ground arith
