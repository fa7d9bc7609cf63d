-- ===== src/Network/Expire/Overdue.antt =====
-- Which servers the loop over overdue deadlines drops, and the timeout that comes out.
use syfala_test.Common.{
  ℕ, zero, suc, ◌+◌, ◌-◌, ◌<◌, ◌≤◌, ◌≡◌, ap, sym, ◌∙◌, min, done, leb, if◌then◌else◌, true, false,
  Option, none, some, Option-cases, Bool-cases, inl, inr, arith,
}
use syfala_test.Network.Deadlines.{DeadlineQueue}
use syfala_test.Network.ServerMap.{ServerMap, get, remove, is_some, is_some-true, get-remove}
use syfala_test.Network.Expire.{expire, next_timeout, request_poll_period, conn_timeout}

-- A deadline that is not over.
abbrev pub alive : ℕ → Option ℕ → Option ℕ
alive now none = none
alive now (some t) = if leb t now then none else some t

alive-later : (now t : ℕ) (o : Option ℕ) → alive now o ≡ some t → now < t
alive-later now t none e = cc
alive-later now t (some u) e = ground arith

later_alive :
    (pq : DeadlineQueue) (now a t : ℕ) (q : pq.Queue)
    → pq.peek q ≡ some (a, t)
    → leb t now ≡ false
    → (b : ℕ) → alive now (pq.get_priority b q) ≡ pq.get_priority b q
later_alive pq now a t q first later b = elim (Option-cases (pq.get_priority b q)) [
  | inl e ↦ rw e
  | inr (u, e) ↦ rw e (ground (arith, pq.peek_earliest q a t first b u e))
]

module _ (pq : DeadlineQueue) {V : Type 0} where
  -- The servers with a deadline are the connected ones.
  abbrev pub InStep : ServerMap V → pq.Queue → Type 0
  InStep servers q = (a : ℕ) → is_some (get a servers) ≡ is_some (pq.get_priority a q)

  pub remove-InStep :
      (a : ℕ) (servers : ServerMap V) (q : pq.Queue)
      → InStep servers q
      → InStep (remove a servers) (pq.remove a q).1
  remove-InStep a servers q h b =
      ground (arith, h b, get-remove b a servers, pq.get_priority-remove b a q)

  -- What is left after the loop.
  pub record Expired (now : ℕ) (servers : ServerMap V) (q : pq.Queue) (servers' : ServerMap V)
      (q' : pq.Queue) : Type 0 where
    pub in_step : InStep servers' q'
    pub deadlines : (a : ℕ) → pq.get_priority a q' ≡ alive now (pq.get_priority a q)
    pub kept :
        (a : ℕ)
        → get a servers'
          ≡ (if is_some (alive now (pq.get_priority a q)) then get a servers else none)

  nothing_over :
      (now : ℕ) (servers : ServerMap V) (q : pq.Queue)
      → InStep servers q
      → ((a : ℕ) → alive now (pq.get_priority a q) ≡ pq.get_priority a q)
      → Expired now servers q servers q
  nothing_over now servers q h all = record {
    in_step = h;
    deadlines = λ a. sym (all a);
    kept = λ a. rw (all a) (ground (arith, h a));
  }

  one_over :
      (now a t : ℕ) (servers servers' : ServerMap V) (q q' : pq.Queue)
      → pq.get_priority a q ≡ some t
      → leb t now ≡ true
      → Expired now (remove a servers) (pq.remove a q).1 servers' q'
      → Expired now servers q servers' q'
  one_over now a t servers servers' q q' has over e = record {
    in_step = e.in_step;
    deadlines = λ b.
        ground
          (arith, e.deadlines b, pq.get_priority-remove b a q, ap pq.get_priority {x = b} {y = a});
    kept = λ b. ground (
      arith,
      e.kept b,
      get-remove b a servers,
      pq.get_priority-remove b a q,
      ap pq.get_priority {x = b} {y = a},
    );
  }

  pub expire-Expired :
      (now fuel : ℕ) (servers : ServerMap V) (q : pq.Queue)
      → InStep servers q
      → pq.size q < fuel
      → (servers' : ServerMap V) × (q' : pq.Queue) × (expire pq now fuel servers q
          ≡ done (servers', q'))
        × Expired now servers q servers' q'
  unfolding expire
  expire-Expired now zero servers q h enough = elim enough [ ]
  expire-Expired now (suc fuel) servers q h enough = elim (Option-cases (pq.peek q)) [
    | inl none_left ↦ (
      servers,
      q,
      rw (pq.pop_if_empty _ q none_left),
      nothing_over now servers q h λ a. rw (pq.peek_none q none_left a),
    )
    | inr ((a, t), first) ↦ elim (Bool-cases (leb t now)) [
      | inl over ↦
          let has = pq.peek_some q a t first in
          let (servers', q', run, e) =
            expire-Expired now fuel (remove a servers) (pq.remove a q).1
              (remove-InStep a servers q h) (omega (arith, pq.size-remove a t q has)) in
          (
            servers',
            q',
            rw (pq.pop_if_true _ q a t first over, (is_some-true (get a servers) (h a ∙ rw has)).1)
                run,
            one_over now a t servers servers' q q' has over e,
          )
      | inr later ↦ (
        servers,
        q,
        rw (pq.pop_if_false _ q a t first later),
        nothing_over now servers q h (later_alive pq now a t q first later),
      )
    ]
  ]

  -- The timeout that is set after the loop lies above 0 and within the polling period.
  pub next_timeout-bounds :
      (now a t : ℕ) (servers : ServerMap V) (q : pq.Queue) (servers' : ServerMap V) (q' : pq.Queue)
      → Expired now servers q servers' q'
      → pq.peek q' ≡ some (a, t)
      → (d : ℕ) × (next_timeout pq now q' ≡ some d)
        × (0 < d)
        × (d ≤ request_poll_period)
        × (now + d ≤ t)
  unfolding next_timeout
  next_timeout-bounds now a t servers q servers' q' e first =
      let has = pq.peek_some q' a t first in
      let later = alive-later now t (pq.get_priority a q) (sym (e.deadlines a) ∙ has) in
      (
        min (min (t - now) request_poll_period) conn_timeout,
        rw first,
        omega arith,
        omega arith,
        omega arith,
      )
