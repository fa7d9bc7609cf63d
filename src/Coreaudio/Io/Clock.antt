-- ===== src/Coreaudio/Io/Clock.antt =====
-- A request is answered as by the ideal device, and keeps the driver in step with it.
use syfala_test.Common.{
  ℕ, ◌+◌, ◌-◌, ◌≤◌, ◌<◌, ◌≡◌, refl, false, done, ltb, ◌==◌, u32_mod, u64_mod, ltb→lt, some, List,
  [], ◌∷◌, arith, Bool-cases, inl, inr,
}
use syfala_test.Coreaudio.Status.{no_error, illegal_operation}
use syfala_test.Coreaudio.Io.Device.{
  Request, start, stop, read_clock, time, Answer, status, timestamp, serve, Device, ideal_timestamp,
  ideal,
}
use syfala_test.Coreaudio.Io.{IoInfo, start_client, stop_client, frames_per_timestamp}
use syfala_test.Coreaudio.Io.Tracks.{Tracks, clients_kept, zero_timestamp-Tracks}

module _ (ticks : ℕ) where
  -- The times of the requests do not go back, and do not pass `last`.
  abbrev pub InOrder : ℕ → ℕ → List Request → Type 0
  InOrder now last [] = now ≤ last
  InOrder now last (r ∷ rs) = (now ≤ time r) × InOrder (time r) last rs

  -- What one request does to a device that is tracked.
  abbrev pub Answers : Request → Device → IoInfo → Type 0
  Answers r d io =
      (a : Answer) × (d' : Device) × (io' : IoInfo) × (serve ticks r io ≡ done (a, io'))
      × (ideal ticks r d ≡ (a, d'))
      × Tracks ticks d' io' (time r)

  -- The passing of time alone.
  later :
      {d : Device} {io : IoInfo} {before now : ℕ}
      → before ≤ now
      → Tracks ticks d io before
      → Tracks ticks d io now
  later order t = record {
    kept = t.kept;
    few = t.few;
    periods = t.periods;
    frame = t.frame;
    host = t.host;
    passed = omega (arith, t.passed);
  }

  count_up : (n : ℕ) → some (n + 1) ≡ clients_kept (n + 1)
  count_up n = ground arith

  start-Answers :
      (d : Device) (io : IoInfo) (before now : ℕ)
      → before ≤ now
      → Tracks ticks d io before
      → Answers (start now) d io
  unfolding serve ideal start_client
  start-Answers d io before now order t = elim (Bool-cases (d.clients == 0)) [
    | inl e ↦ (
      status no_error,
      record { clients = 1; started = now },
      record {
        n_active_clients = some 1;
        current_frame_timestamp = 0;
        current_host_timestamp = now;
      },
      rw (t.kept, e),
      rw e,
      record {
        kept = refl;
        few = omega arith;
        periods = 0;
        frame = refl;
        host = omega arith;
        passed = omega arith;
      },
    )
    | inr e ↦ elim (Bool-cases (ltb (d.clients + 1) u32_mod)) [
      | inl f ↦ (
        status no_error,
        record (d) { clients = d.clients + 1 },
        record (io) { n_active_clients = some (d.clients + 1) },
        rw (t.kept, e, f),
        rw (e, f),
        record {
          kept = count_up d.clients;
          few = ltb→lt (d.clients + 1) u32_mod f;
          periods = t.periods;
          frame = t.frame;
          host = t.host;
          passed = omega (arith, t.passed);
        },
      )
      | inr f ↦ (status illegal_operation, d, io, rw (t.kept, e, f), rw (e, f), later order t)
    ]
  ]

  not_none : (n : ℕ) → (n == 0) ≡ false → ltb n 1 ≡ false
  not_none n e = ground arith

  stop_one :
      (d : Device) (io : IoInfo)
      → io.n_active_clients ≡ clients_kept d.clients
      → (d.clients == 0) ≡ false
      → stop_client io
        ≡ done (no_error, record (io) { n_active_clients = clients_kept (d.clients - 1) })
  unfolding stop_client
  stop_one d io kept e = elim (Bool-cases ((d.clients - 1) == 0)) [
    | inl f ↦ rw (kept, e, not_none d.clients e, f)
    | inr f ↦ rw (kept, e, not_none d.clients e, f)
  ]

  stop-Answers :
      (d : Device) (io : IoInfo) (before now : ℕ)
      → before ≤ now
      → Tracks ticks d io before
      → Answers (stop now) d io
  unfolding serve ideal stop_client
  stop-Answers d io before now order t = elim (Bool-cases (d.clients == 0)) [
    | inl e ↦ (status illegal_operation, d, io, rw (t.kept, e), rw e, later order t)
    | inr e ↦ (
      status no_error,
      record (d) { clients = d.clients - 1 },
      record (io) { n_active_clients = clients_kept (d.clients - 1) },
      rw (stop_one d io t.kept e),
      rw e,
      record {
        kept = refl;
        few = omega (arith, t.few);
        periods = t.periods;
        frame = t.frame;
        host = t.host;
        passed = omega (arith, t.passed);
      },
    )
  ]

  pub serve-Answers :
      (r : Request) (d : Device) (io : IoInfo) (before : ℕ)
      → frames_per_timestamp ≤ ticks
      → before ≤ time r
      → time r < u64_mod
      → Tracks ticks d io before
      → Answers r d io
  unfolding serve ideal
  serve-Answers (start now) d io before slow order fits t = start-Answers d io before now order t
  serve-Answers (stop now) d io before slow order fits t = stop-Answers d io before now order t
  serve-Answers (read_clock now) d io before slow order fits t =
      let (io', run, t') = zero_timestamp-Tracks ticks d io before now slow order fits t in
      (timestamp (ideal_timestamp ticks d.started now), d, io', rw run, refl, t')

  pub InOrder-le : (now last : ℕ) (rs : List Request) → InOrder now last rs → now ≤ last
  InOrder-le now last [] h = h
  InOrder-le now last (r ∷ rs) h =
      let bound : time r ≤ last = InOrder-le (time r) last rs h.1 in omega (arith, h.0)
