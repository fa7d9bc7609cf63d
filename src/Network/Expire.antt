-- ===== src/Network/Expire.antt =====
-- The loop of `GenericClient::on_timeout` (`syfala_network/src/udp/client/generic/mod.rs`) that
-- drops overdue servers, and the receive timeout that the method sets. Instants and durations are
-- in nanoseconds.
pub mod Overdue
use mathlib.Core.Option
use syfala_test.Common.{
  ℕ, zero, suc, ◌-◌, min, Outcome, done, panicked, ◌>>=◌, unwrap, leb, Option, none, some,
}
use syfala_test.Network.Deadlines.{DeadlineQueue}
use syfala_test.Network.ServerMap.{ServerMap, get, remove}

-- `CONN_TIMEOUT`, 600 ms, and `REQUEST_POLL_PERIOD`, 10 ms.
abbrev pub conn_timeout : ℕ
conn_timeout = 600_000_000

abbrev pub request_poll_period : ℕ
request_poll_period = 10_000_000

module _ (pq : DeadlineQueue) {V : Type 0} where
  -- Out of fuel the loop panics, which is never met: the fuel is above the number of deadlines.
  abbrev expire_with :
      (ServerMap V → pq.Queue → Outcome (ServerMap V × pq.Queue))
      → ServerMap V
      → Option (ℕ × ℕ) × pq.Queue
      → Outcome (ServerMap V × pq.Queue)
  expire_with rest servers (none, deadlines) = done (servers, deadlines)
  expire_with rest servers (some (addr, _), deadlines) =
      unwrap (get addr servers) >>= λ _. rest (remove addr servers) deadlines

  unfoldable pub expire : ℕ → ℕ → ServerMap V → pq.Queue → Outcome (ServerMap V × pq.Queue)
  expire now zero servers deadlines = panicked
  expire now (suc fuel) servers deadlines =
      expire_with (expire now fuel) servers (pq.pop_if (λ t. leb t now) deadlines)

-- The receive timeout that `on_timeout` sets.
unfoldable pub next_timeout : (pq : DeadlineQueue) → ℕ → pq.Queue → Option ℕ
next_timeout pq now deadlines =
    Option.map (λ (e : ℕ × ℕ). min (min (e.1 - now) request_poll_period) conn_timeout)
      (pq.peek deadlines)
