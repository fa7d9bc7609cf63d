-- ===== src/Network/Context.antt =====
-- The traits that an application implements, `syfala_network/src/udp/client/generic/state.rs`: a
-- type for each typestate, and the callbacks. `Cx` is the value behind `&mut self` of
-- `ClientContext`; a callback returns it anew.
use syfala_test.Common.{ℕ, List, ◌⊎◌}
use syfala_test.Proto.Format.{StreamFormats}
use syfala_test.Proto.Message.{AudioMessageHeader, Error}

pub record Context : Type 1 where
  pub Cx : Type 0
  pub Inactive : Type 0
  pub StartPending : Type 0
  pub Active : Type 0
  pub StopPending : Type 0
  -- `ClientContext`
  pub connect : Cx → ℕ → StreamFormats → (Inactive ⊎ Error) × Cx
  pub unknown_message : Cx → ℕ → Cx
  -- `IOInactiveContext`
  pub poll_start_io : Inactive → Cx → (StartPending ⊎ Inactive) × Cx
  -- `IOStartPendingContext`
  pub start_io : StartPending → Cx → Active × Cx
  pub start_io_refused : StartPending → Cx → Inactive × Cx
  pub start_io_failed : StartPending → Cx → StartPending × Cx
  -- `IOActiveContext`
  pub on_audio : Active → Cx → ℕ → AudioMessageHeader → List ℕ → Active × Cx
  pub poll_stop_io : Active → Cx → (StopPending ⊎ Active) × Cx
  -- `IOStopPendingConxtext`
  pub stop_io : StopPending → Cx → Inactive × Cx
  pub stop_io_refused : StopPending → Cx → Active × Cx
  pub stop_io_failed : StopPending → Cx → StopPending × Cx
