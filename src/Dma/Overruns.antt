-- ===== src/Dma/Overruns.antt =====
-- The entry of the callback data that a transfer uses.
use axidma_driver.Common.{◌<◌, ◌≡◌, length}
use axidma_driver.Types.{AxidmaTransfer, Transaction}
use axidma_driver.Kernel.{Kernel, State, Out, ok, err, fault}
use axidma_driver.Kernel.Ends

-- A run that returns has `Q`; nothing is said of the others.
abbrev Passed : {A : Type 0} → (A → State → Type 0) → Out A → Type 0
Passed Q (ok a s) = Q a s
Passed Q (err e s) = Unit
Passed Q (fault f s) = Unit

-- The run leaves the device as it is.
abbrev KeepsDevice : {A : Type 0} → State → A → State → Type 0
KeepsDevice s a s' = s'.dev ≡ s.dev

module _ (k : Kernel) where
  -- The index of the transfer's callback data is one of the array.
  abbrev Indexed : AxidmaTransfer → State → {A : Type 0} → A → State → Type 0
  Indexed tfr s a s' = tfr.cb_data < length s.dev.cb_data

  -- The channel id of the request is an index of the callback data.
  abbrev pub HasEntry : Transaction → State → Unit {0} → State → Type 0
  HasEntry trans s u s' = trans.channel_id < length s.dev.cb_data
