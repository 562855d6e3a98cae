-- ===== src/Kernel.antt =====
-- The kernel as the driver sees it. Each call of a kernel function is an event of the trace, newest
-- first; what the call returns is decided by a parameter, a function of the trace before it and of
-- the call's arguments. So the kernel may answer in any way, and may answer the same call
-- differently later. The driver's own state is the device structure, the live allocation
-- structures by address, and the trace.
mod Calls
pub mod Ends
pub mod Resources
pub mod Balance
use axidma_driver.Common.{
  ℕ, ◌==◌, ◌≡◌, Bool, true, false, Option, none, some, List, [], ◌∷◌, if◌then◌else◌,
}
use axidma_driver.Types.{
  AxidmaDevice, AxidmaChan, CbData, SgEntry, TransferDirection, VdmaConfig, InterleavedTemplate,
  DmaStatus, Errno, DmaAllocation, ExternalAllocation, NumChannels, RegisterBuffer, Transaction,
  InoutTransaction, VideoTransaction, VideoFrame,
}
pub use Calls.{Event, Ret, success, failure}

abbrev pub Trace : Type 0
Trace = List Event

-- The kernel's answers. A pointer that is 0 is NULL. `fresh_sg_entry`,
-- `fresh_chan` and `fresh_cb_data` are what an entry of a new array holds before it is written, and
-- `stack_frame i` is what the frame of the `i`-th transfer structure of a function holds on the stack
-- before it is written.
pub record Kernel : Type 0 where
  pub sig_rtmin : ℕ
  pub sig_rtmax : ℕ
  pub current : ℕ
  pub usecs_to_jiffies : ℕ → ℕ
  pub sizeof_scatterlist : ℕ
  pub sizeof_axidma_device : ℕ
  pub fresh_sg_entry : SgEntry
  pub stack_frame : ℕ → VideoFrame
  pub kmalloc : Trace → ℕ → ℕ
  pub prep_slave_sg : Trace → ℕ → List SgEntry → ℕ → TransferDirection → ℕ
  pub vdma_set_config : Trace → ℕ → VdmaConfig → Option Errno
  pub prep_interleaved : Trace → ℕ → InterleavedTemplate → ℕ
  pub submit : Trace → ℕ → Option ℕ
  pub wait_for_completion : Trace → ℕ → ℕ
  pub tx_status : Trace → ℕ → ℕ → DmaStatus
  pub terminate_all : Trace → ℕ → Option Errno
  pub capable : Trace → Bool
  pub access_ok : Bool → ℕ → ℕ → Bool
  pub copy_to_user : Trace → ℕ → ℕ → Bool
  pub copy_channel_info : Trace → ℕ → Option ℕ
  pub copy_register_buffer : Trace → ℕ → Option RegisterBuffer
  pub copy_transaction : Trace → ℕ → Option Transaction
  pub copy_inout_transaction : Trace → ℕ → Option InoutTransaction
  pub copy_video_transaction : Trace → ℕ → Option VideoTransaction
  pub copy_frame_buffers : Trace → ℕ → ℕ → Option (ℕ → ℕ)
  pub copy_chan : Trace → ℕ → AxidmaChan
  pub dma_alloc_coherent : Trace → ℕ → ℕ × ℕ
  pub dma_mmap_coherent : Trace → ℕ → ℕ → ℕ → Option Errno
  pub dma_buf_get : Trace → ℕ → Ret ℕ
  pub dma_buf_attach : Trace → ℕ → Ret ℕ
  pub dma_buf_map_attachment : Trace → ℕ → Ret (ℕ × ℕ × ℕ)
  pub fresh_chan : AxidmaChan
  pub fresh_cb_data : CbData
  pub dma_set_coherent_mask : Trace → Option Errno
  pub dma_request_slave_channel : Trace → ℕ → ℕ
  pub alloc_chrdev_region : Trace → ℕ → ℕ → ℕ → Ret ℕ
  pub class_create : Trace → ℕ → Ret ℕ
  pub device_create : Trace → ℕ → ℕ → ℕ → Ret ℕ
  pub cdev_add : Trace → ℕ → ℕ → Option Errno

-- What the driver must not do: the run stops there, and nothing is known of what would follow.
pub data Fault : Type 0 where
  null_deref out_of_bounds use_after_free bug_on : Fault

pub record State : Type 0 where
  pub dev : AxidmaDevice
  pub allocs : ℕ → Option DmaAllocation
  pub exts : ℕ → Option ExternalAllocation
  pub trace : Trace

-- `ok` is a return, `err` the return of a negative number.
pub data Out (A : Type 0) : Type 0 where
  ok : A → State → Out A
  err : Errno → State → Out A
  fault : Fault → State → Out A

abbrev pub M : Type 0 → Type 0
M A = State → Out A

abbrev pub pure : {A : Type 0} → A → M A
pure a s = ok a s

abbrev pub fail : {A : Type 0} → Errno → M A
fail e s = err e s

abbrev pub stop : {A : Type 0} → Fault → M A
stop f s = fault f s

abbrev pub and_then : {A B : Type 0} → Out A → (A → M B) → Out B
and_then (ok a s) f = f a s
and_then (err e s) f = err e s
and_then (fault e s) f = fault e s

infixl 5 ◌>>=◌ ◌>>◌
abbrev pub ◌>>=◌ : {A B : Type 0} → M A → (A → M B) → M B
◌>>=◌ m f s = and_then (m s) f

abbrev pub ◌>>◌ : {B : Type 0} → M (Unit {0}) → M B → M B
m >> n = m >>= λ _. n

-- After an error the clean-up runs, and the error is returned: `goto label`.
abbrev pub or_cleanup : {A : Type 0} → Out A → M (Unit {0}) → Out A
or_cleanup (ok a s) c = ok a s
or_cleanup (err e s) c = and_then (c s) (λ _. fail e)
or_cleanup (fault e s) c = fault e s

-- A property of the state that a run ends in, however it ends.
abbrev pub state_of : {A : Type 0} → Out A → State
state_of (ok a s) = s
state_of (err e s) = s
state_of (fault f s) = s

abbrev pub on_error : {A : Type 0} → M (Unit {0}) → M A → M A
on_error c m s = or_cleanup (m s) c

-- An error is dropped, and the run goes on: the code is overwritten or not returned.
abbrev pub drop_error : Out (Unit {0}) → Out (Unit {0})
drop_error (ok a s) = ok tt s
drop_error (err e s) = ok tt s
drop_error (fault f s) = fault f s

abbrev pub or_zero : M (Unit {0}) → M (Unit {0})
or_zero m s = drop_error (m s)

abbrev pub get_dev : M AxidmaDevice
get_dev s = ok s.dev s

abbrev pub put_dev : AxidmaDevice → M (Unit {0})
put_dev d s = ok tt (record s { dev = d })

abbrev pub log : Event → State → State
log e s = record s { trace = e ∷ s.trace }

-- A kernel call that returns nothing.
abbrev pub emit : Event → M (Unit {0})
emit e s = ok tt (log e s)

-- A kernel call that returns 0 or a negative number.
abbrev pub check : Option Errno → M (Unit {0})
check none s = ok tt s
check (some e) s = err e s

abbrev pub or_fail : {A : Type 0} → Errno → Option A → M A
or_fail e none s = err e s
or_fail e (some a) s = ok a s

-- The clean-up runs after a return and after an error.
abbrev pub finally_run : {A : Type 0} → Out A → M (Unit {0}) → Out A
finally_run (ok a s) c = and_then (c s) (λ _. pure a)
finally_run (err e s) c = and_then (c s) (λ _. fail e)
finally_run (fault f s) c = fault f s

abbrev pub with_cleanup : {A : Type 0} → M (Unit {0}) → M A → M A
with_cleanup c m s = finally_run (m s) c

abbrev pub from_ret : {A : Type 0} → Ret A → M A
from_ret (success a) s = ok a s
from_ret (failure e) s = err e s

abbrev pub update : {A : Type 0} → (ℕ → Option A) → ℕ → Option A → ℕ → Option A
update f p v q = if p == q then v else f q

-- The kernel's functions: each asks the kernel, and records the call with its answer.
module _ (k : Kernel) where
  unfoldable pub kmalloc : ℕ → M ℕ
  kmalloc n s = let p = k.kmalloc s.trace n in ok p (log (Event.kmalloc n p) s)

  unfoldable pub dmaengine_terminate_all : ℕ → M (Option Errno)
  dmaengine_terminate_all c s =
      let r = k.terminate_all s.trace c in ok r (log (Event.terminate_all c r) s)

  unfoldable pub dmaengine_prep_slave_sg : ℕ → List SgEntry → ℕ → TransferDirection → M ℕ
  dmaengine_prep_slave_sg c sg n d s =
      let t = k.prep_slave_sg s.trace c sg n d in ok t (log (Event.prep_slave_sg c sg n d t) s)

  unfoldable pub xilinx_vdma_channel_set_config : ℕ → VdmaConfig → M (Unit {0})
  xilinx_vdma_channel_set_config c v s =
      let r = k.vdma_set_config s.trace c v in check r (log (Event.set_config c v r) s)

  unfoldable pub dmaengine_prep_interleaved_dma : ℕ → InterleavedTemplate → M ℕ
  dmaengine_prep_interleaved_dma c x s =
      let t = k.prep_interleaved s.trace c x in ok t (log (Event.prep_interleaved c x t) s)

  -- The callback of the descriptor is `axidma_dma_callback`, its parameter an entry of `cb_data`.
  -- `none` is a cookie for which `dma_submit_error` holds.
  unfoldable pub dmaengine_submit : ℕ → ℕ → M (Option ℕ)
  dmaengine_submit t i s = let r = k.submit s.trace t in ok r (log (Event.submit t i r) s)

  unfoldable pub wait_for_completion_timeout : ℕ → M ℕ
  wait_for_completion_timeout n s =
      let r = k.wait_for_completion s.trace n in ok r (log (Event.wait_for_completion n r) s)

  unfoldable pub dma_async_is_tx_complete : ℕ → ℕ → M DmaStatus
  dma_async_is_tx_complete c x s =
      let r = k.tx_status s.trace c x in ok r (log (Event.tx_status c x r) s)
