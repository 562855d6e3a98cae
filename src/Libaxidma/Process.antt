-- ===== src/Libaxidma/Process.antt =====
-- The process that uses the library: the library's one structure, and the calls that it makes of the
-- C library and of the kernel, newest first. What a call returns is decided by a parameter, a
-- function of the calls before it and of the call's arguments.
use axidma_driver.Common.{if◌then◌else◌, ℕ, Bool, true, false, Option, none, some, List, ◌∷◌}
use axidma_driver.Types.{AxidmaDir, AxidmaType, AxidmaChan, NumChannels, VideoFrame, Errno, code}
use axidma_driver.DeviceTree.{Kind, dma_tx, dma_rx, vdma_tx, vdma_rx}
use axidma_driver.Libaxidma.Calls.{Request, Call}

-- `dma_channel_t`. A callback that is 0 is NULL.
pub record DmaChannel : Type 0 where
  pub dir : AxidmaDir
  pub type : AxidmaType
  pub channel_id : ℕ
  pub callback : ℕ
  pub user_data : ℕ

-- `array_t`: `ptr` is its pointer, and `cells` what the memory there holds.
pub record Array : Type 0 where
  pub len : ℕ
  pub ptr : ℕ
  pub cells : List ℕ

-- `struct axidma_dev`. The four arrays `dma_tx_chans`, `dma_rx_chans`, `vdma_tx_chans` and
-- `vdma_rx_chans` stand by their kind, and the channels beside their pointer.
pub record AxidmaDev : Type 0 where
  pub initialized : Bool
  pub fd : ℕ
  pub arrays : Kind → Array
  pub num_channels : ℕ
  pub channels_ptr : ℕ
  pub channels : List DmaChannel

-- The answers of the C library and the kernel. `num_channels` and `channel_info` are what `ioctl`
-- writes through its argument; the `fresh` fields are what memory holds before it is written.
pub record Os : Type 0 where
  pub sig_rtmin : ℕ
  pub malloc : List Call → ℕ → ℕ
  pub open_device : List Call → Option ℕ
  pub close : List Call → ℕ → Bool
  pub ioctl : List Call → ℕ → Request → Option Errno
  pub num_channels : List Call → NumChannels
  pub channel_info : List Call → List AxidmaChan
  pub sigaction : List Call → ℕ → Bool
  pub mmap : List Call → ℕ → ℕ → Option ℕ
  pub munmap : List Call → ℕ → ℕ → Bool
  pub fresh_channel : DmaChannel
  pub fresh_cell : ℕ
  pub fresh_frame : VideoFrame
  pub fresh_name : ℕ
  pub fresh_chan : ℕ

pub record Process : Type 0 where
  pub dev : AxidmaDev
  pub calls : List Call

-- What ends the process, or must not happen; and a run that its rounds do not suffice for.
pub data Abort : Type 0 where
  assertion out_of_bounds unfinished : Abort

-- `ok` is a return, `err` the return of a negative number: -1 is `code 1`.
pub data Result (A : Type 0) : Type 0 where
  ok : A → Process → Result A
  err : Errno → Process → Result A
  abort : Abort → Process → Result A

abbrev pub P : Type 0 → Type 0
P A = Process → Result A

abbrev pub pure : {A : Type 0} → A → P A
pure a p = ok a p

abbrev pub fail : {A : Type 0} → Errno → P A
fail e p = err e p

abbrev pub die : {A : Type 0} → Abort → P A
die a p = abort a p

abbrev pub and_then : {A B : Type 0} → Result A → (A → P B) → Result B
and_then (ok a p) f = f a p
and_then (err e p) f = err e p
and_then (abort a p) f = abort a p

infixl 5 ◌>>=◌ ◌>>◌
abbrev pub ◌>>=◌ : {A B : Type 0} → P A → (A → P B) → P B
◌>>=◌ m f p = and_then (m p) f

abbrev pub ◌>>◌ : {B : Type 0} → P (Unit {0}) → P B → P B
m >> n = m >>= λ _. n

-- What follows runs after a return and after an error, and the result is that of the first.
abbrev pub result_then : {A : Type 0} → Result A → P (Unit {0}) → Result A
result_then (ok a p) c = and_then (c p) (λ _. pure a)
result_then (err e p) c = and_then (c p) (λ _. fail e)
result_then (abort a p) c = abort a p

abbrev pub followed_by : {A : Type 0} → P A → P (Unit {0}) → P A
followed_by m c p = result_then (m p) c

-- What a caller does that tests for an error.
abbrev pub branch : {A B : Type 0} → Result A → (A → P B) → (Errno → P B) → Result B
branch (ok a p) f g = f a p
branch (err e p) f g = g e p
branch (abort a p) f g = abort a p

abbrev pub on_result : {A B : Type 0} → P A → (A → P B) → (Errno → P B) → P B
on_result m f g p = branch (m p) f g

abbrev pub get_dev : P AxidmaDev
get_dev p = ok p.dev p

abbrev pub put_dev : AxidmaDev → P (Unit {0})
put_dev d p = ok tt (record p { dev = d })

abbrev pub note : Call → Process → Process
note c p = record p { calls = c ∷ p.calls }

abbrev pub emit : Call → P (Unit {0})
emit c p = ok tt (note c p)

abbrev pub free : ℕ → P (Unit {0})
free ptr = emit (Call.free ptr)

abbrev pub assert : Bool → P (Unit {0})
assert true = pure tt
assert false = die assertion

abbrev pub check : Option Errno → P (Unit {0})
check none = pure tt
check (some e) = fail (code 1)

module _ (os : Os) where
  unfoldable pub malloc : ℕ → P ℕ
  malloc n p = let a = os.malloc p.calls n in ok a (note (Call.malloc n a) p)

  -- 0 is returned, or -1 while `errno` has the error number of the answer.
  unfoldable pub ioctl : (fd : ℕ) → Request → P (Unit {0})
  ioctl fd r p = let a = os.ioctl p.calls fd r in check a (note (Call.ioctl fd r a) p)

abbrev pub same : Kind → Kind → Bool
same dma_tx dma_tx = true
same dma_rx dma_rx = true
same vdma_tx vdma_tx = true
same vdma_rx vdma_rx = true
same _ _ = false

abbrev pub set_array : Kind → Array → AxidmaDev → AxidmaDev
set_array kind a d = record d { arrays = λ other. if same kind other then a else d.arrays other }
