-- ===== src/Libaxidma/Agreement.antt =====
-- The library's tests of a channel agree with the driver's: what it requests, the driver finds.
use mathlib.Core.Option.{some-injective}
use axidma_driver.Common.{
  ℕ, ◌==◌, ◌≡◌, ◌≢◌, ◌⊎◌, ◌∙◌, refl, sym, ap, inl, inr, Bool, true, false, Option, none, some, List,
  [], ◌∷◌, arith, Bool-cases,
}
use axidma_driver.Types.{
  AxidmaChan, AxidmaDir, axidma_read, axidma_write, other_dir, is_read, is_write, VideoFrame,
  Transaction, InoutTransaction, enodev, enotty, Errno,
}
use axidma_driver.Kernel.{Kernel, State, Event, log, Out}
use axidma_driver.Kernel as Driver
use axidma_driver.Dma.Engine.{find_chan, axidma_get_chan}
use axidma_driver.Dma.Transfers.{
  require_chan, oneway_transfer, axidma_read_transfer, axidma_write_transfer, axidma_rw_transfer,
}
use axidma_driver.Chrdev.Ioctl.{axidma_ioctl, ioctl_read, ioctl_write}
use axidma_driver.Chrdev.Commands.{Accessible, ioctl_runs, ioctl_refuses, read, write}
use axidma_driver.Libaxidma.Calls.{Request, Call, command}
use axidma_driver.Libaxidma.Process.{Os, Process, DmaChannel, assertion, ok, abort, note, ioctl}
use axidma_driver.Libaxidma.Channels.{find_in, find_channel}
use axidma_driver.Libaxidma.Requests.{
  known, known_channel, request, dir_to_ioctl, frame_or_none, axidma_oneway_transfer,
  axidma_twoway_transfer, axidma_unregister_buffer,
}

-- The library's structure for a channel of the driver, whatever callback it has.
abbrev pub Stands : AxidmaChan → DmaChannel → Type 0
Stands c d = (d.dir ≡ c.dir) × (d.type ≡ c.type) × (d.channel_id ≡ c.channel_id)

-- The library has a structure for each channel, in the driver's order.
abbrev pub Knows : List AxidmaChan → List DmaChannel → Type 0
Knows [] [] = Unit
Knows [] (d ∷ ds) = ⊥
Knows (c ∷ cs) [] = ⊥
Knows (c ∷ cs) (d ∷ ds) = Stands c d × Knows cs ds

-- The lookups of the library and of the driver give the same channel, or none.
abbrev SameFound : Option AxidmaChan → Option DmaChannel → Type 0
SameFound none none = Unit
SameFound none (some d) = ⊥
SameFound (some c) none = ⊥
SameFound (some c) (some d) = Stands c d

pub find_in-Knows :
    (id : ℕ) (cs : List AxidmaChan) (ds : List DmaChannel)
    → Knows cs ds
    → SameFound (find_chan id cs) (find_in id ds)
unfolding find_in find_chan
find_in-Knows id [] [] h = tt
find_in-Knows id [] (d ∷ ds) h = elim h [ ]
find_in-Knows id (c ∷ cs) [] h = elim h [ ]
find_in-Knows id (c ∷ cs) (d ∷ ds) ((dir, type, channel_id), rest) =
    let same : (d.channel_id == id) ≡ (c.channel_id == id) = ap (λ n. n == id) channel_id in
    elim (Bool-cases (c.channel_id == id)) [
      | inl y ↦ rw (same ∙ y, y) (dir, type, channel_id)
      | inr n ↦ rw (same ∙ n, n) (find_in-Knows id cs ds rest)
    ]

-- Where both look the same channel up.
find-cases :
    (id : ℕ) (cs : List AxidmaChan) (ds : List DmaChannel)
    → Knows cs ds
    → ((find_chan id cs ≡ none) × (find_in id ds ≡ none))
      ⊎ ((c : AxidmaChan) × (d : DmaChannel) × (find_chan id cs ≡ some c)
          × (find_in id ds ≡ some d)
          × Stands c d)
find-cases id cs ds h = both (find_chan id cs) (find_in id ds) (find_in-Knows id cs ds h)
  where
    both :
        (o : Option AxidmaChan) (o' : Option DmaChannel)
        → SameFound o o'
        → ((o ≡ none) × (o' ≡ none))
          ⊎ ((c : AxidmaChan) × (d : DmaChannel) × (o ≡ some c) × (o' ≡ some d) × Stands c d)
    both none none h = inl (refl, refl)
    both none (some d) h = elim h [ ]
    both (some c) none h = elim h [ ]
    both (some c) (some d) h = inr (c, d, refl, refl, h)

-- What the library asserts of a channel in a direction, and what the driver asks of it, agree.
abbrev Agrees : (accepts : AxidmaDir → Bool) → ℕ → Process → State → Type 0
Agrees accepts id p s =
    (c : AxidmaChan) × (d : DmaChannel) × (known_channel id p ≡ ok d p)
    × (accepts d.dir ≡ true)
    × (require_chan accepts id s ≡ Driver.ok c s)

abbrev Refuses : (accepts : AxidmaDir → Bool) → ℕ → Process → State → Type 0
Refuses accepts id p s =
    ((known_channel id p ≡ abort assertion p)
      ⊎ ((d : DmaChannel) × (known_channel id p ≡ ok d p) × (accepts d.dir ≡ false)))
    × (require_chan accepts id s ≡ Driver.err enodev s)

agree_or_refuse :
    (accepts : AxidmaDir → Bool) (id : ℕ) (p : Process) (s : State)
    → Knows s.dev.channels p.dev.channels
    → Agrees accepts id p s ⊎ Refuses accepts id p s
unfolding known_channel known find_channel require_chan axidma_get_chan
agree_or_refuse accepts id p s h = elim (find-cases id s.dev.channels p.dev.channels h) [
  | inl (missing, lost) ↦ inr (inl (rw (lost, known)), rw (missing, require_chan))
  | inr (c, d, there, found, (dir, type, channel_id)) ↦ elim (Bool-cases (accepts c.dir)) [
    | inl yes_dir ↦
        inl
          (c, d, rw (found, known), ap accepts dir ∙ yes_dir, rw (there, require_chan) (rw yes_dir))
    | inr no_dir ↦
        inr (
          inr (d, rw (found, known), ap accepts dir ∙ no_dir),
          rw (there, require_chan) (rw no_dir),
        )
  ]
]

-- The structure that `axidma_twoway_transfer` passes.
abbrev pub inout_transaction :
    (tx_channel tx_buf tx_len : ℕ)
    → Option VideoFrame
    → (rx_channel rx_buf rx_len : ℕ) → Option VideoFrame
    → Bool
    → InoutTransaction
inout_transaction tx_channel tx_buf tx_len tx_frame rx_channel rx_buf rx_len rx_frame wait =
    record {
      wait = wait;
      tx_channel_id = tx_channel;
      tx_buf = tx_buf;
      tx_buf_len = tx_len;
      tx_frame = frame_or_none tx_frame;
      rx_channel_id = rx_channel;
      rx_buf = rx_buf;
      rx_buf_len = rx_len;
      rx_frame = frame_or_none rx_frame;
    }

-- Over a driver whose channels the library knows, whatever callbacks they have, a two-way transfer
-- is either given up by both: the library aborts at an assertion and makes no request, and the
-- driver would refuse the transfer with -ENODEV; or the library makes the request, and the driver
-- finds both channels.
pub twoway_transfer_agrees :
    (os : Os) (k : Kernel) (p : Process) (s : State) (tx_channel tx_buf tx_len : ℕ)
    (tx_frame : Option VideoFrame) (rx_channel rx_buf rx_len : ℕ) (rx_frame : Option VideoFrame)
    (wait : Bool)
    → Knows s.dev.channels p.dev.channels
    → let trans =
        inout_transaction tx_channel tx_buf tx_len tx_frame rx_channel rx_buf rx_len rx_frame
          wait in
      let run =
        axidma_twoway_transfer os tx_channel tx_buf tx_len tx_frame rx_channel rx_buf rx_len
          rx_frame wait p in
      ((run ≡ abort assertion p) × (axidma_rw_transfer k trans s ≡ Driver.err enodev s))
      ⊎ ((run ≡ ioctl os p.dev.fd (Request.readwrite trans) p)
          × ((tx : AxidmaChan) × (require_chan is_write tx_channel s ≡ Driver.ok tx s))
          × ((rx : AxidmaChan) × (require_chan is_read rx_channel s ≡ Driver.ok rx s)))
unfolding axidma_twoway_transfer axidma_rw_transfer request
twoway_transfer_agrees os k p s tx_channel tx_buf tx_len tx_frame rx_channel rx_buf rx_len rx_frame
      wait h =
    elim (agree_or_refuse is_write tx_channel p s h) [
      | inr (inl lost, refused) ↦ inl (rw lost, rw refused)
      | inr (inr (c, found, wrong), refused) ↦ inl (rw (found, wrong), rw refused)
      | inl (tx, tx', tx_found, tx_dir, tx_there) ↦
          elim (agree_or_refuse is_read rx_channel p s h) [
            | inr (inl lost, refused) ↦ inl (rw (tx_found, tx_dir, lost), rw (tx_there, refused))
            | inr (inr (c, found, wrong), refused) ↦
                inl (rw (tx_found, tx_dir, found, wrong), rw (tx_there, refused))
            | inl (rx, rx', rx_found, rx_dir, rx_there) ↦
                inr (rw (tx_found, tx_dir, rx_found, rx_dir), (tx, tx_there), (rx, rx_there))
          ]
    ]

none-some : (c : AxidmaChan) → none ≢ some c
none-some c h = cc

-- The structure that `axidma_oneway_transfer` passes.
abbrev pub oneway_transaction : Os → (channel buf len : ℕ) → Bool → Transaction
oneway_transaction os channel buf len wait = record {
  wait = wait;
  channel_id = channel;
  buf = buf;
  buf_len = len;
  frame = os.fresh_frame;
}

-- The test of the driver's transfer in a direction.
abbrev pub accepting : AxidmaDir → AxidmaDir → Bool
accepting axidma_read = is_read
accepting _ = is_write

dir-cases : (d : AxidmaDir) → (d ≡ axidma_read) ⊎ (d ≡ axidma_write) ⊎ (d ≡ other_dir)
dir-cases axidma_read = inl refl
dir-cases axidma_write = inr (inl refl)
dir-cases other_dir = inr (inr refl)

-- Over a driver whose channels the library knows, whatever callbacks they have, a one-way transfer
-- on a channel with a direction makes one request. The driver, whose copy of the argument is what
-- the library passed, runs the transfer of the channel's direction for it, and finds the channel
-- with that direction.
pub oneway_transfer_served :
    (os : Os) (k : Kernel) (p : Process) (s : State) (channel buf len arg : ℕ) (wait : Bool)
    (c : AxidmaChan)
    → Knows s.dev.channels p.dev.channels
    → find_chan channel s.dev.channels ≡ some c
    → c.dir ≢ other_dir
    → Accessible k arg
    → k.copy_transaction s.trace arg ≡ some (oneway_transaction os channel buf len wait)
    → let trans = oneway_transaction os channel buf len wait in
      let s1 = log (Event.copy_from_user arg 28) s in
      (r : Request) × (axidma_oneway_transfer os channel buf len wait p ≡ ioctl os p.dev.fd r p)
      × (axidma_ioctl k (command r) arg s ≡ oneway_transfer k (accepting c.dir) trans s1)
      × (require_chan (accepting c.dir) channel s1 ≡ Driver.ok c s1)
unfolding axidma_oneway_transfer request known_channel known find_channel dir_to_ioctl ioctl_read
    ioctl_write axidma_read_transfer axidma_write_transfer require_chan axidma_get_chan
oneway_transfer_served os k p s channel buf len arg wait c h there known_dir access copied =
    let trans = oneway_transaction os channel buf len wait in
    let s1 = log (Event.copy_from_user arg 28) s in
    elim (find-cases channel s.dev.channels p.dev.channels h) [
      | inl (missing, lost) ↦ absurd (none-some c (sym missing ∙ there))
      | inr (c', d, there', found, (dir', type, channel_id)) ↦
          let dir : d.dir ≡ c.dir =
            dir' ∙ ap (λ x. x.dir) (some-injective _ _ (sym there' ∙ there)) in
          elim (dir-cases c.dir) [
            | inl reads ↦ (
              Request.read trans,
              rw (found, known) (rw (dir ∙ reads, dir_to_ioctl)),
              ioctl_runs k read arg s access
                  ∙ rw copied (ap (λ d. oneway_transfer k (accepting d) trans s1) (sym reads)),
              rw (there, require_chan) (rw reads),
            )
            | inr (inl writes) ↦ (
              Request.write trans,
              rw (found, known) (rw (dir ∙ writes, dir_to_ioctl)),
              ioctl_runs k write arg s access
                  ∙ rw copied (ap (λ d. oneway_transfer k (accepting d) trans s1) (sym writes)),
              rw (there, require_chan) (rw writes),
            )
            | inr (inr other) ↦ absurd (known_dir other)
          ]
    ]

-- What `ioctl` returns for the driver's answer.
abbrev pub returned : Out (Unit {0}) → Option Errno
returned (Driver.ok a s) = none
returned (Driver.err e s) = some e
returned (Driver.fault f s) = none

-- Over this driver, which refuses the command, the library's unregistration of a buffer always
-- aborts the process.
pub unregister_buffer_aborts :
    (os : Os) (k : Kernel) (p : Process) (s : State) (user_addr : ℕ)
    → os.ioctl p.calls p.dev.fd (Request.unregister user_addr)
      ≡ returned (axidma_ioctl k (command (Request.unregister user_addr)) user_addr s)
    → axidma_unregister_buffer os user_addr p
      ≡ abort assertion (note (Call.ioctl p.dev.fd (Request.unregister user_addr) (some enotty)) p)
unfolding axidma_unregister_buffer request ioctl
unregister_buffer_aborts os k p s user_addr answer =
    let refused =
      ioctl_refuses k (command (Request.unregister user_addr)) user_addr s (inr (omega arith)) in
    rw (answer, refused)
