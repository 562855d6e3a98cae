-- ===== src/Libaxidma/Completion.antt =====
-- The end of an asynchronous transfer reaches the user's callback.
use axidma_driver.Common.{
  ℕ, ◌^◌, ◌<◌, ◌≤◌, ◌≡◌, ◌≢◌, refl, true, false, some, arith, length, get_elem?, set, get_elem?-lt,
  get_elem?-ge, get_elem?-set_self, lt→ltb, ==_ne, le→leb,
}
use axidma_driver.Types.{AxidmaTransfer}
use axidma_driver.Kernel.{Kernel, State, Event, log}
use axidma_driver.Kernel as Driver
use axidma_driver.Dma.Engine.{cb_data_of, axidma_dma_callback, valid_notify_signal}
use axidma_driver.Libaxidma.Calls.{Call}
use axidma_driver.Libaxidma.Process.{
  Process, DmaChannel, AxidmaDev, out_of_bounds, ok, abort, note, ◌>>◌,
}
use axidma_driver.Libaxidma.Channels.{find_in, find_channel, store_channel}
use axidma_driver.Libaxidma.Session.{
  int_leb, invoke_callback, axidma_callback, write_callback, axidma_set_callback,
}

-- The library has a structure for each of its channels, and their number is an `int`.
pub record IsOpen (d : AxidmaDev) : Type 0 where
  pub whole : length d.channels ≡ d.num_channels
  pub int : d.num_channels < 2 ^ 31

int_leb_lem : (a b : ℕ) → a ≤ b → b < 2 ^ 31 → int_leb a b ≡ true
int_leb_lem a b h small = le→leb _ _ (omega arith)

-- The handler reads the structure at the index that it is given.
callback_lem :
    (id : ℕ) (p : Process)
    → id ≤ p.dev.num_channels
    → p.dev.num_channels < 2 ^ 31
    → axidma_callback id p ≡ invoke_callback id (get_elem? p.dev.channels id) p
unfolding axidma_callback
callback_lem id p below small =
    rw (int_leb_lem 0 id (omega arith) (omega arith), int_leb_lem id p.dev.num_channels below small)

-- The process after the entry at the index has been given a callback.
abbrev with_callback : (channel callback user_data : ℕ) → DmaChannel → Process → Process
with_callback channel callback user_data c p = record p {
  dev = record p.dev {
    channels = set p.dev.channels channel (record c { callback = callback; user_data = user_data });
  };
}

set_callback_lem :
    (channel callback user_data : ℕ) (c e : DmaChannel) (p : Process)
    → find_in channel p.dev.channels ≡ some c
    → get_elem? p.dev.channels channel ≡ some e
    → channel < length p.dev.channels
    → axidma_set_callback channel callback user_data p
      ≡ ok tt (with_callback channel callback user_data e p)
unfolding axidma_set_callback find_channel write_callback store_channel
set_callback_lem channel callback user_data c e p found there inside =
    rw (found, there, lt→ltb channel (length p.dev.channels) inside)

-- The end of an asynchronous transfer with a valid signal makes the driver send that signal with the
-- channel's id to the process; and in the process, the handler of a signal with this id runs the
-- callback that was set for the channel, with the id and the user's data. The channel's id must be
-- an index of the library's channels.
pub completion-set_callback :
    (k : Kernel) (tfr : AxidmaTransfer) (s : State) (callback user_data : ℕ) (c : DmaChannel)
    (p : Process)
    → tfr.wait ≡ false
    → valid_notify_signal k tfr.notify_signal ≡ true
    → IsOpen p.dev
    → find_in tfr.channel_id p.dev.channels ≡ some c
    → tfr.channel_id < p.dev.num_channels
    → callback ≢ 0
    → (axidma_dma_callback k (cb_data_of tfr) s
        ≡ Driver.ok tt (log (Event.send_sig_info tfr.notify_signal tfr.channel_id tfr.process) s))
      × (p' : Process) × ((axidma_set_callback tfr.channel_id callback user_data
              >> axidma_callback tfr.channel_id)
            p
          ≡ ok tt (note (Call.invoke callback tfr.channel_id user_data) p'))
      × (p'.calls ≡ p.calls)
unfolding axidma_dma_callback cb_data_of invoke_callback
completion-set_callback k tfr s callback user_data c p async valid opened found inside set_ =
    let id = tfr.channel_id in
    let inside' : id < length p.dev.channels = omega (arith, opened.whole) in
    let (e, there) = get_elem?-lt p.dev.channels id inside' in
    let e' : DmaChannel = record e { callback = callback; user_data = user_data } in
    let p' = with_callback id callback user_data e p in
    (
      rw (async, valid),
      p',
      rw (
        set_callback_lem id callback user_data c e p found there inside',
        callback_lem id p' (omega arith) opened.int,
        get_elem?-set_self p.dev.channels id e' inside',
        ==_ne callback 0 set_,
      ),
      refl,
    )

-- The entry is taken by the id, not by the place where the id was found. So the callback of a channel
-- whose id is no index is written beyond the library's channels; and the handler's assertion lets an
-- id pass that is the number of channels, and reads beyond them.
pub set_callback_overruns :
    (channel callback user_data : ℕ) (c : DmaChannel) (p : Process)
    → IsOpen p.dev
    → find_in channel p.dev.channels ≡ some c
    → p.dev.num_channels ≤ channel
    → (axidma_set_callback channel callback user_data p ≡ abort out_of_bounds p)
      × (axidma_callback p.dev.num_channels p ≡ abort out_of_bounds p)
unfolding axidma_set_callback find_channel write_callback invoke_callback
set_callback_overruns channel callback user_data c p opened found outside =
    let n = p.dev.num_channels in
    (
      rw (found, get_elem?-ge p.dev.channels channel (omega (arith, opened.whole))),
      rw (
        callback_lem n p (omega arith) opened.int,
        get_elem?-ge p.dev.channels n (omega (arith, opened.whole)),
      ),
    )
