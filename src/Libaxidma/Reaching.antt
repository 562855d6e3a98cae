-- ===== src/Libaxidma/Reaching.antt =====
-- A session of the library: its operations as steps, in any order, until it is closed.
use mathlib.Core.Option.{some-injective}
use axidma_driver.Common.{
  ℕ, ◌≡◌, ◌∙◌, refl, sym, ap, inl, inr, Bool, Option, some, List, [], ◌∷◌, length, get_elem?, set,
  ltb, Bool-cases, Option-cases, subst, map, zero, suc, length-set,
}
use axidma_driver.Types.{AxidmaChan, VideoFrame}
use axidma_driver.Libaxidma.Process.{
  Os, Process, AxidmaDev, DmaChannel, Result, P, ok, err, abort, pure, ◌>>=◌,
}
use axidma_driver.Libaxidma.Channels.{channel_of, find_in, find_channel, store_channel}
use axidma_driver.Libaxidma.Session.{axidma_callback, write_callback, axidma_set_callback, is_some}
use axidma_driver.Libaxidma.Requests.{
  axidma_malloc, axidma_free, axidma_register_buffer, axidma_unregister_buffer,
  axidma_oneway_transfer, axidma_twoway_transfer, axidma_video_transfer, axidma_stop_transfer,
}
use axidma_driver.Libaxidma.Memory.{Fate, returns, fails, aborts}
use axidma_driver.Libaxidma.Agreement.{Knows}
use axidma_driver.Libaxidma.Completion.{IsOpen}
use axidma_driver.Libaxidma.Sorting.{IsSorted}
use axidma_driver.Libaxidma.Steps.{
  Leaves, request-Leaves, oneway-Leaves, twoway-Leaves, video-Leaves, stop-Leaves, free-Leaves,
  or_die-Leaves, callback-Leaves,
}

-- The operations of an open library, each with its arguments, and the arrival of the signal.
pub data Operation : Type 0 where
  set_callback : (channel callback user_data : ℕ) → Operation
  handle_signal : (si_int : ℕ) → Operation
  malloc : (size : ℕ) → Operation
  free : (addr size : ℕ) → Operation
  register : (dmabuf_fd user_addr size : ℕ) → Operation
  unregister : (user_addr : ℕ) → Operation
  oneway : (channel buf len : ℕ) → Bool → Operation
  twoway :
      (tx_channel tx_buf tx_len : ℕ)
      → Option VideoFrame
      → (rx_channel rx_buf rx_len : ℕ) → Option VideoFrame
      → Bool
      → Operation
  video :
      (display_channel width height depth : ℕ)
      → (frame_buffers : List ℕ) → (num_buffers : ℕ) → Operation
  stop : (channel : ℕ) → Operation

abbrev pub run : Os → Operation → P (Unit {0})
run os (set_callback channel callback user_data) = axidma_set_callback channel callback user_data
run os (handle_signal si_int) = axidma_callback si_int
run os (malloc size) = axidma_malloc os size >>= λ addr. pure tt
run os (free addr size) = axidma_free os addr size
run os (register dmabuf_fd user_addr size) = axidma_register_buffer os dmabuf_fd user_addr size
run os (unregister user_addr) = axidma_unregister_buffer os user_addr
run os (oneway channel buf len wait) = axidma_oneway_transfer os channel buf len wait
run os (twoway tx_channel tx_buf tx_len tx_frame rx_channel rx_buf rx_len rx_frame wait) =
    axidma_twoway_transfer os tx_channel tx_buf tx_len tx_frame rx_channel rx_buf rx_len rx_frame
      wait
run os (video display_channel width height depth frame_buffers num_buffers) =
    axidma_video_transfer os display_channel width height depth frame_buffers num_buffers
run os (stop channel) = axidma_stop_transfer os channel

-- The process goes on after a return and after an error, and not after an abort.
abbrev pub EndsIn : Result (Unit {0}) → Process → Type 0
EndsIn (ok a p) p' = p ≡ p'
EndsIn (err e p) p' = p ≡ p'
EndsIn (abort a p) p' = ⊥

-- Where a session leads, by any operations in any order.
pub data Reaches (os : Os) : Process → Process → Type 0 where
  here : {p : Process} → Reaches os p p
  step :
      {p p' p'' : Process} (o : Operation)
      → EndsIn (run os o p) p'
      → Reaches os p' p''
      → Reaches os p p''

-- What a session keeps of the library's structure, over the channels of the driver.
pub record IsSession (channels : List AxidmaChan) (d0 d : AxidmaDev) : Type 0 where
  pub knows : Knows channels d.channels
  pub open_ : IsOpen d
  pub arrays : d.arrays ≡ d0.arrays
  pub fd : d.fd ≡ d0.fd
  pub initialized : d.initialized ≡ d0.initialized

Knows-set :
    (cs : List AxidmaChan) (ds : List DmaChannel) (i : ℕ) (d : DmaChannel) (callback user_data : ℕ)
    → Knows cs ds
    → get_elem? ds i ≡ some d
    → Knows cs (set ds i (record d { callback = callback; user_data = user_data }))
Knows-set [] [] i d callback user_data h there = tt
Knows-set [] (x ∷ ds) i d callback user_data h there = elim h [ ]
Knows-set (c ∷ cs) [] i d callback user_data h there = elim h [ ]
Knows-set (c ∷ cs) (x ∷ ds) zero d callback user_data ((dir, type, channel_id), rest) there =
    let e = some-injective _ _ there in
    (
      (
        ap (λ y. y.dir) (sym e) ∙ dir,
        ap (λ y. y.type) (sym e) ∙ type,
        ap (λ y. y.channel_id) (sym e) ∙ channel_id,
      ),
      rest,
    )
Knows-set (c ∷ cs) (x ∷ ds) (suc i) d callback user_data (h, rest) there =
    (h, Knows-set cs ds i d callback user_data rest there)

module _ (channels : List AxidmaChan) (d0 : AxidmaDev) where
  abbrev Stays : Result (Unit {0}) → Type 0
  Stays o = Fate (λ _ p. IsSession channels d0 p.dev) (λ p. IsSession channels d0 p.dev) o

  left-Stays :
      (p : Process) {o : Result (Unit {0})} → IsSession channels d0 p.dev → Leaves p o → Stays o
  left-Stays p h (returns e) = returns (subst (IsSession channels d0) (sym e) h)
  left-Stays p h (fails e) = fails (subst (IsSession channels d0) (sym e) h)
  left-Stays p h aborts = aborts

  set_callback-Stays :
      (channel callback user_data : ℕ) (p : Process)
      → IsSession channels d0 p.dev
      → Stays (axidma_set_callback channel callback user_data p)
  unfolding axidma_set_callback find_channel write_callback store_channel
  set_callback-Stays channel callback user_data p h =
      elim (Bool-cases (is_some (find_in channel p.dev.channels))) [
        | inr missing ↦ rw missing aborts
        | inl found ↦ elim (Option-cases (get_elem? p.dev.channels channel)) [
          | inl outside ↦ rw (found, outside) aborts
          | inr (d, there) ↦ elim (Bool-cases (ltb channel (length p.dev.channels))) [
            | inr outside ↦ rw (found, there, outside) aborts
            | inl inside ↦
                let len =
                  length-set p.dev.channels channel
                    (record d { callback = callback; user_data = user_data }) in
                rw (found, there, inside)
                  (returns (record {
                    knows =
                        Knows-set channels p.dev.channels channel d callback user_data h.knows
                          there;
                    open_ = record { whole = len ∙ h.open_.whole; int = h.open_.int };
                    arrays = h.arrays;
                    fd = h.fd;
                    initialized = h.initialized;
                  }))
          ]
        ]
      ]

  run-Stays :
      (os : Os) (o : Operation) (p : Process) → IsSession channels d0 p.dev → Stays (run os o p)
  unfolding axidma_malloc axidma_register_buffer axidma_unregister_buffer
  run-Stays os (set_callback channel callback user_data) p h =
      set_callback-Stays channel callback user_data p h
  run-Stays os (handle_signal si_int) p h = left-Stays p h (callback-Leaves si_int p)
  run-Stays os (malloc size) p h = left-Stays p h (returns refl)
  run-Stays os (free addr size) p h = left-Stays p h (free-Leaves os addr size p)
  run-Stays os (register dmabuf_fd user_addr size) p h = left-Stays p h (request-Leaves os _ p)
  run-Stays os (unregister user_addr) p h = left-Stays p h (or_die-Leaves os _ p)
  run-Stays os (oneway channel buf len wait) p h =
      left-Stays p h (oneway-Leaves os channel buf len wait p)
  run-Stays os (twoway a b c d e f g i j) p h =
      left-Stays p h (twoway-Leaves os a b c d e f g i j p)
  run-Stays os (video a b c d e f) p h = left-Stays p h (video-Leaves os a b c d e f p)
  run-Stays os (stop channel) p h = left-Stays p h (stop-Leaves os channel p)

  ends-IsSession :
      {o : Result (Unit {0})} (p' : Process) → Stays o → EndsIn o p' → IsSession channels d0 p'.dev
  ends-IsSession p' (returns h) e = subst (λ p. IsSession channels d0 p.dev) e h
  ends-IsSession p' (fails h) e = subst (λ p. IsSession channels d0 p.dev) e h
  ends-IsSession p' aborts e = absurd e

  steps-IsSession :
      (os : Os) (p p' : Process)
      → Reaches os p p'
      → IsSession channels d0 p.dev
      → IsSession channels d0 p'.dev
  steps-IsSession os p p' here h = h
  steps-IsSession os p p' (step {p' = q} o e rest) h =
      steps-IsSession os q p' rest (ends-IsSession q (run-Stays os o p h) e)

channels-Knows : (cs : List AxidmaChan) → Knows cs (map channel_of cs)
channels-Knows [] = tt
channels-Knows (c ∷ cs) = ((refl, refl, refl), channels-Knows cs)

-- From an open library that has sorted the channels of the driver, whatever operations are run and
-- signals arrive, in any order and whatever is answered, up to an abort: the library keeps a
-- structure for each channel, in the driver's order with its direction, its type and its id; the four
-- arrays, the descriptor and the handle stay as they are.
pub Reaches-IsSession :
    (os : Os) (channels : List AxidmaChan) (p p' : Process)
    → IsSorted channels p.dev
    → IsOpen p.dev
    → Reaches os p p'
    → IsSession channels p.dev p'.dev
Reaches-IsSession os channels p p' sorted opened reaches =
    steps-IsSession channels p.dev os p p' reaches (record {
      knows = subst (Knows channels) (sym sorted.mirrored) (channels-Knows channels);
      open_ = opened;
      arrays = refl;
      fd = refl;
      initialized = refl;
    })
