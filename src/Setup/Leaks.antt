-- ===== src/Setup/Leaks.antt =====
-- Parsing the device tree calls nothing that allocates or frees, so what is held stays held.
use axidma_driver.Common.{
  ℕ, zero, suc, ◌+◌, ◌*◌, ◌/◌, ◌%◌, ◌≡◌, ◌≢◌, ◌∙◌, ==_ne, replicate, ◌∷◌, refl, ap, inl, inr,
  Option, none, some, arith, get_elem?, Option-cases,
}
use axidma_driver.Types.{word_mod, AxidmaChan, AxidmaDevice, Errno}
use axidma_driver.Kernel.{
  Kernel, Trace, State, Ret, success, failure, from_ret, ok, err, ◌>>=◌, Event, log, kmalloc,
}
use axidma_driver.Kernel.Ends
use axidma_driver.Kernel.Ends.{Ends}
use axidma_driver.Kernel.Resources.{held, memory, acquire}
use axidma_driver.DeviceTree.{
  DeviceTree, Kind, dma_tx, dma_rx, vdma_tx, vdma_rx, store_chan, write_chan, assign_kind,
  axidma_parse_compatible_property, axidma_of_parse_dma_name, store_id, parse_child,
  axidma_of_parse_channel, parse_phandle, parse_node, parse_nodes, axidma_check_unique_ids,
  axidma_of_parse_dma_nodes, axidma_of_num_channels,
}
use axidma_driver.Chrdev.Ioctl.{sizeof_chan}
use axidma_driver.Setup.Channels.{
  sizeof_cb_data, dma_set_coherent_mask, alloc_channels, alloc_cb_data, parse_and_request,
  axidma_dma_init,
}

-- The calls so far are `tr`.
abbrev Silent : Trace → State → Type 0
Silent tr s = s.trace ≡ tr

module _ (tr : Trace) where
  store_chan-Silent :
      (i : ℕ) (f : AxidmaChan → AxidmaChan) (dev : AxidmaDevice) (c : Option AxidmaChan) (s : State)
      → Silent tr s
      → Ends (Silent tr) (store_chan i f dev c s)
  unfolding store_chan
  store_chan-Silent i f dev none s h = record { final = h }
  store_chan-Silent i f dev (some c) s h = record { final = h }

  write_chan-Silent :
      (i : ℕ) (f : AxidmaChan → AxidmaChan) (s : State)
      → Silent tr s
      → Ends (Silent tr) (write_chan i f s)
  unfolding write_chan
  write_chan-Silent i f s h = store_chan-Silent i f s.dev (get_elem? s.dev.channels i) s h

  assign_kind-Silent :
      (i : ℕ) (kind : Kind) (s : State) → Silent tr s → Ends (Silent tr) (assign_kind i kind s)
  unfolding assign_kind
  assign_kind-Silent i kind s h =
      Ends.bind (write_chan-Silent i _ s h) λ _ s' h'. record { final = h' }

  module _ (t : DeviceTree) where
    parse_compatible-Silent :
        (np i : ℕ) (s : State)
        → Silent tr s
        → Ends (Silent tr) (axidma_parse_compatible_property t np i s)
    unfolding axidma_parse_compatible_property
    parse_compatible-Silent np i s h = ground (
      arith,
      assign_kind-Silent i dma_tx s h,
      assign_kind-Silent i dma_rx s h,
      assign_kind-Silent i vdma_tx s h,
      assign_kind-Silent i vdma_rx s h,
    )

    parse_name-Silent :
        (driver_node i : ℕ) (s : State)
        → Silent tr s
        → Ends (Silent tr) (axidma_of_parse_dma_name t driver_node i s)
    unfolding axidma_of_parse_dma_name
    parse_name-Silent driver_node i s h =
        elim (Option-cases (t.of_property_read_string_index driver_node "dma-names" i)) [
          | inl e ↦ rw (e, axidma_of_parse_dma_name) (record { final = h })
          | inr (name, e) ↦ rw (e, axidma_of_parse_dma_name) (write_chan-Silent i _ s h)
        ]

    store_id-Silent :
        (node i : ℕ) (id : Option ℕ) (s : State)
        → Silent tr s
        → Ends (Silent tr) (store_id t node i id s)
    unfolding store_id
    store_id-Silent node i none s h = record { final = h }
    store_id-Silent node i (some id) s h =
        Ends.bind (write_chan-Silent i _ s h) λ _ s' h'. parse_compatible-Silent node i s' h'

    parse_child-Silent :
        (node i : ℕ) (s : State) → Silent tr s → Ends (Silent tr) (parse_child t node i s)
    unfolding parse_child
    parse_child-Silent node i s h =
        ground (arith, store_id-Silent node i (t.of_property_read_u32 node "xlnx,device-id") s h)

    parse_channel-Silent :
        (dma_node channel i : ℕ) (s : State)
        → Silent tr s
        → Ends (Silent tr) (axidma_of_parse_channel t dma_node channel i s)
    unfolding axidma_of_parse_channel
    parse_channel-Silent dma_node channel i s h =
        let first = t.of_get_next_child dma_node 0 in
        ground (
          arith,
          parse_child-Silent first i s h,
          parse_child-Silent (t.of_get_next_child dma_node first) i s h,
        )

    parse_phandle-Silent :
        (driver_node i : ℕ) (args : ℕ × ℕ × ℕ) (s : State)
        → Silent tr s
        → Ends (Silent tr) (parse_phandle t driver_node i args s)
    unfolding parse_phandle
    parse_phandle-Silent driver_node i (dma_node, args_count, channel) s h = ground (
      arith,
      Ends.bind (parse_channel-Silent dma_node channel i s h)
          (λ _. parse_name-Silent driver_node i),
    )

    parse_args-Silent :
        (driver_node i : ℕ) (args : Ret (ℕ × ℕ × ℕ)) (s : State)
        → Silent tr s
        → Ends (Silent tr) ((from_ret args >>= parse_phandle t driver_node i) s)
    parse_args-Silent driver_node i (success args) s h = parse_phandle-Silent driver_node i args s h
    parse_args-Silent driver_node i (failure e) s h = record { final = h }

    parse_nodes-Silent :
        (driver_node n i : ℕ) (s : State)
        → Silent tr s
        → Ends (Silent tr) (parse_nodes t driver_node n i s)
    unfolding parse_nodes parse_node
    parse_nodes-Silent driver_node zero i s h = record { final = h }
    parse_nodes-Silent driver_node (suc n) i s h =
        Ends.bind
          (parse_args-Silent driver_node i (t.of_parse_phandle_with_args driver_node "dmas" i) s h)
          λ _ s' h'. parse_nodes-Silent driver_node n (i + 1) s' h'

    check-Silent : (s : State) → Silent tr s → Ends (Silent tr) (axidma_check_unique_ids s)
    unfolding axidma_check_unique_ids
    check-Silent s h = ground arith

-- Parsing the tree calls nothing of the kernel that changes anything, however it ends.
pub parse_dma_nodes-Silent :
    (t : DeviceTree) (driver_node : ℕ) (s : State)
    → Ends (Silent s.trace) (axidma_of_parse_dma_nodes t driver_node s)
unfolding axidma_of_parse_dma_nodes
parse_dma_nodes-Silent t driver_node s =
    Ends.bind (parse_nodes-Silent s.trace t driver_node s.dev.num_chans 0 _ refl)
      λ _ s' h. check-Silent s.trace t s' h

-- A tree with a number of channels whose nodes cannot be parsed into a device with that number.
pub record IsUnparsable (t : DeviceTree) (driver_node num_chans : ℕ) : Type 0 where
  pub counted : (s : State) → axidma_of_num_channels t driver_node s ≡ ok num_chans s
  pub refused :
      (s : State)
      → s.dev.num_chans ≡ num_chans
      → (e : Errno) × (s' : State) × (axidma_of_parse_dma_nodes t driver_node s ≡ err e s')

-- With two arrays held, the end of the set-up of the engine fails and holds them still.
parse_failure_leaks :
    (k : Kernel) (t : DeviceTree) (driver_node num_chans channels cb_data : ℕ) (s : State)
    → IsUnparsable t driver_node num_chans
    → s.dev.num_chans ≡ num_chans
    → (e : Errno) × (s' : State) × (parse_and_request k t driver_node channels cb_data s ≡ err e s')
      × (held s'.trace ≡ held s.trace)
unfolding parse_and_request
parse_failure_leaks k t driver_node num_chans channels cb_data s u counted =
    let (e, s', refused) = u.refused s counted in
    let silent : s'.trace ≡ s.trace =
      (rw refused at (parse_dma_nodes-Silent t driver_node s)).final in
    (e, s', rw refused refl, ap held silent)

-- Where the kernel accepts the mask and has memory, the whole set-up of the engine fails on a tree that
-- cannot be parsed, and does not give back either of the two arrays that it allocated.
pub dma_init_leaks :
    (k : Kernel) (t : DeviceTree) (driver_node num_chans : ℕ) (s : State)
    → k.dma_set_coherent_mask s.trace ≡ none
    → ((tr : Trace) (size : ℕ) → k.kmalloc tr size ≢ 0)
    → IsUnparsable t driver_node num_chans
    → (e : Errno) × (s' : State) × (channels : ℕ) × (cb_data : ℕ) × (axidma_dma_init k t driver_node
          s
        ≡ err e s')
      × (held s'.trace ≡ acquire (memory cb_data) (acquire (memory channels) (held s.trace)))
unfolding axidma_dma_init dma_set_coherent_mask alloc_channels alloc_cb_data kmalloc
dma_init_leaks k t driver_node num_chans s mask there u =
    let s1 = log (Event.dma_set_coherent_mask none) s in
    let size = num_chans * sizeof_chan % word_mod in
    let ptr = k.kmalloc s1.trace size in
    let s2 : State = record s1 {
      dev = record s1.dev {
        num_chans = num_chans;
        channels = replicate (size / sizeof_chan) k.fresh_chan;
        channels_ptr = ptr;
      };
      trace = Event.kmalloc size ptr ∷ s1.trace;
    } in
    let size' = num_chans * sizeof_cb_data % word_mod in
    let ptr' = k.kmalloc s2.trace size' in
    let s3 : State = record s2 {
      dev = record s2.dev {
        cb_data = replicate (size' / sizeof_cb_data) k.fresh_cb_data;
        cb_data_ptr = ptr';
      };
      trace = Event.kmalloc size' ptr' ∷ s2.trace;
    } in
    let got = ==_ne ptr 0 (there s1.trace size) in
    let got' = ==_ne ptr' 0 (there s2.trace size') in
    let (e, s', failed, kept) = parse_failure_leaks k t driver_node num_chans ptr ptr' s3 u refl in
    let held' : held s3.trace ≡ acquire (memory ptr') (acquire (memory ptr) (held s.trace)) =
      rw (got, got') in
    (e, s', ptr, ptr', rw (mask, u.counted _, got, got', failed) refl, kept ∙ held')
