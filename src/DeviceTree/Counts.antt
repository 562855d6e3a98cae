-- ===== src/DeviceTree/Counts.antt =====
-- Parsing keeps the four counters equal to the number of channels of each kind.
use native.Mathlib.Nat.{add-zero, zero-add}
use axidma_driver.Common.{
  ℕ, zero, suc, ◌+◌, ◌≡◌, ◌∙◌, inl, inr, refl, ap, Bool, true, false, not, ◌&&◌, Option, none, some,
  ltb, ◌==◌, length, take-length, arith, Bool-cases, Option-cases, if◌then◌else◌,
}
use axidma_driver.Types.{AxidmaChan, AxidmaDevice}
use axidma_driver.Kernel.{State, M, Ret, success, failure, from_ret, pure, stop, null_deref}
use axidma_driver.Kernel.Ends
use axidma_driver.Kernel.Ends.{Outcome, returns, fails, stops}
use axidma_driver.DeviceTree.{
  DeviceTree, Kind, dma_tx, dma_rx, vdma_tx, vdma_rx, axidma_parse_compatible_property,
  axidma_of_parse_dma_name, axidma_of_parse_channel, store_id, parse_child, parse_phandle,
  parse_node, parse_nodes, axidma_of_parse_dma_nodes,
}
use axidma_driver.DeviceTree.Unique.{Distinct, check_unique_ids-Outcome}
use axidma_driver.DeviceTree.Counters.{
  is_kind, counter, count, Counted, write_chan-Written, set_chan-Counted, rename-Counted,
  assign_kind-Counted,
}

abbrev Counts : ℕ → ℕ → Unit {0} → State → Type 0
Counts n i _ s = Counted n i s

-- Every node has the property, so that no channel is accepted without a kind.
abbrev pub HasCompatible : DeviceTree → Type 0
HasCompatible t = (np : ℕ) → t.of_find_property np "compatible" ≡ true

-- An early return or a fault, or nothing.
stop_or_go :
    (b : Bool) (m : M (Unit {0})) (s : State)
    → Outcome (λ _ s'. s' ≡ s) (λ _. Unit) (m s)
    → Outcome (λ _ s'. s' ≡ s) (λ _. Unit) ((if b then m else pure tt) s)
stop_or_go true m s h = h
stop_or_go false m s h = returns refl

same_kind :
    (c : AxidmaChan) (name : ℕ) (kind : Kind)
    → is_kind kind (record c { name = name }) ≡ is_kind kind c
same_kind c name dma_tx = refl
same_kind c name dma_rx = refl
same_kind c name vdma_tx = refl
same_kind c name vdma_rx = refl

from_ret-Outcome :
    {A : Type 0} (r : Ret A) (s : State) → Outcome (λ _ s'. s' ≡ s) (λ _. Unit) (from_ret r s)
from_ret-Outcome (success a) s = returns refl
from_ret-Outcome (failure e) s = fails tt

module _ (t : DeviceTree) (compatible : HasCompatible t) (n : ℕ) where
  parse_compatible-Counted :
      (np i : ℕ) (s : State)
      → Counted n i s
      → Outcome (Counts n (suc i)) (λ _. Unit) (axidma_parse_compatible_property t np i s)
  unfolding axidma_parse_compatible_property
  parse_compatible-Counted np i s h =
      elim (Bool-cases (t.of_device_is_compatible np "xlnx,axi-dma-mm2s-channel")) [
        | inl y ↦ rw y (assign_kind-Counted n i dma_tx s h)
        | inr y ↦
            rw y (elim (Bool-cases (t.of_device_is_compatible np "xlnx,axi-dma-s2mm-channel")) [
              | inl y ↦ rw y (assign_kind-Counted n i dma_rx s h)
              | inr y ↦
                  rw y
                    (elim (Bool-cases (t.of_device_is_compatible np "xlnx,axi-vdma-mm2s-channel")) [
                      | inl y ↦ rw y (assign_kind-Counted n i vdma_tx s h)
                      | inr y ↦
                          rw y
                            (elim (Bool-cases
                              (t.of_device_is_compatible np "xlnx,axi-vdma-s2mm-channel")) [
                                | inl y ↦ rw y (assign_kind-Counted n i vdma_rx s h)
                                | inr y ↦ rw (y, compatible np) (fails tt)
                              ])
                    ])
            ])
      ]

  -- The id of the child, then its kind.
  id_and_kind-Counted :
      (node i : ℕ) (id : Option ℕ) (s : State)
      → Counted n i s
      → Outcome (Counts n (suc i)) (λ _. Unit) (store_id t node i id s)
  unfolding store_id
  id_and_kind-Counted node i none s h = fails tt
  id_and_kind-Counted node i (some id) s h =
      Ends.proceed (write_chan-Written i _ s)
        λ _ s' (c, there, e). rw e (parse_compatible-Counted node i _ (set_chan-Counted n i _ s h))

  parse_child-Counted :
      (node i : ℕ) (s : State)
      → Counted n i s
      → Outcome (Counts n (suc i)) (λ _. Unit) (parse_child t node i s)
  unfolding parse_child
  parse_child-Counted node i s h =
      Ends.proceed (stop_or_go (node == 0) (stop null_deref) s (stops tt)) λ _ s1 e1.
        rw e1 (elim (Bool-cases (t.of_find_property node "xlnx,device-id")) [
          | inl y ↦ rw y (id_and_kind-Counted node i _ s h)
          | inr y ↦ rw y (fails tt)
        ])

  parse_channel-Counted :
      (dma_node channel i : ℕ) (s : State)
      → Counted n i s
      → Outcome (Counts n (suc i)) (λ _. Unit) (axidma_of_parse_channel t dma_node channel i s)
  unfolding axidma_of_parse_channel
  parse_channel-Counted dma_node channel i s h =
      elim (Bool-cases (ltb (t.of_get_child_count dma_node) 1)) [
        | inl y ↦ rw y (fails tt)
        | inr y ↦ elim (Bool-cases (ltb 2 (t.of_get_child_count dma_node))) [
          | inl z ↦ rw (y, z) (fails tt)
          | inr z ↦ rw (y, z) (parse_child-Counted _ i s h)
        ]
      ]

  parse_name-Counted :
      (driver_node i : ℕ) (s : State)
      → Counted n (suc i) s
      → Outcome (Counts n (suc i)) (λ _. Unit) (axidma_of_parse_dma_name t driver_node i s)
  unfolding axidma_of_parse_dma_name
  parse_name-Counted driver_node i s h =
      elim (Option-cases (t.of_property_read_string_index driver_node "dma-names" i)) [
        | inl e ↦ rw (e, axidma_of_parse_dma_name) (fails tt)
        | inr (name, e) ↦
            rw (e, axidma_of_parse_dma_name)
              (Ends.weaken (write_chan-Written i _ s) λ _ s' (c, there, w).
                rw w (rename-Counted n i c (record c { name = name }) s there (same_kind c name) h))
      ]

  parse_phandle-Counted :
      (driver_node i : ℕ) (args : ℕ × ℕ × ℕ) (s : State)
      → Counted n i s
      → Outcome (Counts n (suc i)) (λ _. Unit) (parse_phandle t driver_node i args s)
  unfolding parse_phandle
  parse_phandle-Counted driver_node i (dma_node, args_count, channel) s h =
      elim (Bool-cases (ltb args_count 1)) [
        | inl y ↦ rw y (fails tt)
        | inr y ↦ elim (Bool-cases (not (channel == 0) && not (channel == 1))) [
          | inl z ↦ rw (y, z) (fails tt)
          | inr z ↦
              rw (y, z)
                (Ends.proceed (parse_channel-Counted dma_node channel i s h)
                  λ _ s' h'. parse_name-Counted driver_node i s' h')
        ]
      ]

  parse_node-Counted :
      (driver_node i : ℕ) (s : State)
      → Counted n i s
      → Outcome (Counts n (suc i)) (λ _. Unit) (parse_node t driver_node i s)
  unfolding parse_node
  parse_node-Counted driver_node i s h =
      Ends.proceed (from_ret-Outcome (t.of_parse_phandle_with_args driver_node "dmas" i) s)
        λ args s' e. rw e (parse_phandle-Counted driver_node i args s h)

  parse_nodes-Counted :
      (driver_node m i : ℕ) (s : State)
      → Counted n i s
      → Outcome (Counts n (i + m)) (λ _. Unit) (parse_nodes t driver_node m i s)
  unfolding parse_nodes
  parse_nodes-Counted driver_node zero i s h = returns (rw add-zero h)
  parse_nodes-Counted driver_node (suc m) i s h =
      Ends.proceed (parse_node-Counted driver_node i s h) λ _ s' h'.
        let e : i + 1 ≡ suc i = omega arith in
        let e' : i + suc m ≡ suc i + m = omega arith in
        rw (e, e') (parse_nodes-Counted driver_node m (suc i) s' h')

-- What a device that was read from the tree satisfies: the ids are distinct, and each counter is the
-- number of channels of its kind.
pub record IsParsed (dev : AxidmaDevice) : Type 0 where
  pub distinct : Distinct dev.channels
  pub counted : (kind : Kind) → counter kind dev ≡ count kind dev.channels

reset-Counted :
    (kind : Kind) (s : State)
    → counter kind (record s.dev {
      num_dma_tx_chans = 0;
      num_dma_rx_chans = 0;
      num_vdma_tx_chans = 0;
      num_vdma_rx_chans = 0;
    })
      ≡ 0
reset-Counted dma_tx s = refl
reset-Counted dma_rx s = refl
reset-Counted vdma_tx s = refl
reset-Counted vdma_rx s = refl

-- Where the array has `num_chans` entries and every node has a `compatible` property, a run that
-- returns 0 leaves a device whose channel ids are distinct and whose four counters are the numbers
-- of its channels by kind.
pub parse_dma_nodes-IsParsed :
    (t : DeviceTree) (driver_node : ℕ) (s : State)
    → HasCompatible t
    → length s.dev.channels ≡ s.dev.num_chans
    → Outcome (λ _ s'. IsParsed s'.dev) (λ _. Unit) (axidma_of_parse_dma_nodes t driver_node s)
unfolding axidma_of_parse_dma_nodes
parse_dma_nodes-IsParsed t driver_node s compatible len =
    Ends.proceed
      (parse_nodes-Counted t compatible s.dev.num_chans driver_node s.dev.num_chans 0 _
        (len, λ kind. reset-Counted kind s))
      λ _ s' (len', counts). Ends.weaken (check_unique_ids-Outcome s') λ _ s2 (same, d).
        rw same (record {
          distinct = d;
          counted = λ kind.
              counts kind
              ∙ ap (count kind) (rw zero-add (take-length s'.dev.channels s.dev.num_chans len'));
        })
