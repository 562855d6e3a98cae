-- ===== src/DeviceTree.antt =====
-- driver/axidma_of.c: the channels are read from the device tree. The tree is a parameter: what each
-- `of_` function answers about a node. A node is a pointer, and 0 is NULL.
pub mod Unique
pub mod Counters
pub mod Counts
use Prim.Native.String.{String}
use axidma_driver.Common.{
  ℕ, zero, suc, ◌+◌, Bool, true, false, not, ◌&&◌, ◌||◌, Option, none, some, List, [], ◌∷◌, ltb,
  ◌==◌, if◌then◌else◌, length, get_elem?, set,
}
use axidma_driver.Types.{
  AxidmaDevice, AxidmaChan, AxidmaDir, axidma_write, axidma_read, AxidmaType, axidma_dma,
  axidma_vdma, einval,
}
use axidma_driver.Kernel.{
  M, Ret, null_deref, out_of_bounds, pure, fail, stop, ◌>>=◌, ◌>>◌, get_dev, put_dev, from_ret,
}

pub record DeviceTree : Type 0 where
  pub of_find_property : ℕ → String → Bool
  pub of_property_count_strings : ℕ → String → Option ℕ
  pub of_count_phandle_with_args : ℕ → String → Option ℕ
  -- The node, the number of arguments and the first argument.
  pub of_parse_phandle_with_args : ℕ → String → ℕ → Ret (ℕ × ℕ × ℕ)
  pub of_get_child_count : ℕ → ℕ
  pub of_get_next_child : ℕ → ℕ → ℕ
  pub of_device_is_compatible : ℕ → String → Bool
  pub of_property_read_u32 : ℕ → String → Option ℕ
  pub of_property_read_string_index : ℕ → String → ℕ → Option ℕ

-- A write through the pointer to entry `i` of `dev->channels`, which holds `found`.
unfoldable pub store_chan :
    ℕ → (AxidmaChan → AxidmaChan) → AxidmaDevice → Option AxidmaChan → M (Unit {0})
store_chan i f dev none = stop out_of_bounds
store_chan i f dev (some c) = put_dev (record dev { channels = set dev.channels i (f c) })

unfoldable pub write_chan : ℕ → (AxidmaChan → AxidmaChan) → M (Unit {0})
write_chan i f = do dev ← get_dev; store_chan i f dev (get_elem? dev.channels i)

-- The kinds of channels, each with its counter in the device.
pub data Kind : Type 0 where
  dma_tx dma_rx vdma_tx vdma_rx : Kind

unfoldable pub count_chan : Kind → AxidmaDevice → AxidmaDevice
count_chan dma_tx dev = record dev { num_dma_tx_chans = dev.num_dma_tx_chans + 1 }
count_chan dma_rx dev = record dev { num_dma_rx_chans = dev.num_dma_rx_chans + 1 }
count_chan vdma_tx dev = record dev { num_vdma_tx_chans = dev.num_vdma_tx_chans + 1 }
count_chan vdma_rx dev = record dev { num_vdma_rx_chans = dev.num_vdma_rx_chans + 1 }

abbrev pub kind_type : Kind → AxidmaType
kind_type dma_tx = axidma_dma
kind_type dma_rx = axidma_dma
kind_type vdma_tx = axidma_vdma
kind_type vdma_rx = axidma_vdma

abbrev pub kind_dir : Kind → AxidmaDir
kind_dir dma_tx = axidma_write
kind_dir dma_rx = axidma_read
kind_dir vdma_tx = axidma_write
kind_dir vdma_rx = axidma_read

-- One branch of `axidma_parse_compatible_property`: the channel's kind is stored and counted.
unfoldable pub assign_kind : ℕ → Kind → M (Unit {0})
assign_kind i kind = do
  write_chan i (λ c. record c { type = kind_type kind; dir = kind_dir kind })
  dev ← get_dev
  put_dev (count_chan kind dev)

-- The loop of `axidma_check_unique_ids` over `j`.
unfoldable pub id_clashes : ℕ → List AxidmaChan → Bool
id_clashes id [] = false
id_clashes id (c ∷ cs) = if id == c.channel_id then true else id_clashes id cs

unfoldable pub any_clash : List AxidmaChan → Bool
any_clash [] = false
any_clash (c ∷ cs) = id_clashes c.channel_id cs || any_clash cs

unfoldable pub axidma_check_unique_ids : M (Unit {0})
axidma_check_unique_ids = do dev ← get_dev; if any_clash dev.channels then fail einval else pure tt

module _ (t : DeviceTree) where
  -- A node with no `compatible` property is reported, and accepted as it is.
  unfoldable pub axidma_parse_compatible_property : (np i : ℕ) → M (Unit {0})
  axidma_parse_compatible_property np i =
      if t.of_device_is_compatible np "xlnx,axi-dma-mm2s-channel"
      then assign_kind i dma_tx
      else if t.of_device_is_compatible np "xlnx,axi-dma-s2mm-channel"
      then assign_kind i dma_rx
      else if t.of_device_is_compatible np "xlnx,axi-vdma-mm2s-channel"
      then assign_kind i vdma_tx
      else if t.of_device_is_compatible np "xlnx,axi-vdma-s2mm-channel"
      then assign_kind i vdma_rx
      else if not (t.of_find_property np "compatible")
      then pure tt
      else fail einval

  unfoldable pub axidma_of_parse_dma_name : (driver_node i : ℕ) → M (Unit {0})
  axidma_of_parse_dma_name driver_node i =
      elim (t.of_property_read_string_index driver_node "dma-names" i) [
        | none ↦ fail einval
        | some name ↦ write_chan i (λ c. record c { name = name })
      ]

  -- The end of `axidma_of_parse_channel`: the id that was read is stored, then the kind.
  unfoldable pub store_id : (node i : ℕ) → Option ℕ → M (Unit {0})
  store_id node i none = fail einval
  store_id node i (some id) = do
    write_chan i (λ c. record c { channel_id = id })
    axidma_parse_compatible_property node i

  -- A child that does not exist is reported by its name, which is read through NULL.
  unfoldable pub parse_child : (node i : ℕ) → M (Unit {0})
  parse_child node i = do
    if node == 0 then stop null_deref else pure tt
    if t.of_find_property node "xlnx,device-id"
        then store_id node i (t.of_property_read_u32 node "xlnx,device-id")
        else fail einval

  unfoldable pub axidma_of_parse_channel : (dma_node channel i : ℕ) → M (Unit {0})
  axidma_of_parse_channel dma_node channel i =
      if ltb (t.of_get_child_count dma_node) 1
      then fail einval
      else if ltb 2 (t.of_get_child_count dma_node)
      then fail einval
      else (let first = t.of_get_next_child dma_node 0 in
          parse_child (if channel == 1 then t.of_get_next_child dma_node first else first) i)

  unfoldable pub axidma_of_num_channels : ℕ → M ℕ
  axidma_of_num_channels driver_node =
      if not (t.of_find_property driver_node "dma-names")
      then fail einval
      else if not (t.of_find_property driver_node "dmas")
      then fail einval
      else elim (t.of_property_count_strings driver_node "dma-names") [
        | none ↦ fail einval
        | some num_dma_names ↦
            if num_dma_names == 0
            then fail einval
            else elim (t.of_count_phandle_with_args driver_node "dmas") [
              | none ↦ fail einval
              | some num_dmas ↦
                  if num_dmas == 0
                  then fail einval
                  else if num_dma_names == num_dmas
                  then pure num_dma_names
                  else fail einval
            ]
      ]

  -- One round of the loop of `axidma_of_parse_dma_nodes`, from the phandle on.
  unfoldable pub parse_phandle : (driver_node i : ℕ) → ℕ × ℕ × ℕ → M (Unit {0})
  parse_phandle driver_node i (dma_node, args_count, channel) =
      if ltb args_count 1
      then fail einval
      else if not (channel == 0) && not (channel == 1)
      then fail einval
      else axidma_of_parse_channel dma_node channel i >> axidma_of_parse_dma_name driver_node i

  unfoldable pub parse_node : (driver_node i : ℕ) → M (Unit {0})
  parse_node driver_node i =
      from_ret (t.of_parse_phandle_with_args driver_node "dmas" i) >>= parse_phandle driver_node i

  -- The rounds that are left, from `i` on.
  unfoldable pub parse_nodes : ℕ → (n i : ℕ) → M (Unit {0})
  parse_nodes driver_node zero i = pure tt
  parse_nodes driver_node (suc n) i = parse_node driver_node i >> parse_nodes driver_node n (i + 1)

  unfoldable pub axidma_of_parse_dma_nodes : ℕ → M (Unit {0})
  axidma_of_parse_dma_nodes driver_node = do
    dev ← get_dev
    put_dev (record dev {
      num_dma_tx_chans = 0;
      num_dma_rx_chans = 0;
      num_vdma_tx_chans = 0;
      num_vdma_rx_chans = 0;
    })
    parse_nodes driver_node dev.num_chans 0
    axidma_check_unique_ids
