-- ===== src/Tests/Memory.antt =====
-- Buffers, commands and the device tree on the concrete device.
use axidma_driver.Common.{ℕ, ◌+◌, ◌≡◌, refl, true, none, some, [], ◌∷◌, Any, arith}
use axidma_driver.Kernel.{State, Event, ok, success, update, kmalloc}
use axidma_driver.Kernel.Ends.{Outcome, Attempt}
use axidma_driver.Kernel.Resources.{held}
use axidma_driver.Buffers.Regions.{Region, own_region, external_region, IsDevice}
use axidma_driver.DeviceTree.{DeviceTree, axidma_of_parse_dma_nodes}
use axidma_driver.DeviceTree.Unique.{Distinct}
use axidma_driver.DeviceTree.Counts.{IsParsed, parse_dma_nodes-IsParsed}
use axidma_driver.Chrdev.Memory.{
  axidma_get_external, axidma_put_external, put_loop, release_external, free_external, axidma_mmap,
  axidma_vma_close, map_region, add_allocation, dma_alloc_coherent, dma_mmap_coherent,
}
use axidma_driver.Chrdev.Cleanup.{Undone, Registered, get_external-Attempt}
use axidma_driver.Chrdev.Mapping.{Mapped, mmap-Attempt, close-Mapped}
use axidma_driver.Chrdev.Adding.{Allocates, mmap-IsDevice}
use axidma_driver.Chrdev.Dangling.{put_external_dangles}
use axidma_driver.Types.{axidma_write}
use axidma_driver.Kernel.Balance.{Settles}
use axidma_driver.Dma.Memory.{Holding}
use axidma_driver.Chrdev.Ioctl.{ioctl_video}
use axidma_driver.Chrdev.Leaks.{ioctl_video-Settles}
use axidma_driver.Buffers.{axidma_uservirt_to_dma}
use axidma_driver.Chrdev.Translation.{uservirt_to_dma-Mapped}
use axidma_driver.Tests.{sim, booted, booted-IsDevice, device, buffer, external, registration}

get_external-Attempt_example :
    Attempt
      (λ _. Registered booted registration)
      (Undone booted)
      (axidma_get_external sim registration booted)
get_external-Attempt_example = get_external-Attempt sim booted registration

mmap-Attempt_example :
    Attempt
      (Mapped booted 0x50000000 8192)
      (Undone booted)
      (axidma_mmap sim 0x50000000 0x50002000 booted)
mmap-Attempt_example = mmap-Attempt sim booted 0x50000000 0x50002000

-- The state after an area has been mapped.
abbrev mapped_state : State
mapped_state = record {
  dev = record device { dmabuf_list = 3000 ∷ 1000 ∷ [] };
  allocs = update booted.allocs 3000 (
      some (record {
        size = 8192;
        user_addr = 0x50000000;
        kern_addr = 0xC0100000;
        dma_addr = 0x31000000;
      }));
  exts = booted.exts;
  trace =
      Event.dma_mmap_coherent 0xC0100000 0x31000000 8192 none
      ∷ Event.dma_alloc_coherent 8192 0xC0100000 0x31000000
      ∷ Event.of_dma_configure
      ∷ Event.kmalloc 24 3000
      ∷ [];
}

mmap_runs : axidma_mmap sim 0x50000000 0x50002000 booted ≡ ok 3000 mapped_state
unfolding axidma_mmap kmalloc map_region add_allocation dma_alloc_coherent dma_mmap_coherent
mmap_runs = refl

abbrev area : Mapped booted 0x50000000 8192 3000 mapped_state
area = record {
  kern_addr = 0xC0100000;
  dma_addr = 0x31000000;
  listed = refl;
  live = refl;
  others = refl;
  holding = refl;
}

close-Mapped_example :
    (s2 : State) × (axidma_vma_close 3000 mapped_state ≡ ok tt s2)
    × (s2.dev ≡ device)
    × (held s2.trace ≡ some [])
    × (s2.allocs ≡ update booted.allocs 3000 none)
close-Mapped_example = close-Mapped booted mapped_state 0x50000000 8192 3000 area

abbrev mapped_region : Region
mapped_region = record { user_addr = 0x50000000; size = 8192; dma_addr = 0x31000000 }

sim-Allocates : Allocates sim
sim-Allocates _ size got = ground arith

mmap-IsDevice_example :
    (dma_addr : ℕ) × IsDevice mapped_state
      (record { user_addr = 0x50000000; size = 8192; dma_addr = dma_addr } ∷ own_region buffer ∷ [])
      (external_region external ∷ [])
mmap-IsDevice_example =
    mmap-IsDevice sim booted 0x50000000 0x50002000 3000 mapped_state (own_region buffer ∷ [])
      (external_region external ∷ []) booted-IsDevice mmap_runs refl (omega arith) sim-Allocates

device-Distinct : Distinct device.channels
device-Distinct = (
  (λ e. omega arith, (λ e. omega arith, (λ e. omega arith, tt))),
  ((λ e. omega arith, (λ e. omega arith, tt)), ((λ e. omega arith, tt), (tt, tt))),
)

-- A tree whose channel `i` is the child of the node `200 + i`, with that node's number as its id.
abbrev tree : DeviceTree
tree = record {
  of_find_property = λ _ _. true;
  of_property_count_strings = λ _ _. some 4;
  of_count_phandle_with_args = λ _ _. some 4;
  of_parse_phandle_with_args = λ _ _ i. success (200 + i, 1, 0);
  of_get_child_count = λ _. 1;
  of_get_next_child = λ node _. node;
  of_device_is_compatible = λ _ _. true;
  of_property_read_u32 = λ node _. some node;
  of_property_read_string_index = λ _ _ i. some i;
}

parse_dma_nodes-IsParsed_example :
    Outcome (λ _ s'. IsParsed s'.dev) (λ _. Unit) (axidma_of_parse_dma_nodes tree 50 booted)
parse_dma_nodes-IsParsed_example = parse_dma_nodes-IsParsed tree 50 booted (λ np. refl) refl

abbrev put_state : State
put_state = record {
  dev = device;
  allocs = booted.allocs;
  exts = update booted.exts 2000 none;
  trace =
      Event.kfree 2000
      ∷ Event.dma_buf_put 700
      ∷ Event.dma_buf_detach 700 701
      ∷ Event.dma_buf_unmap_attachment 701 702
      ∷ [];
}

put_runs : axidma_put_external 0x20000000 booted ≡ ok tt put_state
unfolding axidma_put_external put_loop release_external free_external
put_runs = refl

put_external_dangles_example :
    (device ≡ device) × Any (λ p. put_state.exts p ≡ none) device.external_dmabufs
put_external_dangles_example = put_external_dangles 0x20000000 booted put_state put_runs

ioctl_video-Settles_example :
    Settles (Holding (some [])) (ioctl_video sim axidma_write 0x7FFF0000 booted)
ioctl_video-Settles_example = ioctl_video-Settles sim axidma_write 0x7FFF0000 booted (some []) refl

uservirt_to_dma-Mapped_example :
    axidma_uservirt_to_dma 0x50000100 512 mapped_state ≡ ok 0x31000100 mapped_state
uservirt_to_dma-Mapped_example =
    uservirt_to_dma-Mapped booted mapped_state 0x50000000 8192 3000 area 0x50000100 512
      (record { user_end = omega arith; dma_end = omega arith; dma_start = omega arith })
      (omega arith) (omega arith) (omega arith)
