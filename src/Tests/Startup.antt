-- ===== src/Tests/Startup.antt =====
-- Set-up and tear-down on the concrete device.
use axidma_driver.Common.{ℕ, ◌≡◌, refl, none, some, [], ◌∷◌, arith}
use axidma_driver.Kernel.{State, Event, ok, success, log}
use axidma_driver.Kernel.Ends.{Attempt}
use axidma_driver.Kernel.Resources.{held}
use axidma_driver.Setup.Chardev.{axidma_chrdev_init}
use axidma_driver.Setup.Channels.{axidma_request_channels, axidma_dma_exit}
use axidma_driver.Setup.Registration.{IsRegistered, chrdev_init-Attempt}
use axidma_driver.Setup.Reserve.{IsReserved, Returned, request_channels-Attempt}
use axidma_driver.Setup.Release.{dma_exit-Returned}
use axidma_driver.Types.{Errno, einval}
use axidma_driver.Kernel.{err}
use axidma_driver.Kernel.Resources.{memory, acquire}
use axidma_driver.Common.{◌+◌, true}
use axidma_driver.DeviceTree.{
  DeviceTree, axidma_of_parse_dma_nodes, parse_nodes, parse_node, parse_phandle,
  axidma_of_parse_channel, axidma_of_num_channels,
}
use axidma_driver.Setup.Channels.{axidma_dma_init}
use axidma_driver.Setup.Leaks.{IsUnparsable, dma_init_leaks}
use axidma_driver.Tests.{sim, booted, device, tx_chan, rx_chan, video_chan, far_chan}

chrdev_init-Attempt_example :
    Attempt
      (λ _. IsRegistered booted)
      (λ s'. held s'.trace ≡ some [])
      (axidma_chrdev_init sim booted)
chrdev_init-Attempt_example = chrdev_init-Attempt sim booted

abbrev registered : State
registered = record booted {
  dev = record device {
    chrdev = record device.chrdev { dev_num = 240; dev_class = 800; device = 801 };
    dmabuf_list = [];
    external_dmabufs = [];
  };
  trace =
      Event.cdev_add 240 1 none
      ∷ Event.device_create 800 240 20 (success 801)
      ∷ Event.class_create 20 (success 800)
      ∷ Event.alloc_chrdev_region 0 1 20 (success 240)
      ∷ [];
}

registered-IsRegistered : IsRegistered booted registered
registered-IsRegistered = record {
  dev_num = 240;
  dev_class = 800;
  device = 801;
  stored = refl;
  holding = refl;
}

request_channels-Attempt_example :
    Attempt
      (λ _. IsReserved 1010 booted)
      (Returned 1010 booted)
      (axidma_request_channels sim booted)
request_channels-Attempt_example = request_channels-Attempt sim 1010 booted (λ e. omega arith) refl

abbrev reserved : State
reserved = record booted {
  dev = record device {
    channels =
        record tx_chan { chan = 1010 }
        ∷ record rx_chan { chan = 1011 }
        ∷ record video_chan { chan = 1012 }
        ∷ record far_chan { chan = 1013 }
        ∷ [];
  };
  trace =
      Event.dma_request_slave_channel 13 1013
      ∷ Event.dma_request_slave_channel 12 1012
      ∷ Event.dma_request_slave_channel 11 1011
      ∷ Event.dma_request_slave_channel 10 1010
      ∷ [];
}

reserved-IsReserved : IsReserved 1010 booted reserved
reserved-IsReserved = record {
  given = (λ e. omega arith, (λ e. omega arith, (λ e. omega arith, (λ e. omega arith, tt))));
  asked = refl;
  kept = refl;
}

dma_exit-Returned_example :
    (s' : State) × (axidma_dma_exit sim reserved
      ≡ ok tt (log (Event.kfree 900) (log (Event.kfree 901) s')))
    × (s'.dev ≡ reserved.dev)
    × Returned 1010 booted s'
dma_exit-Returned_example = dma_exit-Returned sim 1010 booted reserved reserved-IsReserved refl

-- A tree whose nodes have no children.
abbrev bare : DeviceTree
bare = record {
  of_find_property = λ _ _. true;
  of_property_count_strings = λ _ _. some 4;
  of_count_phandle_with_args = λ _ _. some 4;
  of_parse_phandle_with_args = λ _ _ i. success (200 + i, 1, 0);
  of_get_child_count = λ _. 0;
  of_get_next_child = λ _ _. 0;
  of_device_is_compatible = λ _ _. true;
  of_property_read_u32 = λ node _. some node;
  of_property_read_string_index = λ _ _ i. some i;
}

bare-IsUnparsable : IsUnparsable bare 50 4
unfolding axidma_of_num_channels axidma_of_parse_dma_nodes parse_nodes parse_node parse_phandle
    axidma_of_parse_channel
bare-IsUnparsable = record { counted = λ s. refl; refused = counters }
  where
    counters :
        (s : State)
        → s.dev.num_chans ≡ 4
        → (e : Errno) × (s' : State) × (axidma_of_parse_dma_nodes bare 50 s ≡ err e s')
    counters s e = (
      einval,
      record s {
        dev = record s.dev {
          num_dma_tx_chans = 0;
          num_dma_rx_chans = 0;
          num_vdma_tx_chans = 0;
          num_vdma_rx_chans = 0;
        };
      },
      rw e refl,
    )

dma_init_leaks_example :
    (e : Errno) × (s' : State) × (channels : ℕ) × (cb_data : ℕ) × (axidma_dma_init sim bare 50
        booted
      ≡ err e s')
    × (held s'.trace ≡ acquire (memory cb_data) (acquire (memory channels) (held booted.trace)))
dma_init_leaks_example =
    dma_init_leaks sim bare 50 4 booted refl (λ tr size e. omega (arith, e)) bare-IsUnparsable
