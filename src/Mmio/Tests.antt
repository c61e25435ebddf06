-- ===== src/Mmio/Tests.antt =====
-- Runs of the transport of transport/mmio.rs over a small device of two queues.
use visor.Prelude.{ℕ, ◌≡◌, ◌⊎◌, refl, Bool, true, false, List, [], ◌∷◌, some, arith}
use visor.Prelude.BitSets.{IsSubset-refl}
use visor.Prelude.Bytes.{from_le_bytes}
use visor.Virtio.{VirtioDevice, VirtQueue, new_queue, DeviceType}
use visor.Mmio.{
  MmioTransport, new, write, write_register, set_device_status, check_status, transition, reset,
}
use visor.Mmio.Device.{LawfulDevice}
use visor.Mmio.Features.{IsOffered, write-IsOffered}
use visor.Mmio.Status.{Next, set_device_status-Next}

record Plain : Type 0 where
  offered : ℕ
  acked : ℕ
  rings : List VirtQueue
  on : Bool

abbrev plain_ops : VirtioDevice Plain ℕ
plain_ops = record {
  device_type = λ d. DeviceType.rng;
  avail_features = λ d. d.offered;
  acked_features = λ d. d.acked;
  set_acked_features = λ f d. record d { acked = f };
  queues = λ d. d.rings;
  set_queues = λ qs d. record d { rings = qs };
  read_config = λ d o bytes. bytes;
  write_config = λ o bytes d. d;
  activate = λ d. (record d { on = true }, true);
  is_activated = λ d. d.on;
  reset = λ d. record d { on = false };
  process_queue = λ i m d. (d, some true);
}

plain-LawfulDevice : LawfulDevice plain_ops
plain-LawfulDevice = record {
  acked-set_acked = λ f d h. refl;
  avail-set_acked = λ f d. refl;
  queues-set_acked = λ f d. refl;
  queues-set_queues = λ qs d h. refl;
  acked-set_queues = λ qs d. refl;
  avail-set_queues = λ qs d. refl;
  acked-write_config = λ o bytes d. refl;
  avail-write_config = λ o bytes d. refl;
  acked-activate = λ d. refl;
  avail-activate = λ d. refl;
  acked-process_queue = λ i m d. refl;
  avail-process_queue = λ i m d. refl;
  acked-reset = λ d. IsSubset-refl d.acked;
  avail-reset = λ d. refl;
}

abbrev two_queues : Plain
two_queues = record {
  offered = 0x100000025;
  acked = 0;
  rings = new_queue 256 ∷ new_queue 64 ∷ [];
  on = false;
}

abbrev fresh : MmioTransport Plain ℕ
fresh = new two_queues

abbrev driving : MmioTransport Plain ℕ
driving = record fresh { device_status = 3 }

abbrev configuring : MmioTransport Plain ℕ
configuring = record fresh { device_status = 11; queue_select = 1 }

abbrev running : MmioTransport Plain ℕ
running = record fresh { device_status = 15; interrupt_status = 3; irq_deassert = true }

-- Only what is offered is acknowledged.
features_acked : (write plain_ops driving 0x20 (0xFF ∷ 0 ∷ 0 ∷ 0 ∷ [])).device.acked ≡ 0x25
unfolding new write visor.Mmio.write_driver_features visor.Mmio.ack_features from_le_bytes
    check_status write_register
features_acked = refl

write-IsOffered_example :
    IsOffered plain_ops plain-LawfulDevice
      (write plain_ops driving 0x20 (0xFF ∷ 0 ∷ 0 ∷ 0 ∷ [])).device
unfolding new
write-IsOffered_example =
    write-IsOffered plain_ops plain-LawfulDevice driving 0x20 (0xFF ∷ 0 ∷ 0 ∷ 0 ∷ []) refl

set_device_status-Next_example :
    ((set_device_status plain_ops configuring 15).device_status ≡ 11)
    ⊎ Next 11 (set_device_status plain_ops configuring 15).device_status
unfolding new
set_device_status-Next_example =
    set_device_status-Next plain_ops configuring 15 (omega arith) (omega arith) refl refl
      (omega arith)

-- Writing 2 over 1 is taken, and the ACKNOWLEDGE bit is gone.
acknowledge_lost :
    (set_device_status plain_ops (record fresh { device_status = 1 }) 2).device_status ≡ 2
unfolding new set_device_status transition
acknowledge_lost = refl
