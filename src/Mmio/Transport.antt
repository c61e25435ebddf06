-- ===== src/Mmio/Transport.antt =====
-- The state of the transport of transport/mmio.rs, its queues and its status.
use visor.Prelude.{
  ℕ, ◌+◌, bit_and, bit_or, Bool, true, false, not, ◌&&◌, map, Option, none, some, get_elem?, set,
  ◌==◌, if◌then◌else◌,
}
use visor.Prelude.Bytes.{not_u32}
use visor.Virtio.{
  virtio_mmio_int_vring, device_status_init, device_status_acknowledge, device_status_driver,
  device_status_features_ok, device_status_driver_ok, device_status_failed, type_code, VirtQueue,
  reset_queue, VirtioDevice,
}

pub record MmioTransport (D M : Type 0) : Type 0 where
  pub device : D
  pub features_select : ℕ
  pub acked_features_select : ℕ
  pub queue_select : ℕ
  pub device_status : ℕ
  pub config_generation : ℕ
  pub interrupt_status : ℕ
  pub memory : Option M
  pub irq_evt : Bool
  pub irq_deassert : Bool
  pub triggers : ℕ
  pub deasserts : ℕ

unfoldable pub new : {D M : Type 0} → D → MmioTransport D M
new device = record {
  device = device;
  features_select = 0;
  acked_features_select = 0;
  queue_select = 0;
  device_status = device_status_init;
  config_generation = 0;
  interrupt_status = 0;
  memory = none;
  irq_evt = false;
  irq_deassert = false;
  triggers = 0;
  deasserts = 0;
}

module _ {D M : Type 0} (ops : VirtioDevice D M) where
  abbrev T : Type 0
  T = MmioTransport D M

  unfoldable pub trigger_interrupt : T → ℕ → T
  trigger_interrupt t flags = record t { interrupt_status = bit_or t.interrupt_status flags }

  -- The interrupt after a queue had requests.
  unfoldable pub signal : T → T
  signal t = record t {
    interrupt_status = bit_or t.interrupt_status virtio_mmio_int_vring;
    triggers = if t.irq_evt then t.triggers + 1 else t.triggers;
  }

  -- What the transport does with the result of `process_queue`.
  unfoldable pub delivered : T → D × Option Bool → T × Bool
  delivered t (device, some true) = (signal (record t { device = device }), true)
  delivered t (device, some false) = (record t { device = device }, false)
  delivered t (device, none) = (record t { device = device }, false)

  unfoldable pub process_activated : T → ℕ → Option M → T × Bool
  process_activated t queue_idx none = (t, false)
  process_activated t queue_idx (some memory) =
      if ops.is_activated t.device
      then delivered t (ops.process_queue queue_idx memory t.device)
      else (t, false)

  unfoldable pub process_external_queue : T → ℕ → T × Bool
  process_external_queue t queue_idx = process_activated t queue_idx t.memory

  unfoldable pub check_status : T → ℕ → ℕ → Bool
  check_status t required forbidden =
      bit_and t.device_status (bit_or required forbidden) == required

  unfoldable pub with_queue : T → (VirtQueue → ℕ) → ℕ
  with_queue t f = elim (get_elem? (ops.queues t.device) t.queue_select) [ none ↦ 0 | some q ↦ f q ]

  unfoldable pub update_selected : T → (VirtQueue → VirtQueue) → Option VirtQueue → T
  update_selected t f none = t
  update_selected t f (some q) = record t {
    device = ops.set_queues (set (ops.queues t.device) t.queue_select (f q)) t.device;
  }

  unfoldable pub update_queue_field : T → (VirtQueue → VirtQueue) → T
  update_queue_field t f =
      if check_status t device_status_features_ok
        (bit_or device_status_driver_ok device_status_failed)
      then update_selected t f (get_elem? (ops.queues t.device) t.queue_select)
      else t

  unfoldable pub reset : T → T
  reset t =
      let device = ops.reset t.device in
      record t {
        device = ops.set_queues (map reset_queue (ops.queues device)) device;
        features_select = 0;
        acked_features_select = 0;
        queue_select = 0;
        device_status = device_status_init;
        interrupt_status = 0;
      }

  -- What follows the call of `activate`: a failure sets FAILED, and a vsock device has its first queue
  -- drained.
  unfoldable pub activated : T → D × Bool → T
  activated t (device, false) = record t {
    device = device;
    device_status = bit_or t.device_status device_status_failed;
  }
  activated t (device, true) =
      if type_code (ops.device_type t.device) == 19
      then (process_external_queue (record t { device = device }) 0).0
      else record t { device = device }

  unfoldable pub drive_ok : T → T
  drive_ok t = if ops.is_activated t.device then t else activated t (ops.activate t.device)

  unfoldable pub transition : T → ℕ → ℕ → T
  transition t status changed =
      if changed == device_status_acknowledge && t.device_status == device_status_init
      then record t { device_status = status }
      else (if changed == device_status_driver && t.device_status == device_status_acknowledge
          then record t { device_status = status }
          else (if changed == device_status_features_ok && t.device_status == 3
              then record t { device_status = status }
              else (if changed == device_status_driver_ok && t.device_status == 11
                  then drive_ok (record t { device_status = status })
                  else t)))

  unfoldable pub set_device_status : T → ℕ → T
  set_device_status t status =
      if status == 0
      then reset t
      else (if not (bit_and status device_status_failed == 0)
          then record t { device_status = bit_or t.device_status device_status_failed }
          else transition t status (bit_and (not_u32 t.device_status) status))
