-- ===== src/Mmio.antt =====
-- crates/visor-vmm/src/transport/mmio.rs: the virtio MMIO transport over a device of the `VirtioDevice`
-- trait. The device is a state of type `D` with the trait's operations; guest memory is
-- a value of type `M` that is handed on to it. The device's mutex is not poisoned. Events for the
-- interrupt line are counted.
mod Transport
pub mod Device
pub mod Features
pub mod Queues
pub mod Status
mod Tests
unfoldable pub use Transport.*
use visor.Prelude.{
  ℕ, ◌-◌, ◌*◌, ◌/◌, ◌%◌, ◌^◌, ◌+◌, bit_and, bit_or, ◌&&◌, List, Option, none, some, length, leb,
  ◌==◌, if◌then◌else◌,
}
use visor.Prelude.Bytes.{not_u32, to_le_bytes, from_le_bytes}
use visor.Virtio.{
  mmio_magic, mmio_version, vendor_id, device_status_driver, device_status_features_ok,
  device_status_driver_ok, type_code, VirtioDevice,
}

-- `!x` on a u64.
abbrev pub not_u64 : ℕ → ℕ
not_u64 x = 0xFFFFFFFFFFFFFFFF - x

-- `u64::from(value) << 32` on a u64.
abbrev pub shl_32 : ℕ → ℕ
shl_32 value = value * 2 ^ 32 % 2 ^ 64

module _ {D M : Type 0} (ops : VirtioDevice D M) where
  abbrev T : Type 0
  T = MmioTransport D M

  unfoldable pub features_page : ℕ → ℕ → ℕ
  features_page select features =
      if select == 0
      then bit_and features 0xFFFFFFFF
      else (if select == 1 then features / 2 ^ 32 else 0)

  unfoldable pub read_register : T → ℕ → ℕ
  read_register t offset =
      if offset == 0x00
      then mmio_magic
      else (if offset == 0x04
          then mmio_version
          else (if offset == 0x08
              then type_code (ops.device_type t.device)
              else (if offset == 0x0C
                  then vendor_id
                  else (if offset == 0x10
                      then features_page t.features_select (ops.avail_features t.device)
                      else (if offset == 0x34
                          then with_queue ops t (λ q. q.max_size)
                          else (if offset == 0x44
                              then with_queue ops t (λ q. if q.ready then 1 else 0)
                              else (if offset == 0x60
                                  then t.interrupt_status
                                  else (if offset == 0x70
                                      then t.device_status
                                      else (if offset == 0xFC
                                          then t.config_generation
                                          else 0)))))))))

  -- The driver's features, taken from the page that is selected.
  unfoldable pub ack_features : T → ℕ → T
  ack_features t page_features =
      let new_acked =
        bit_or (ops.acked_features t.device)
          (bit_and page_features (ops.avail_features t.device)) in
      record t { device = ops.set_acked_features new_acked t.device }

  unfoldable pub write_driver_features : T → ℕ → T
  write_driver_features t value =
      if t.acked_features_select == 0
      then ack_features t value
      else (if t.acked_features_select == 1 then ack_features t (shl_32 value) else t)

  unfoldable pub queue_notify : T → ℕ → Option M → T
  queue_notify t value none = t
  queue_notify t value (some memory) = (delivered ops t (ops.process_queue value memory t.device)).0

  unfoldable pub interrupt_ack : T → ℕ → T
  interrupt_ack t value =
      let left = bit_and t.interrupt_status (not_u32 value) in
      record t {
        interrupt_status = left;
        deasserts = if t.irq_deassert && left == 0 then t.deasserts + 1 else t.deasserts;
      }

  unfoldable pub write_address : T → ℕ → ℕ → T
  write_address t offset value =
      let low = λ (addr : ℕ). bit_or (bit_and addr (not_u64 0xFFFFFFFF)) value in
      let high = λ (addr : ℕ). bit_or (bit_and addr 0xFFFFFFFF) (shl_32 value) in
      if offset == 0x80
      then update_queue_field ops t (λ q. record q { desc_table_addr = low q.desc_table_addr })
      else (if offset == 0x84
          then update_queue_field ops t (λ q. record q { desc_table_addr = high q.desc_table_addr })
          else (if offset == 0x90
              then update_queue_field ops t
                  (λ q. record q { avail_ring_addr = low q.avail_ring_addr })
              else (if offset == 0x94
                  then update_queue_field ops t
                      (λ q. record q { avail_ring_addr = high q.avail_ring_addr })
                  else (if offset == 0xA0
                      then update_queue_field ops t
                          (λ q. record q { used_ring_addr = low q.used_ring_addr })
                      else (if offset == 0xA4
                          then update_queue_field ops t
                              (λ q. record q { used_ring_addr = high q.used_ring_addr })
                          else t)))))

  unfoldable pub write_register : T → ℕ → ℕ → T
  write_register t offset value =
      if offset == 0x14
      then record t { features_select = value }
      else (if offset == 0x20
          then (if check_status ops t device_status_driver device_status_features_ok
              then write_driver_features t value
              else t)
          else (if offset == 0x24
              then record t { acked_features_select = value }
              else (if offset == 0x30
                  then record t { queue_select = value }
                  else (if offset == 0x38
                      then update_queue_field ops t (λ q. record q { size = bit_and value 0xFFFF })
                      else (if offset == 0x44
                          then update_queue_field ops t (λ q. record q { ready = value == 1 })
                          else (if offset == 0x50
                              then queue_notify t value t.memory
                              else (if offset == 0x64
                                  then (if check_status ops t device_status_driver_ok 0
                                      then interrupt_ack t value
                                      else t)
                                  else (if offset == 0x70
                                      then set_device_status ops t value
                                      else write_address t offset value))))))))

  -- `BusDevice::read`: the bytes that the buffer holds afterwards.
  unfoldable pub read : T → ℕ → List ℕ → List ℕ
  read t offset bytes =
      if leb offset 0xFF && length bytes == 4
      then to_le_bytes (read_register t offset)
      else (if leb 0x100 offset && leb offset 0xFFF
          then ops.read_config t.device (offset - 0x100) bytes
          else bytes)

  unfoldable pub write : T → ℕ → List ℕ → T
  write t offset bytes =
      if leb offset 0xFF && length bytes == 4
      then write_register t offset (from_le_bytes bytes)
      else (if leb 0x100 offset && leb offset 0xFFF
          then record t { device = ops.write_config (offset - 0x100) bytes t.device }
          else t)
