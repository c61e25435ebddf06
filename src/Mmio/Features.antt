-- ===== src/Mmio/Features.antt =====
-- The negotiation of features through the registers of transport/mmio.rs.
use visor.Prelude.{
  ℕ, ◌-◌, ◌≡◌, refl, ap, ◌∙◌, bit_and, bit_or, Bool, true, false, List, map, Option, none, some,
  get_elem?, set, ◌==◌, if_both, arith,
}
use visor.Prelude.BitSets.{IsSubset, or-IsSubset, and-IsSubset, IsSubset-trans}
use visor.Prelude.Bytes.{from_le_bytes}
use visor.Virtio.{VirtioDevice, VirtQueue, reset_queue, type_code}
use visor.Mmio.Device.{LawfulDevice}
use visor.Mmio.{
  MmioTransport, write, write_register, write_driver_features, ack_features, queue_notify,
  interrupt_ack, write_address, update_queue_field, update_selected, set_device_status, transition,
  drive_ok, activated, process_external_queue, process_activated, delivered, signal, reset,
  check_status, shl_32,
}

module _ {D M : Type 0} (ops : VirtioDevice D M) (law : LawfulDevice ops) where
  -- The acknowledged features are among the offered ones.
  abbrev pub IsOffered : D → Type 0
  IsOffered d = IsSubset (ops.acked_features d) (ops.avail_features d)

  moved :
      (d e : D)
      → IsOffered d
      → ops.acked_features e ≡ ops.acked_features d
      → ops.avail_features e ≡ ops.avail_features d
      → IsOffered e
  moved d e h a v = rw (a, v) h

  set_queues-IsOffered :
      (qs : List VirtQueue) (d : D) → IsOffered d → IsOffered (ops.set_queues qs d)
  set_queues-IsOffered qs d h = moved d _ h (law.acked-set_queues qs d) (law.avail-set_queues qs d)

  ack-IsOffered :
      (t : MmioTransport D M) (page : ℕ)
      → IsOffered t.device
      → IsOffered (ack_features ops t page).device
  unfolding ack_features
  ack-IsOffered t page h =
      let avail = ops.avail_features t.device in
      let acked = ops.acked_features t.device in
      let subset = or-IsSubset acked (bit_and page avail) avail h (and-IsSubset page avail) in
      let now = bit_or acked (bit_and page avail) in
      rw (law.acked-set_acked now t.device subset, law.avail-set_acked now t.device) subset

  selected-IsOffered :
      (t : MmioTransport D M) (f : VirtQueue → VirtQueue) (q : Option VirtQueue)
      → IsOffered t.device
      → IsOffered (update_selected ops t f q).device
  unfolding update_selected
  selected-IsOffered t f none h = h
  selected-IsOffered t f (some q) h =
      set_queues-IsOffered (set (ops.queues t.device) t.queue_select (f q)) t.device h

  update-IsOffered :
      (t : MmioTransport D M) (f : VirtQueue → VirtQueue)
      → IsOffered t.device
      → IsOffered (update_queue_field ops t f).device
  unfolding update_queue_field
  update-IsOffered t f h =
      if_both (λ (u : MmioTransport D M). IsOffered u.device) (check_status ops t 8 132)
        (selected-IsOffered t f (get_elem? (ops.queues t.device) t.queue_select) h) h

  delivered_device :
      (t : MmioTransport D M) (p : D × Option Bool) → (delivered ops t p).0.device ≡ p.0
  unfolding delivered signal
  delivered_device t (device, none) = refl
  delivered_device t (device, some false) = refl
  delivered_device t (device, some true) = refl

  delivered-IsOffered :
      (t : MmioTransport D M) (i : ℕ) (m : M)
      → IsOffered t.device
      → IsOffered (delivered ops t (ops.process_queue i m t.device)).0.device
  delivered-IsOffered t i m h =
      moved t.device _ h
        (ap ops.acked_features (delivered_device t (ops.process_queue i m t.device))
          ∙ law.acked-process_queue i m t.device)
        (ap ops.avail_features (delivered_device t (ops.process_queue i m t.device))
          ∙ law.avail-process_queue i m t.device)

  process-IsOffered :
      (t : MmioTransport D M) (i : ℕ) (m : Option M)
      → IsOffered t.device
      → IsOffered (process_activated ops t i m).0.device
  unfolding process_activated
  process-IsOffered t i none h = h
  process-IsOffered t i (some m) h =
      if_both (λ (u : MmioTransport D M × Bool). IsOffered u.0.device) (ops.is_activated t.device)
        (delivered-IsOffered t i m h) h

  notify-IsOffered :
      (t : MmioTransport D M) (i : ℕ) (m : Option M)
      → IsOffered t.device
      → IsOffered (queue_notify ops t i m).device
  unfolding queue_notify
  notify-IsOffered t i none h = h
  notify-IsOffered t i (some m) h = delivered-IsOffered t i m h

  reset-IsOffered : (t : MmioTransport D M) → IsOffered t.device → IsOffered (reset ops t).device
  unfolding reset
  reset-IsOffered t h =
      let kept : IsSubset (ops.acked_features t.device) (ops.avail_features (ops.reset t.device)) =
        rw (law.avail-reset t.device) h in
      set_queues-IsOffered (map reset_queue (ops.queues (ops.reset t.device))) (ops.reset t.device)
        (IsSubset-trans _ _ _ (law.acked-reset t.device) kept)

  activated-IsOffered :
      (t : MmioTransport D M) (p : D × Bool) → IsOffered p.0 → IsOffered (activated ops t p).device
  unfolding activated process_external_queue
  activated-IsOffered t (device, false) h = h
  activated-IsOffered t (device, true) h =
      if_both (λ (u : MmioTransport D M). IsOffered u.device)
        (type_code (ops.device_type t.device) == 19)
        (process-IsOffered (record t { device = device }) 0 t.memory h) h

  drive_ok-IsOffered :
      (t : MmioTransport D M) → IsOffered t.device → IsOffered (drive_ok ops t).device
  unfolding drive_ok
  drive_ok-IsOffered t h =
      if_both (λ (u : MmioTransport D M). IsOffered u.device) (ops.is_activated t.device) h
        (activated-IsOffered t (ops.activate t.device)
          (moved t.device _ h (law.acked-activate t.device) (law.avail-activate t.device)))

  status-IsOffered :
      (t : MmioTransport D M) (status : ℕ)
      → IsOffered t.device
      → IsOffered (set_device_status ops t status).device
  unfolding set_device_status transition
  status-IsOffered t status h =
      ground
        (arith, reset-IsOffered t h, drive_ok-IsOffered (record t { device_status = status }) h)

  driver_features-IsOffered :
      (t : MmioTransport D M) (value : ℕ)
      → IsOffered t.device
      → IsOffered (write_driver_features ops t value).device
  unfolding write_driver_features
  driver_features-IsOffered t value h =
      ground (arith, ack-IsOffered t value h, ack-IsOffered t (shl_32 value) h)

  address-IsOffered :
      (t : MmioTransport D M) (offset value : ℕ)
      → IsOffered t.device
      → IsOffered (write_address ops t offset value).device
  unfolding write_address
  address-IsOffered t offset value h =
      let all = λ (f : VirtQueue → VirtQueue). update-IsOffered t f h in
      let P = λ (u : MmioTransport D M). IsOffered u.device in
      if_both P (offset == 0x80) (all _) (
        if_both P (offset == 0x84) (all _) (
          if_both P (offset == 0x90) (all _) (
            if_both P (offset == 0x94) (all _)
              (if_both P (offset == 0xA0) (all _) (if_both P (offset == 0xA4) (all _) h)))))

  register-IsOffered :
      (t : MmioTransport D M) (offset value : ℕ)
      → IsOffered t.device
      → IsOffered (write_register ops t offset value).device
  unfolding write_register interrupt_ack
  register-IsOffered t offset value h = ground (
    arith,
    driver_features-IsOffered t value h,
    update-IsOffered t (λ q. record q { size = bit_and value 0xFFFF }) h,
    update-IsOffered t (λ q. record q { ready = value == 1 }) h,
    notify-IsOffered t value t.memory h,
    status-IsOffered t value h,
    address-IsOffered t offset value h,
  )

  -- The driver never gets a feature that the device does not offer: whatever bytes are written wherever,
  -- acknowledged features that are among the offered ones stay so.
  pub write-IsOffered :
      (t : MmioTransport D M) (offset : ℕ) (bytes : List ℕ)
      → IsOffered t.device
      → IsOffered (write ops t offset bytes).device
  unfolding write
  write-IsOffered t offset bytes h = ground (
    arith,
    register-IsOffered t offset (from_le_bytes bytes) h,
    moved t.device (ops.write_config (offset - 0x100) bytes t.device) h
        (law.acked-write_config (offset - 0x100) bytes t.device)
        (law.avail-write_config (offset - 0x100) bytes t.device),
  )
