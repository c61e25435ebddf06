-- ===== src/Mmio/Queues.antt =====
-- The configuration of the queues through the registers of transport/mmio.rs.
use visor.Prelude.{
  ℕ, zero, suc, [], ◌∷◌, ◌+◌, ◌*◌, ◌/◌, ◌%◌, ◌^◌, ◌<◌, ◌≡◌, ◌≢◌, refl, sym, ap, ◌∙◌, bit_and,
  bit_or, true, false, List, some, get_elem?, set, length, length-set, get_elem?-set_self, ◌==◌,
  if_both, arith,
}
use native.Mathlib.Nat.{mod-eq_of_lt}
use visor.Prelude.Bits.{and_high_mask, and_low_mask}
use visor.Prelude.BitSets.{or_comm, or_low_high}
use visor.Virtio.{VirtioDevice, VirtQueue}
use visor.Mmio.Device.{LawfulDevice}
use visor.Mmio.{
  MmioTransport, write_register, write_driver_features, ack_features, interrupt_ack, write_address,
  update_queue_field, update_selected, check_status, shl_32, not_u64,
}

low_half :
    (a low : ℕ)
    → a < 2 ^ 64
    → low < 2 ^ 32
    → bit_or (bit_and a (not_u64 0xFFFFFFFF)) low ≡ low + a / 2 ^ 32 * 2 ^ 32
low_half a low h k =
    ap (λ (t : ℕ). bit_or t low) (and_high_mask 32 32 64 a refl h)
    ∙ or_comm (a / 2 ^ 32 * 2 ^ 32) low
    ∙ or_low_high 32 low (a / 2 ^ 32) k

high_half :
    (a high : ℕ)
    → high < 2 ^ 32
    → bit_or (bit_and a 0xFFFFFFFF) (shl_32 high) ≡ a % 2 ^ 32 + high * 2 ^ 32
high_half a high h =
    let fits : shl_32 high ≡ high * 2 ^ 32 = mod-eq_of_lt (omega arith) in
    ap (λ (t : ℕ). bit_or t (shl_32 high)) (and_low_mask 32 a)
    ∙ ap (λ (t : ℕ). bit_or (a % 2 ^ 32) t) fits
    ∙ or_low_high 32 (a % 2 ^ 32) high (omega arith)

-- The low and then the high half give the whole address, whatever was there.
both_halves :
    (a low high : ℕ)
    → a < 2 ^ 64
    → low < 2 ^ 32
    → high < 2 ^ 32
    → bit_or (bit_and (bit_or (bit_and a (not_u64 0xFFFFFFFF)) low) 0xFFFFFFFF) (shl_32 high)
      ≡ low + high * 2 ^ 32
both_halves a low high h k l =
    high_half (bit_or (bit_and a (not_u64 0xFFFFFFFF)) low) high l
    ∙ omega (arith, low_half a low h k)

get_elem?-lt :
    (qs : List VirtQueue) (i : ℕ) (q : VirtQueue) → get_elem? qs i ≡ some q → i < length qs
get_elem?-lt [] i q e = grind arith
get_elem?-lt (x ∷ qs) zero q e = omega arith
get_elem?-lt (x ∷ qs) (suc i) q e = omega (arith, get_elem?-lt qs i q e)

module _ {D M : Type 0} (ops : VirtioDevice D M) (law : LawfulDevice ops) where
  -- The selected queue is `q`, and the driver may set it up.
  pub record Configures (t : MmioTransport D M) (q : VirtQueue) : Type 0 where
    pub selected : get_elem? (ops.queues t.device) t.queue_select ≡ some q
    pub allowed : check_status ops t 8 132 ≡ true

  -- The driver writes registers one after the other.
  unfoldable pub write_all : List (ℕ × ℕ) → MmioTransport D M → MmioTransport D M
  write_all [] t = t
  write_all ((offset, value) ∷ rest) t = write_all rest (write_register ops t offset value)

  update_refused :
      (t : MmioTransport D M) (f : VirtQueue → VirtQueue)
      → check_status ops t 8 132 ≡ false
      → update_queue_field ops t f ≡ t
  unfolding update_queue_field
  update_refused t f e = rw e refl

  update_lem :
      (t : MmioTransport D M) (q : VirtQueue) (f : VirtQueue → VirtQueue)
      → Configures t q
      → update_queue_field ops t f ≡ (record t {
        device = ops.set_queues (set (ops.queues t.device) t.queue_select (f q)) t.device;
      })
  unfolding update_queue_field update_selected
  update_lem t q f c = rw (c.allowed, c.selected) refl

  update-Configures :
      (t : MmioTransport D M) (q : VirtQueue) (f : VirtQueue → VirtQueue)
      → Configures t q
      → Configures (update_queue_field ops t f) (f q)
  unfolding check_status
  update-Configures t q f c =
      let qs = ops.queues t.device in
      let now = set qs t.queue_select (f q) in
      rw (update_lem t q f c) (record {
        selected =
            ap (λ (l : List VirtQueue). get_elem? l t.queue_select)
              (law.queues-set_queues now t.device (length-set qs t.queue_select (f q)))
            ∙ get_elem?-set_self qs t.queue_select (f q)
                (get_elem?-lt qs t.queue_select q c.selected);
        allowed = c.allowed;
      })

  update_frozen :
      (t : MmioTransport D M) (f : VirtQueue → VirtQueue)
      → check_status ops t 8 132 ≡ false
      → ops.queues (update_queue_field ops t f).device ≡ ops.queues t.device
  update_frozen t f e = ap (λ (u : MmioTransport D M). ops.queues u.device) (update_refused t f e)

  address_frozen :
      (t : MmioTransport D M) (offset value : ℕ)
      → check_status ops t 8 132 ≡ false
      → ops.queues (write_address ops t offset value).device ≡ ops.queues t.device
  unfolding write_address
  address_frozen t offset value e =
      let P = λ (u : MmioTransport D M). ops.queues u.device ≡ ops.queues t.device in
      let all = λ (f : VirtQueue → VirtQueue). update_frozen t f e in
      if_both P (offset == 0x80) (all _) (
        if_both P (offset == 0x84) (all _) (
          if_both P (offset == 0x90) (all _) (
            if_both P (offset == 0x94) (all _)
              (if_both P (offset == 0xA0) (all _) (if_both P (offset == 0xA4) (all _) refl)))))

  features_frozen :
      (t : MmioTransport D M) (value : ℕ)
      → ops.queues (write_driver_features ops t value).device ≡ ops.queues t.device
  unfolding write_driver_features ack_features
  features_frozen t value =
      let P = λ (u : MmioTransport D M). ops.queues u.device ≡ ops.queues t.device in
      if_both P (t.acked_features_select == 0) (law.queues-set_acked _ t.device)
        (if_both P (t.acked_features_select == 1) (law.queues-set_acked _ t.device) refl)

  -- Unless the driver is between FEATURES_OK and DRIVER_OK and has not failed, no register changes the
  -- queues, but the one that notifies the device and the one that sets the status.
  pub frozen_queues :
      (t : MmioTransport D M) (offset value : ℕ)
      → check_status ops t 8 132 ≡ false
      → offset ≢ 0x50
      → offset ≢ 0x70
      → ops.queues (write_register ops t offset value).device ≡ ops.queues t.device
  unfolding write_register interrupt_ack
  frozen_queues t offset value e n m = ground (
    arith,
    features_frozen t value,
    update_frozen t (λ q. record q { size = bit_and value 0xFFFF }) e,
    update_frozen t (λ q. record q { ready = value == 1 }) e,
    address_frozen t offset value e,
  )

  -- The driver writes the two halves of each of the three addresses of the selected queue, the low one first:
  -- the queue then has exactly these addresses, whatever it had before, and can still be set up.
  pub write_address-halves :
      (t : MmioTransport D M) (q : VirtQueue)
      (desc_low desc_high avail_low avail_high used_low used_high : ℕ)
      → Configures t q
      → q.desc_table_addr < 2 ^ 64
      → q.avail_ring_addr < 2 ^ 64
      → q.used_ring_addr < 2 ^ 64
      → desc_low < 2 ^ 32
      → desc_high < 2 ^ 32
      → avail_low < 2 ^ 32
      → avail_high < 2 ^ 32
      → used_low < 2 ^ 32
      → used_high < 2 ^ 32
      → Configures
          (write_all
            ((0x80, desc_low)
              ∷ (0x84, desc_high)
              ∷ (0x90, avail_low)
              ∷ (0x94, avail_high)
              ∷ (0xA0, used_low)
              ∷ (0xA4, used_high)
              ∷ [])
            t)
          (record q {
            desc_table_addr = desc_low + desc_high * 2 ^ 32;
            avail_ring_addr = avail_low + avail_high * 2 ^ 32;
            used_ring_addr = used_low + used_high * 2 ^ 32;
          })
  unfolding write_register write_address write_all
  write_address-halves t q dl dh al ah ul uh c d a u k1 k2 k3 k4 k5 k6 =
      rw
        (
          sym (both_halves q.desc_table_addr dl dh d k1 k2),
          sym (both_halves q.avail_ring_addr al ah a k3 k4),
          sym (both_halves q.used_ring_addr ul uh u k5 k6),
        )
        (update-Configures _ _ _ (
          update-Configures _ _ _ (
            update-Configures _ _ _
              (update-Configures _ _ _ (update-Configures _ _ _ (update-Configures t q _ c))))))
