-- ===== src/Mmio/Status.antt =====
-- The device status, the reset and the interrupt acknowledgement of transport/mmio.rs.
use visor.Prelude.{
  ℕ, ◌+◌, ◌^◌, ◌<◌, ◌≡◌, ◌≢◌, ◌⊎◌, inl, inr, refl, ◌∙◌, bit_and, bit_or, Bool, true, false, not,
  ◌&&◌, Option, none, some, ◌==◌, if◌then◌else◌, if_both, if_cases, Bool-cases, arith,
}
use visor.Prelude.BitSets.{IsSubset, and_split, and_comm}
use visor.Prelude.Bytes.{not_u32}
use visor.Virtio.{VirtioDevice, type_code}
use visor.Mmio.{
  MmioTransport, write_register, set_device_status, transition, drive_ok, activated,
  process_external_queue, process_activated, delivered, signal, interrupt_ack, check_status,
}

-- The transitions that the comment of `set_device_status` lists, and the failed activation.
pub data Next : ℕ → ℕ → Type 0 where
  acknowledge : Next 0 1
  driver : Next 1 3
  features_ok : Next 3 11
  driver_ok : Next 11 15
  activation_failed : Next 11 143

arrive : (from to a b : ℕ) → from ≡ a → to ≡ b → Next a b → Next from to
arrive from to a b e f s = rw (e, f) s

drive : (from to : ℕ) → from ≡ 11 → (to ≡ 15) ⊎ (to ≡ 143) → Next from to
drive from to e (inl f) = arrive from to 11 15 e f driver_ok
drive from to e (inr f) = arrive from to 11 143 e f activation_failed

module _ {D M : Type 0} (ops : VirtioDevice D M) where
  delivered_status :
      (t : MmioTransport D M) (p : D × Option Bool)
      → (delivered ops t p).0.device_status ≡ t.device_status
  unfolding delivered signal
  delivered_status t (device, none) = refl
  delivered_status t (device, some false) = refl
  delivered_status t (device, some true) = refl

  process_status :
      (t : MmioTransport D M) (i : ℕ) (m : Option M)
      → (process_activated ops t i m).0.device_status ≡ t.device_status
  unfolding process_activated
  process_status t i none = refl
  process_status t i (some m) =
      if_both (λ (u : MmioTransport D M × Bool). u.0.device_status ≡ t.device_status)
        (ops.is_activated t.device) (delivered_status t (ops.process_queue i m t.device)) refl

  activated_status :
      (t : MmioTransport D M) (p : D × Bool)
      → (activated ops t p).device_status
        ≡ (if p.1 then t.device_status else bit_or t.device_status 128)
  unfolding activated process_external_queue
  activated_status t (device, false) = refl
  activated_status t (device, true) =
      if_both (λ (u : MmioTransport D M). u.device_status ≡ t.device_status)
        (type_code (ops.device_type t.device) == 19)
        (process_status (record t { device = device }) 0 t.memory) refl

  drive_ok_status :
      (t : MmioTransport D M)
      → t.device_status ≡ 15
      → ((drive_ok ops t).device_status ≡ 15) ⊎ ((drive_ok ops t).device_status ≡ 143)
  unfolding drive_ok
  drive_ok_status t e =
      if_cases (λ (u : MmioTransport D M). (u.device_status ≡ 15) ⊎ (u.device_status ≡ 143))
        (ops.is_activated t.device) (λ on. inl e)
        (λ off. elim (Bool-cases (ops.activate t.device).1) [
          | inl good ↦ inl (activated_status t (ops.activate t.device) ∙ rw good e)
          | inr bad ↦ inr (activated_status t (ops.activate t.device) ∙ rw (bad, e) refl)
        ])

  -- A driver that only ever adds bits to the status it reads, and neither fails nor resets the device,
  -- moves it along the listed transitions: each write leaves the status, or makes one of these steps.
  pub set_device_status-Next :
      (t : MmioTransport D M) (status : ℕ)
      → t.device_status < 2 ^ 32
      → status < 2 ^ 32
      → IsSubset t.device_status status
      → bit_and status 128 ≡ 0
      → status ≢ 0
      → ((set_device_status ops t status).device_status ≡ t.device_status)
        ⊎ Next t.device_status (set_device_status ops t status).device_status
  unfolding set_device_status transition
  set_device_status-Next t status h k sub ok n =
      let P = λ (u : MmioTransport D M).
        (u.device_status ≡ t.device_status) ⊎ Next t.device_status u.device_status in
      let bits = bit_and (not_u32 t.device_status) status in
      let sum = and_split 32 t.device_status status h k in
      if_cases P (status == 0) (λ e. absurd (ground (arith, n)))
        (λ e0.
          if_cases P (not (bit_and status 128 == 0)) (λ e. absurd (ground (arith, n)))
            (λ e1.
              if_cases P (bits == 1 && t.device_status == 0)
                (λ e. inr (
                  arrive t.device_status status 0 1 (ground arith) (ground (arith, sum, sub))
                    acknowledge))
                (λ e2.
                  if_cases P (bits == 2 && t.device_status == 1)
                    (λ e. inr (
                      arrive t.device_status status 1 3 (ground arith) (ground (arith, sum, sub))
                        driver))
                    (λ e3.
                      if_cases P (bits == 8 && t.device_status == 3)
                        (λ e. inr (
                          arrive t.device_status status 3 11 (ground arith)
                            (ground (arith, sum, sub)) features_ok))
                        (λ e4.
                          if_cases P (bits == 4 && t.device_status == 11)
                            (λ e. inr (
                              drive t.device_status
                                (drive_ok ops (record t { device_status = status })).device_status
                                (ground arith)
                                (drive_ok_status (record t { device_status = status })
                                  (ground (arith, sum, sub)))))
                            (λ e5. inl refl))))))

  -- Acknowledging `value` clears the bits of `value` that were pending and keeps the others, and the line is
  -- released exactly if none is left.
  pub interrupt_ack_lem :
      (t : MmioTransport D M) (value : ℕ)
      → value < 2 ^ 32
      → t.interrupt_status < 2 ^ 32
      → check_status ops t 4 0 ≡ true
      → ((write_register ops t 0x64 value).interrupt_status + bit_and value t.interrupt_status
          ≡ t.interrupt_status)
        × ((write_register ops t 0x64 value).deasserts ≡ (
            if t.irq_deassert && (write_register ops t 0x64 value).interrupt_status == 0
            then t.deasserts + 1
            else t.deasserts))
  unfolding write_register interrupt_ack
  interrupt_ack_lem t value h k e = rw e (
    omega (
      arith,
      and_split 32 value t.interrupt_status h k,
      and_comm t.interrupt_status (not_u32 value),
    ),
    refl,
  )
