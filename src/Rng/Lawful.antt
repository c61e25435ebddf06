-- ===== src/Rng/Lawful.antt =====
-- The entropy device of rng.rs as a device of the MMIO transport.
use visor.Prelude.{ℕ, ◌≡◌, refl, Option-cases, inl, inr, get_elem?}
use visor.Prelude.BitSets.{IsSubset-refl}
use visor.Memory.{GuestMemory}
use visor.Mmio.Device.{LawfulDevice}
use visor.Rng.{RngDevice, device_process_queue, rng_device}

acked-device_process_queue :
    (i : ℕ) (m : GuestMemory) (d : RngDevice)
    → (device_process_queue i m d).0.acked_features ≡ d.acked_features
unfolding device_process_queue
acked-device_process_queue i m d = elim (Option-cases (get_elem? d.queues i)) [
  | inl e ↦ rw (device_process_queue, e) refl
  | inr (q, e) ↦ rw (device_process_queue, e) refl
]

avail-device_process_queue :
    (i : ℕ) (m : GuestMemory) (d : RngDevice)
    → (device_process_queue i m d).0.avail_features ≡ d.avail_features
unfolding device_process_queue
avail-device_process_queue i m d = elim (Option-cases (get_elem? d.queues i)) [
  | inl e ↦ rw (device_process_queue, e) refl
  | inr (q, e) ↦ rw (device_process_queue, e) refl
]

-- The entropy device keeps the laws that the MMIO transport relies on: neither its configuration space nor
-- its queues, its activation or its reset add features or change the offered ones.
pub rng_device-LawfulDevice : LawfulDevice rng_device
unfolding rng_device
rng_device-LawfulDevice = record {
  acked-set_acked = λ f d h. refl;
  avail-set_acked = λ f d. refl;
  queues-set_acked = λ f d. refl;
  queues-set_queues = λ qs d h. refl;
  acked-set_queues = λ qs d. refl;
  avail-set_queues = λ qs d. refl;
  acked-write_config = λ o bytes d. refl;
  avail-write_config = λ o bytes d. refl;
  acked-activate = λ d. refl;
  avail-activate = λ d. refl;
  acked-process_queue = λ i m d. acked-device_process_queue i m d;
  avail-process_queue = λ i m d. avail-device_process_queue i m d;
  acked-reset = λ d. IsSubset-refl d.acked_features;
  avail-reset = λ d. refl;
}
