-- ===== src/Mmio/Device.antt =====
-- What the transport of transport/mmio.rs relies on in a device: the accessors of the features and of the
-- queues are independent of each other, and only an acknowledgement adds features.
use visor.Prelude.{ℕ, ◌≡◌, length, List}
use visor.Prelude.BitSets.{IsSubset}
use visor.Virtio.{VirtioDevice, VirtQueue}

pub record LawfulDevice {D M : Type 0} (ops : VirtioDevice D M) : Type 0 where
  pub acked-set_acked :
      (f : ℕ) (d : D)
      → IsSubset f (ops.avail_features d)
      → ops.acked_features (ops.set_acked_features f d) ≡ f
  pub avail-set_acked :
      (f : ℕ) (d : D) → ops.avail_features (ops.set_acked_features f d) ≡ ops.avail_features d
  pub queues-set_acked : (f : ℕ) (d : D) → ops.queues (ops.set_acked_features f d) ≡ ops.queues d
  pub queues-set_queues :
      (qs : List VirtQueue) (d : D)
      → length qs ≡ length (ops.queues d)
      → ops.queues (ops.set_queues qs d) ≡ qs
  pub acked-set_queues :
      (qs : List VirtQueue) (d : D)
      → ops.acked_features (ops.set_queues qs d) ≡ ops.acked_features d
  pub avail-set_queues :
      (qs : List VirtQueue) (d : D)
      → ops.avail_features (ops.set_queues qs d) ≡ ops.avail_features d
  pub acked-write_config :
      (o : ℕ) (bytes : List ℕ) (d : D)
      → ops.acked_features (ops.write_config o bytes d) ≡ ops.acked_features d
  pub avail-write_config :
      (o : ℕ) (bytes : List ℕ) (d : D)
      → ops.avail_features (ops.write_config o bytes d) ≡ ops.avail_features d
  pub acked-activate : (d : D) → ops.acked_features (ops.activate d).0 ≡ ops.acked_features d
  pub avail-activate : (d : D) → ops.avail_features (ops.activate d).0 ≡ ops.avail_features d
  pub acked-process_queue :
      (i : ℕ) (m : M) (d : D)
      → ops.acked_features (ops.process_queue i m d).0 ≡ ops.acked_features d
  pub avail-process_queue :
      (i : ℕ) (m : M) (d : D)
      → ops.avail_features (ops.process_queue i m d).0 ≡ ops.avail_features d
  pub acked-reset : (d : D) → IsSubset (ops.acked_features (ops.reset d)) (ops.acked_features d)
  pub avail-reset : (d : D) → ops.avail_features (ops.reset d) ≡ ops.avail_features d
