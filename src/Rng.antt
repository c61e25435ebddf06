-- ===== src/Rng.antt =====
-- crates/visor-vmm/src/devices/rng.rs: the virtio entropy device. The entropy source is the list of the bytes
-- that it still gives; a read that wants more is an error. Sums of guest addresses wrap at 2 ^ 64. The
-- bytes that a chain gets stay below 2 ^ 32, as a queue has fewer than 65536 descriptors.
pub mod Indices
pub mod Keeping
pub mod Lawful
mod Tests
use visor.Prelude.{
  ℕ, zero, suc, ◌+◌, ◌*◌, ◌%◌, ◌^◌, Bool, true, false, not, ◌||◌, List, [], ◌∷◌, none, some, Result,
  ok, err, length, ltb, leb, ◌==◌, if◌then◌else◌, take, drop, bit_and, set, get_elem?, map,
}
use visor.Prelude.Bytes.{to_le_bytes, from_le_bytes}
use visor.Memory.{GuestMemory, MemoryError, read_bytes, write_bytes}
use visor.Virtio.{VirtQueue, VirtioDevice, DeviceType, new_queue, reset_queue}

-- VIRTIO_F_VERSION_1
abbrev pub version_1 : ℕ
version_1 = 4294967296

abbrev pub queue_max_size : ℕ
queue_max_size = 256

abbrev pub max_bytes_per_request : ℕ
max_bytes_per_request = 65536

pub data RngError : Type 0 where
  read_entropy cycle : RngError
  memory_error : MemoryError → RngError
  -- The index, and the size of the queue.
  invalid_descriptor : ℕ → ℕ → RngError
  -- Not an error of the source: the fuel of the model was not enough.
  out_of_fuel : RngError

pub record VirtqDesc : Type 0 where
  pub addr : ℕ
  pub len : ℕ
  pub flags : ℕ
  pub next : ℕ

pub record RngDevice : Type 0 where
  pub entropy_source : List ℕ
  pub avail_features : ℕ
  pub acked_features : ℕ
  pub queues : List VirtQueue
  pub activated : Bool

unfoldable pub with_source : List ℕ → RngDevice
with_source source = record {
  entropy_source = source;
  avail_features = version_1;
  acked_features = 0;
  queues = new_queue queue_max_size ∷ [];
  activated = false;
}

-- What the processing of a queue changes.
pub record Work : Type 0 where
  pub memory : GuestMemory
  pub entropy : List ℕ
  pub queue : VirtQueue

abbrev pub Outcome : Type 0 → Type 0
Outcome A = Work × Result {0, 0} A RngError

-- `?`: an error ends the processing, and what was changed stays.
unfoldable pub and_then : {A B : Type 0} → Outcome A → (A → Work → Outcome B) → Outcome B
and_then (w, ok a) next = next a w
and_then (w, err e) next = (w, err e)

abbrev pub from_address : ℕ → ℕ → ℕ
from_address addr offset = (addr + offset) % 2 ^ 64

unfoldable pub read_from : ℕ → ℕ → Work → Outcome (List ℕ)
read_from addr len w = elim (read_bytes w.memory addr len) [
  | ok bytes ↦ (w, ok bytes)
  | err e ↦ (w, err (RngError.memory_error e))
]

unfoldable pub write_to : ℕ → List ℕ → Work → Outcome Unit
write_to addr bytes w = elim (write_bytes w.memory addr bytes) [
  | ok m ↦ (record w { memory = m }, ok tt)
  | err e ↦ (w, err (RngError.memory_error e))
]

unfoldable pub read_exact : ℕ → Work → Outcome (List ℕ)
read_exact len w =
    if leb len (length w.entropy)
    then (record w { entropy = drop len w.entropy }, ok (take len w.entropy))
    else (record w { entropy = [] }, err RngError.read_entropy)

unfoldable pub read_desc : ℕ → Work → Outcome VirtqDesc
read_desc idx w =
    if ltb idx w.queue.size
    then and_then (read_from (from_address w.queue.desc_table_addr (idx * 16)) 16 w) (λ bytes v. (
      v,
      ok (record {
        addr = from_le_bytes (take 8 bytes);
        len = from_le_bytes (take 4 (drop 8 bytes));
        flags = from_le_bytes (take 2 (drop 12 bytes));
        next = from_le_bytes (drop 14 bytes);
      }),
    ))
    else (w, err (RngError.invalid_descriptor idx w.queue.size))

-- A device-writable buffer gets random bytes; the number of its bytes.
unfoldable pub fill_desc : VirtqDesc → Work → Outcome ℕ
fill_desc desc w =
    let len = if ltb desc.len max_bytes_per_request then desc.len else max_bytes_per_request in
    if bit_and desc.flags 2 == 0
    then (w, ok 0)
    else and_then (read_exact len w)
        (λ buf v. and_then (write_to desc.addr buf v) (λ done u. (u, ok len)))

-- The chain from a descriptor, of which as many are left as the queue has and were not visited.
unfoldable pub fill_from : ℕ → ℕ → ℕ → Work → Outcome ℕ
fill_from zero idx total w = and_then (read_desc idx w) (λ desc v. (v, err RngError.cycle))
fill_from (suc left) idx total w = and_then (read_desc idx w) (λ desc v.
    and_then (fill_desc desc v) (λ n u.
      let rest = fill_from left desc.next (total + n) u in
      if bit_and desc.flags 1 == 0 then (u, ok (total + n)) else rest))

unfoldable pub fill_chain : ℕ → Work → Outcome ℕ
fill_chain head_idx w = fill_from w.queue.size head_idx 0 w

-- Both indices are moved on.
unfoldable pub advance : Work → Work
advance w = record w {
  queue = record w.queue {
    last_avail_idx = (w.queue.last_avail_idx + 1) % 2 ^ 16;
    last_used_idx = (w.queue.last_used_idx + 1) % 2 ^ 16;
  };
}

-- The body of the loop over the available ring. The queue is not empty.
unfoldable pub serve : Work → Outcome Unit
serve w =
    let slot = w.queue.last_avail_idx % w.queue.size in
    let used = from_address w.queue.used_ring_addr (4 + w.queue.last_used_idx % w.queue.size * 8) in
    and_then (read_from (from_address w.queue.avail_ring_addr (4 + slot * 2)) 2 w) (λ bytes v.
      let head_idx = from_le_bytes bytes in
      and_then (fill_chain head_idx v) (λ written u.
        and_then (write_to used (to_le_bytes head_idx) u) (λ done t.
          and_then (write_to (from_address used 4) (to_le_bytes written) t)
            (λ more s. (advance s, ok tt)))))

unfoldable pub finish : Bool → Work → Outcome Bool
finish false w = (w, ok false)
finish true w =
    and_then
      (write_to (from_address w.queue.used_ring_addr 2) (take 2 (to_le_bytes w.queue.last_used_idx))
        w)
      (λ done v. (v, ok true))

unfoldable pub process_from : ℕ → ℕ → Bool → Work → Outcome Bool
process_from zero avail_idx processed w =
    if w.queue.last_avail_idx == avail_idx
    then finish processed w
    else (w, err RngError.out_of_fuel)
process_from (suc fuel) avail_idx processed w =
    let rest = and_then (serve w) (λ done v. process_from fuel avail_idx true v) in
    if w.queue.last_avail_idx == avail_idx then finish processed w else rest

-- A 16-bit index goes round once at most.
unfoldable pub process_queue : Work → Outcome Bool
process_queue w =
    if not w.queue.ready || w.queue.size == 0
    then (w, ok false)
    else and_then (read_from (from_address w.queue.avail_ring_addr 2) 2 w)
        (λ bytes v. process_from 65536 (from_le_bytes bytes % 2 ^ 16) false v)

-- The indices are written back, whatever the processing ended in.
unfoldable pub with_indices : VirtQueue → VirtQueue → VirtQueue
with_indices q state = record q {
  last_avail_idx = state.last_avail_idx;
  last_used_idx = state.last_used_idx;
}

abbrev pub processed_any : Result {0, 0} Bool RngError → Bool
processed_any (ok processed) = processed
processed_any (err e) = false

-- `VirtioDevice::process_queue`, with guest memory afterwards.
unfoldable pub device_process_queue : ℕ → GuestMemory → RngDevice → RngDevice × GuestMemory × Bool
device_process_queue queue_idx memory d = elim (get_elem? d.queues queue_idx) [
  | none ↦ (d, memory, false)
  | some q ↦
      let done =
        process_queue (record { memory = memory; entropy = d.entropy_source; queue = q }) in
      (
        record d {
          entropy_source = done.0.entropy;
          queues = set d.queues queue_idx (with_indices q done.0.queue);
        },
        done.0.memory,
        processed_any done.1,
      )
]

unfoldable pub rng_device : VirtioDevice RngDevice GuestMemory
rng_device = record {
  device_type = λ d. DeviceType.rng;
  avail_features = λ d. d.avail_features;
  acked_features = λ d. d.acked_features;
  set_acked_features = λ features d. record d { acked_features = features };
  queues = λ d. d.queues;
  set_queues = λ queues d. record d { queues = queues };
  read_config = λ d offset bytes. map (λ byte. 0) bytes;
  write_config = λ offset bytes d. d;
  activate = λ d. (record d { activated = true }, true);
  is_activated = λ d. d.activated;
  reset = λ d. record d { activated = false; queues = map reset_queue d.queues };
  process_queue = λ queue_idx memory d.
      let done = device_process_queue queue_idx memory d in (done.0, some done.2);
}
