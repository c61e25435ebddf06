-- ===== src/Virtio.antt =====
-- crates/visor-vmm/src/transport/mod.rs: the constants of virtio, its queues and the trait that every
-- device implements.
use visor.Prelude.{ℕ, Bool, false, List, Option}

abbrev pub mmio_magic : ℕ
mmio_magic = 0x74726976

abbrev pub mmio_version : ℕ
mmio_version = 2

abbrev pub vendor_id : ℕ
vendor_id = 0

abbrev pub virtio_mmio_int_vring : ℕ
virtio_mmio_int_vring = 0x01

abbrev pub device_status_init : ℕ
device_status_init = 0

abbrev pub device_status_acknowledge : ℕ
device_status_acknowledge = 1

abbrev pub device_status_driver : ℕ
device_status_driver = 2

abbrev pub device_status_features_ok : ℕ
device_status_features_ok = 8

abbrev pub device_status_driver_ok : ℕ
device_status_driver_ok = 4

abbrev pub device_status_failed : ℕ
device_status_failed = 128

pub data DeviceType : Type 0 where
  net : DeviceType
  block : DeviceType
  console : DeviceType
  rng : DeviceType
  balloon : DeviceType
  vsock : DeviceType
  fs : DeviceType

-- `device_type as u32`.
unfoldable pub type_code : DeviceType → ℕ
type_code net = 1
type_code block = 2
type_code console = 3
type_code rng = 4
type_code balloon = 5
type_code vsock = 19
type_code fs = 26

pub record VirtQueue : Type 0 where
  pub max_size : ℕ
  pub size : ℕ
  pub ready : Bool
  pub desc_table_addr : ℕ
  pub avail_ring_addr : ℕ
  pub used_ring_addr : ℕ
  pub last_avail_idx : ℕ
  pub last_used_idx : ℕ

unfoldable pub new_queue : ℕ → VirtQueue
new_queue max_size = record {
  max_size = max_size;
  size = 0;
  ready = false;
  desc_table_addr = 0;
  avail_ring_addr = 0;
  used_ring_addr = 0;
  last_avail_idx = 0;
  last_used_idx = 0;
}

unfoldable pub reset_queue : VirtQueue → VirtQueue
reset_queue q = record q {
  size = 0;
  ready = false;
  desc_table_addr = 0;
  avail_ring_addr = 0;
  used_ring_addr = 0;
  last_avail_idx = 0;
  last_used_idx = 0;
}

-- The trait: what is read of a device, and what is done to it. `set_queues` stands for a write through
-- `queues_mut`. `activate` says whether it succeeded, and a queue that fails gives `none`.
pub record VirtioDevice (D M : Type 0) : Type 0 where
  pub device_type : D → DeviceType
  pub avail_features : D → ℕ
  pub acked_features : D → ℕ
  pub set_acked_features : ℕ → D → D
  pub queues : D → List VirtQueue
  pub set_queues : List VirtQueue → D → D
  pub read_config : D → ℕ → List ℕ → List ℕ
  pub write_config : ℕ → List ℕ → D → D
  pub activate : D → D × Bool
  pub is_activated : D → Bool
  pub reset : D → D
  pub process_queue : ℕ → M → D → D × Option Bool
