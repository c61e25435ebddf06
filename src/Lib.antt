-- ===== src/Lib.antt =====
-- visor runs containers in micro virtual machines. This library models the parts of it that keep state of
-- their own behind a small interface, and proves what makes each of them correct.
--
-- The parts and how they interact: a vCPU that leaves the guest hands a port or memory access to the I/O bus
-- (crates/visor-vmm/src/devices/bus.rs), which routes the address to a device: the 16550 UART (devices/uart.rs),
-- the PL011 UART (devices/pl011.rs), the virtio MMIO transport (transport/mmio.rs) or the ports of the PCI bus
-- (transport/pci_bus.rs), whose functions (transport/pci.rs) wrap a virtio device of the trait in transport/mod.rs as
-- the MMIO transport does; one such device is the entropy source (devices/rng.rs), which works on guest memory. A stream between host and guest is a connection of a
-- virtio socket (devices/vsock.rs), which both sides call. Before the guest starts, the ACPI tables (acpi.rs) are
-- written to guest memory (memory.rs). Disk and network devices ask the token buckets of rate_limit/ before they do I/O. Packets between
-- two processes go through a ring in shared memory (net/shared_ring.rs). During a migration (migration.rs) the
-- dirty bitmap (dirty_tracking.rs) says which pages to send again. On the host side, crates/visor-runtime gives
-- each VM an address (net/ip_alloc.rs), a name (net/dns.rs) and a port on the virtual switch (net/switch.rs), forwards its
-- frames (net/packet.rs), keeps a pool of warm VMs (pool/manager.rs) and watches the health of VMs (pool/health.rs), reads the references of images
-- (oci/reference.rs) and orders the services of a compose file (compose/orchestrator.rs). The image builder
-- substitutes variables in a Dockerfile (crates/visor-build/src/substitute.rs).
--
-- Files, and the code each models (function names are those of the code, in lower case):
-- - Prelude: the names passed on from the libraries; Prelude/Tests: comparisons into Bool and case splits;
--   Prelude/Lists: length, get_elem?, set, take over the native numbers; Prelude/Results: Rust's Result;
--   Prelude/Bits and Prelude/BitSets: masks, shifts and single bits of machine words; Prelude/Maps: hash maps;
--   Prelude/Bytes: words as bytes and slices copied into a list; Prelude/Texts: strings and their splits.
-- - RateLimit: crates/visor-vmm/src/rate_limit/mod.rs, with RateLimit/Disk and RateLimit/Net for disk.rs and
--   net.rs. A clock reading is an argument in nanoseconds, and each sleep is a list of the readings that follow.
-- - Bus: crates/visor-vmm/src/devices/bus.rs. Sums of addresses wrap at 2^64. A device is a handle into a store.
-- - Uart: crates/visor-vmm/src/devices/uart.rs. A register is a number below 256, the output a list of bytes.
-- - Virtio and Mmio: crates/visor-vmm/src/transport/mod.rs and mmio.rs. The device is any record of the trait's
--   operations; Mmio/Device holds the laws that the transport relies on, Mmio/Transport its state, queues and status,
--   and Mmio its registers.
-- - Rng: crates/visor-vmm/src/devices/rng.rs. The entropy source is the list of the bytes it still gives.
-- - Vsock: crates/visor-vmm/src/devices/vsock.rs. Below it, TxBuf (the ring for the bytes from the guest), Connection (the
--   state and the calls of the host), Sending (send_pkt), Receiving (recv_pkt), Device
--   (the map of connections, and a chain from the guest) and Queues (the loops over the two queues, and the trait's
--   operations). A point of time is a number of milliseconds, and the host's stream a sink with a state of its own. What the driver sets up in the queues is a call.
-- - Pci: crates/visor-vmm/src/transport/pci.rs (Pci/Device) and pci_bus.rs (Pci/Bus). The configuration space is
--   a list of 256 bytes, and the wrapped virtio device a value that is kept.
-- - Pl011: crates/visor-vmm/src/devices/pl011.rs. The output is a list of bytes, as for Uart.
-- - Memory: crates/visor-vmm/src/memory.rs. The mapped region is the list of its bytes, a pointer an offset into it.
-- - Acpi: crates/visor-vmm/src/acpi.rs. What the crate acpi_tables serialises is an argument; the order of the tables,
--   their addresses and the AML package lengths are the code's.
-- - Migration: crates/visor-vmm/src/migration.rs, on snapshots of DirtyTracking. The floating-point threshold is
--   an argument with its comparison.
-- - DirtyTracking: crates/visor-vmm/src/dirty_tracking.rs.
-- - SharedRing: crates/visor-vmm/src/net/shared_ring.rs. Below it, Memory (stores and loads), Positions (indices modulo
--   the capacity), Content (the packets between two indices) and Queue (the ring as a queue of packets).
-- - IpAlloc: crates/visor-runtime/src/net/ip_alloc.rs. Switch: crates/visor-runtime/src/net/switch.rs.
-- - Health: crates/visor-runtime/src/pool/health.rs.
-- - Pool: crates/visor-runtime/src/pool/manager.rs. The execution backend and the snapshot cache are arguments, with a
--   state of their own that the operations pass on, and so is what other calls do to the pools meanwhile.
-- - Dns: crates/visor-runtime/src/net/dns.rs, the registry. PacketSwitch: crates/visor-runtime/src/net/packet.rs, where
--   the channel to a port is the list of the frames in it.
-- - Oci: crates/visor-runtime/src/oci/reference.rs. Substitute: crates/visor-build/src/substitute.rs. Both work on
--   lists of bytes.
-- - Compose: crates/visor-runtime/src/compose/orchestrator.rs, from needs_health_wait to extract_dependency_names. Below it,
--   Counting (the tables of dependencies), Loop (the queue), Order (what an order is) and Starting.
-- Below each of these, the modules named for what they prove hold the theorems, and a module Tests holds runs at
-- fixed inputs.
--
-- Bounds and fuel: the scan of IpAlloc runs on one unit of fuel for each address of the subnet, as the loop of
-- the code is bounded, the wait of a token bucket on any number of rounds, the recursion of
-- try_recv and the flush of a vsock ring on two units (a ring has at most two parts), the next power of two on the 32 doublings of a u32, the pre-copy on one unit for each
-- round up to the last one, the start order on one unit for
-- each service, and the loops over a virtqueue on the 65536 values of its index. Every other loop is structural.
-- Words of w bits are numbers with the wrap-around written out.
--
-- Not modelled: mutexes (none is taken as poisoned) and threads (an operation that holds its lock
-- throughout is a step, and an interleaving a list of steps; what other calls do while the pool manager awaits a
-- creation is an argument), logging, sockets, files, system calls, the floating-point division of
-- the dirty rate (the two numbers divided are kept), the hash of a MAC address and the Unicode tables of
-- to_lowercase, which are arguments, and the texts of most error messages. The orchestrator beside the start order,
-- the Dockerfile parser and the rest of the image builder, the Docker API, the guest init, the kernel build, the
-- command line, snapshots, the muxer of the vsock device, the other virtio devices and the platform code (KVM, HVF, VFIO) are outside
-- this library.
mod Prelude
pub mod Acpi
pub mod Bus
pub mod Compose
pub mod DirtyTracking
pub mod Dns
pub mod Health
pub mod IpAlloc
pub mod Memory
pub mod Migration
pub mod Mmio
pub mod Oci
pub mod PacketSwitch
pub mod Pci
pub mod Pl011
pub mod Pool
pub mod RateLimit
pub mod Rng
pub mod SharedRing
pub mod Substitute
pub mod Switch
pub mod Uart
pub mod Virtio
pub mod Vsock
