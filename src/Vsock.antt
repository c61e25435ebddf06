-- ===== src/Vsock.antt =====
-- crates/visor-vmm/src/devices/vsock.rs: the packets and connections of virtio sockets. Here the operations
-- and the header of a packet; the fields have the widths of the source.
pub mod Accepting
pub mod Answers
pub mod Closing
pub mod Connection
pub mod Credit
pub mod Device
pub mod Draining
pub mod Ending
pub mod Fifo
pub mod Forward
pub mod Flush
pub mod Guest
pub mod Header
pub mod Lives
pub mod Ports
pub mod Queues
pub mod Receiving
pub mod Sending
pub mod States
pub mod Stream
pub mod Taking
pub mod Tracked
pub mod TxBuf
pub mod Serving
pub mod Whole
pub mod Window
mod Tests
use visor.Prelude.{
  ℕ, zero, suc, ◌/◌, ◌%◌, List, [], ◌∷◌, ◌++◌, Option, none, some, length, ltb, ◌==◌, if◌then◌else◌,
  take, drop,
}
use visor.Prelude.Bytes.{from_le_bytes}

pub data VsockOp : Type 0 where
  request response rst shutdown rw_data credit_update credit_request : VsockOp

-- `op as u16`.
unfoldable pub op_code : VsockOp → ℕ
op_code request = 1
op_code response = 2
op_code rst = 3
op_code shutdown = 4
op_code rw_data = 5
op_code credit_update = 6
op_code credit_request = 7

unfoldable pub from_u16 : ℕ → Option VsockOp
from_u16 v =
    if v == 1
    then some request
    else (if v == 2
        then some response
        else (if v == 3
            then some rst
            else (if v == 4
                then some shutdown
                else (if v == 5
                    then some rw_data
                    else (if v == 6
                        then some credit_update
                        else (if v == 7 then some credit_request else none))))))

abbrev pub header_size : ℕ
header_size = 44

pub record VsockPacket : Type 0 where
  pub src_cid : ℕ
  pub dst_cid : ℕ
  pub src_port : ℕ
  pub dst_port : ℕ
  pub len : ℕ
  pub pkt_type : ℕ
  pub op : ℕ
  pub flags : ℕ
  pub buf_alloc : ℕ
  pub fwd_cnt : ℕ

-- `to_le_bytes` of an integer of some bytes.
unfoldable pub le_bytes : ℕ → ℕ → List ℕ
le_bytes zero value = []
le_bytes (suc n) value = value % 256 ∷ le_bytes n (value / 256)

-- `from_le_bytes(buf[start..start + n])`.
abbrev pub field : List ℕ → ℕ → ℕ → ℕ
field buf start n = from_le_bytes (take n (drop start buf))

unfoldable pub from_bytes : List ℕ → Option VsockPacket
from_bytes buf =
    if ltb (length buf) header_size
    then none
    else some (record {
      src_cid = field buf 0 8;
      dst_cid = field buf 8 8;
      src_port = field buf 16 4;
      dst_port = field buf 20 4;
      len = field buf 24 4;
      pkt_type = field buf 28 2;
      op = field buf 30 2;
      flags = field buf 32 4;
      buf_alloc = field buf 36 4;
      fwd_cnt = field buf 40 4;
    })

-- The slices that are written stand side by side.
unfoldable pub to_bytes : VsockPacket → List ℕ
to_bytes p =
    le_bytes 8 p.src_cid
    ++ (le_bytes 8 p.dst_cid
        ++ (le_bytes 4 p.src_port
            ++ (le_bytes 4 p.dst_port
                ++ (le_bytes 4 p.len
                    ++ (le_bytes 2 p.pkt_type
                        ++ (le_bytes 2 p.op
                            ++ (le_bytes 4 p.flags
                                ++ (le_bytes 4 p.buf_alloc ++ le_bytes 4 p.fwd_cnt))))))))
