-- ===== src/Vsock/Header.antt =====
-- The header of the packets of vsock.rs, written and read.
use visor.Prelude.{
  ℕ, zero, suc, ◌/◌, ◌^◌, ◌<◌, ◌≡◌, refl, List, ◌++◌, some, length, arith, ltb, if_cases,
}
use visor.Prelude.Bytes.{from_le_bytes}
use visor.Vsock.{
  VsockOp, op_code, from_u16, VsockPacket, le_bytes, from_bytes, to_bytes, header_size,
}

from_le_bytes-le_bytes : (n value : ℕ) → value < 256 ^ n → from_le_bytes (le_bytes n value) ≡ value
unfolding from_le_bytes le_bytes
from_le_bytes-le_bytes zero value small = omega arith
from_le_bytes-le_bytes (suc n) value small =
    let rest = from_le_bytes-le_bytes n (value / 256) (omega (arith, small)) in omega (arith, rest)

-- The fields of a packet have the widths of their types.
pub record Fits (p : VsockPacket) : Type 0 where
  pub src_cid_fits : p.src_cid < 2 ^ 64
  pub dst_cid_fits : p.dst_cid < 2 ^ 64
  pub src_port_fits : p.src_port < 2 ^ 32
  pub dst_port_fits : p.dst_port < 2 ^ 32
  pub len_fits : p.len < 2 ^ 32
  pub pkt_type_fits : p.pkt_type < 2 ^ 16
  pub op_fits : p.op < 2 ^ 16
  pub flags_fits : p.flags < 2 ^ 32
  pub buf_alloc_fits : p.buf_alloc < 2 ^ 32
  pub fwd_cnt_fits : p.fwd_cnt < 2 ^ 32

-- The operation codes are told apart.
pub from_u16-op_code : (op : VsockOp) → from_u16 (op_code op) ≡ some op
unfolding from_u16 op_code
from_u16-op_code VsockOp.request = refl
from_u16-op_code VsockOp.response = refl
from_u16-op_code VsockOp.rst = refl
from_u16-op_code VsockOp.shutdown = refl
from_u16-op_code VsockOp.rw_data = refl
from_u16-op_code VsockOp.credit_update = refl
from_u16-op_code VsockOp.credit_request = refl

-- A packet whose fields have the widths of their types is read back from its header, whatever follows.
pub from_bytes-to_bytes :
    (p : VsockPacket) (rest : List ℕ) → Fits p → from_bytes (to_bytes p ++ rest) ≡ some p
unfolding from_bytes to_bytes le_bytes
from_bytes-to_bytes p rest f =
    let buf = to_bytes p ++ rest in
    if_cases (λ r. r ≡ some p) (ltb (length buf) header_size)
      (λ short. absurd (ground (arith, short)))
      (λ long. λ i. some (record {
        src_cid = from_le_bytes-le_bytes 8 p.src_cid f.src_cid_fits i;
        dst_cid = from_le_bytes-le_bytes 8 p.dst_cid f.dst_cid_fits i;
        src_port = from_le_bytes-le_bytes 4 p.src_port f.src_port_fits i;
        dst_port = from_le_bytes-le_bytes 4 p.dst_port f.dst_port_fits i;
        len = from_le_bytes-le_bytes 4 p.len f.len_fits i;
        pkt_type = from_le_bytes-le_bytes 2 p.pkt_type f.pkt_type_fits i;
        op = from_le_bytes-le_bytes 2 p.op f.op_fits i;
        flags = from_le_bytes-le_bytes 4 p.flags f.flags_fits i;
        buf_alloc = from_le_bytes-le_bytes 4 p.buf_alloc f.buf_alloc_fits i;
        fwd_cnt = from_le_bytes-le_bytes 4 p.fwd_cnt f.fwd_cnt_fits i;
      }))
