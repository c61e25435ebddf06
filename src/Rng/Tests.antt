-- ===== src/Rng/Tests.antt =====
-- Runs of rng.rs.
use visor.Prelude.{◌≡◌, refl, true, false, [], ◌∷◌, ok, arith, drop, ◌%◌, ◌^◌}
use visor.Prelude.Bytes.{to_le_bytes, from_le_bytes, copy_at}
use visor.Memory.{
  read_bytes, write_bytes, checked_access, guest_to_host, guest_offset, checked_sub, inside,
}
use visor.Rng.{
  Work, and_then, from_address, read_from, write_to, read_exact, read_desc, fill_desc, fill_from,
  fill_chain, advance, serve, finish, process_from, process_queue,
}
use visor.Rng.Indices.{Processed, process_queue-Processed}

-- The available ring at 0 with one request, the descriptor at 8, the used ring at 24, a buffer at 40.
abbrev one_request : Work
one_request = record {
  memory = record {
    host =
        0 ∷ 0 ∷ 1 ∷ 0 ∷ 0 ∷ 0 ∷ 0 ∷ 0 ∷ 40 ∷ 0 ∷ 0 ∷ 0 ∷ 0 ∷ 0 ∷ 0 ∷ 0 ∷ 2 ∷ 0 ∷ 0 ∷ 0 ∷ 2 ∷ 0 ∷ 0
        ∷ 0 ∷ 0 ∷ 0 ∷ 0 ∷ 0 ∷ 0 ∷ 0 ∷ 0 ∷ 0 ∷ 0 ∷ 0 ∷ 0 ∷ 0 ∷ 0 ∷ 0 ∷ 0 ∷ 0 ∷ 0 ∷ 0 ∷ [];
    guest_base = 0;
    huge_pages = false;
  };
  entropy = 7 ∷ 9 ∷ 11 ∷ [];
  queue = record {
    max_size = 256;
    size = 1;
    ready = true;
    desc_table_addr = 8;
    avail_ring_addr = 0;
    used_ring_addr = 24;
    last_avail_idx = 0;
    last_used_idx = 0;
  };
}

read-available :
    read_bytes one_request.memory (from_address one_request.queue.avail_ring_addr 2) 2
    ≡ ok (1 ∷ 0 ∷ [])
unfolding read_bytes checked_access guest_to_host guest_offset checked_sub inside
read-available = refl

-- The buffer has the first two bytes of the source then.
filled_buffer : drop 40 (process_queue one_request).0.memory.host ≡ 7 ∷ 9 ∷ []
unfolding process_queue process_from serve fill_chain fill_from fill_desc read_desc read_exact
    write_to read_from finish advance and_then read_bytes write_bytes checked_access guest_to_host
    guest_offset checked_sub inside copy_at to_le_bytes from_le_bytes
filled_buffer = refl

process_queue-Processed_example :
    Processed (from_le_bytes (1 ∷ 0 ∷ []) % 2 ^ 16) false one_request (process_queue one_request)
process_queue-Processed_example =
    process_queue-Processed one_request (1 ∷ 0 ∷ []) refl (omega arith) (omega arith) read-available
