-- ===== src/Vsock/Ending.antt =====
-- The processing of a queue of vsock.rs ends, with the connections and the indices as they should be.
use visor.Prelude.{
  ℕ, zero, suc, ◌+◌, ◌-◌, ◌%◌, ◌≤◌, ◌<◌, ◌≡◌, ap, Bool, true, false, not, ◌||◌, List, [], ◌∷◌,
  Option, none, some, Result, ok, err, ◌==◌, if_cases, if_both, arith, All, set, get_elem?,
}
use visor.Memory.{GuestMemory}
use visor.Virtio.{VirtQueue}
use visor.Rng.{from_address}
use visor.Vsock.{le_bytes}
use visor.Vsock.Device.{QueueError, VsockDevice, read_index, Written, write_at}
use visor.Vsock.Queues.{
  Work, Outcome, advance, serve_tx, serve_rx, with_memory, finish, next_round, process_from,
  process_to, process_inner, rxq, txq, Processed, put_back, process_at, process_rx, either_ok,
  then_rx, process_queue,
}
use visor.Vsock.Taking.{Serves, serve_tx-Serves, serve_rx-Serves, IsSmall, read_index-IsSmall}
use visor.Vsock.Serving.{IsIndex, IsDevice, IsWork, serve_tx-IsWork, serve_rx-IsWork}

-- It ends, with the connections and indices as they should be.
abbrev IsEnd : Option Outcome → Type 0
IsEnd none = ⊥
IsEnd (some o) = IsWork o.0

with_memory-IsWork : (w : Work) (r : Written) → IsWork w → IsWork (with_memory w r).0
unfolding with_memory
with_memory-IsWork w (m, ok done) i = i
with_memory-IsWork w (m, err e) i = i

finish-IsWork : (processed : Bool) (w : Work) → IsWork w → IsWork (finish processed w).0
unfolding finish
finish-IsWork false w i = i
finish-IsWork true w i =
    with_memory-IsWork w
      (write_at (from_address w.queue.used_ring_addr 2) (le_bytes 2 w.queue.last_used_idx) w.memory)
      i

next_round-IsEnd :
    (Stops : Type 0) (q : VirtQueue) (again : Work → Option Outcome) (processed : Bool)
    (o : Outcome)
    → Serves Stops q o
    → IsWork o.0
    → ((w : Work) → w.queue ≡ advance q → IsWork w → IsEnd (again w))
    → IsEnd (next_round again processed o)
unfolding Serves next_round
next_round-IsEnd Stops q again processed (w, ok true) s i h = h w s i
next_round-IsEnd Stops q again processed (w, ok false) s i h = finish-IsWork processed w i
next_round-IsEnd Stops q again processed (w, err e) s i h = i

pub set-indices :
    (qs : List VirtQueue) (i : ℕ) (q : VirtQueue)
    → IsIndex q
    → All IsIndex qs
    → All IsIndex (set qs i q)
set-indices [] i q h all = tt
set-indices (r ∷ qs) zero q h all = (h, all.1)
set-indices (r ∷ qs) (suc i) q h all = (all.0, set-indices qs i q h all.1)

abbrev pub IsKept : Processed → Type 0
IsKept none = ⊥
IsKept (some (d, m, processed)) = IsDevice d

put_back-IsKept :
    (queue_idx : ℕ) (q : VirtQueue) (o : Option Outcome) → IsEnd o → IsKept (put_back queue_idx q o)
unfolding put_back
put_back-IsKept queue_idx q none h = h
put_back-IsKept queue_idx q (some (w, r)) h = record {
  tracked = h.1.tracked;
  indices =
      set-indices w.device.queues queue_idx
        (record q {
          last_avail_idx = w.queue.last_avail_idx;
          last_used_idx = w.queue.last_used_idx;
        })
        h.0 h.1.indices;
}

abbrev pub IfQueue : Option VirtQueue → Type 0
IfQueue none = Unit
IfQueue (some q) = IsIndex q

pub get-indices : (qs : List VirtQueue) (i : ℕ) → All IsIndex qs → IfQueue (get_elem? qs i)
get-indices [] i all = tt
get-indices (q ∷ qs) zero all = all.0
get-indices (q ∷ qs) (suc i) all = get-indices qs i all.1

module _ (Stops : Type 0) (serve : Work → Outcome)
    (serves : (w : Work) → Serves Stops w.queue (serve w))
    (keeps : (w : Work) → IsWork w → IsWork (serve w).0) where
  process_from-IsEnd :
      (fuel avail_idx : ℕ) (processed : Bool) (w : Work)
      → avail_idx < 65536
      → IsWork w
      → (avail_idx + 65536 - w.queue.last_avail_idx) % 65536 ≤ fuel
      → IsEnd (process_from serve fuel avail_idx processed w)
  unfolding process_from advance
  process_from-IsEnd zero avail_idx processed w small i enough =
      if_cases IsEnd (w.queue.last_avail_idx == avail_idx) (λ here. finish-IsWork processed w i)
        (λ other. absurd (ground (arith, other, small, i.0, enough)))
  process_from-IsEnd (suc fuel) avail_idx processed w small i enough =
      if_cases IsEnd (w.queue.last_avail_idx == avail_idx) (λ here. finish-IsWork processed w i)
        (λ other.
          next_round-IsEnd Stops w.queue (process_from serve fuel avail_idx true) processed
            (serve w) (serves w) (keeps w i)
            (λ v moved j.
              let a = ap (λ p. p.last_avail_idx) moved in
              process_from-IsEnd fuel avail_idx true v small j
                (ground (arith, other, a, small, i.0, enough))))

  process_to-IsEnd :
      (w : Work) (r : Result {0, 0} ℕ QueueError)
      → IsSmall r
      → IsWork w
      → IsEnd (process_to serve w r)
  unfolding process_to
  process_to-IsEnd w (ok avail_idx) small i =
      process_from-IsEnd 65536 avail_idx false w small i (omega arith)
  process_to-IsEnd w (err e) small i = i

  process_inner-IsEnd : (w : Work) → IsWork w → IsEnd (process_inner serve w)
  unfolding process_inner
  process_inner-IsEnd w i =
      if_both IsEnd (not w.queue.ready || w.queue.size == 0) i (
        process_to-IsEnd w (read_index w.memory w.queue 2) (read_index-IsSmall w.memory w.queue 2)
          i)

  process_at-IsKept :
      (queue_idx : ℕ) (m : GuestMemory) (d : VsockDevice) (found : Option VirtQueue)
      → IfQueue found
      → IsDevice d
      → IsKept (process_at serve queue_idx m d found)
  unfolding process_at
  process_at-IsKept queue_idx m d none h i = i
  process_at-IsKept queue_idx m d (some q) h i =
      let w : Work = record { memory = m; queue = q; device = d } in
      put_back-IsKept queue_idx q (process_inner serve w) (process_inner-IsEnd w (h, i))

process_rx-IsKept :
    (now : ℕ) (m : GuestMemory) (d : VsockDevice) → IsDevice d → IsKept (process_rx now m d)
unfolding process_rx
process_rx-IsKept now m d i =
    process_at-IsKept Unit (serve_rx now) (serve_rx-Serves now) (serve_rx-IsWork now) rxq m d
      (get_elem? d.queues rxq) (get-indices d.queues rxq i.indices) i

either_ok-IsKept : (tx_ok : Bool) (r : Processed) → IsKept r → IsKept (either_ok tx_ok r)
unfolding either_ok
either_ok-IsKept tx_ok none h = h
either_ok-IsKept tx_ok (some (d, m, rx_ok)) h = h

then_rx-IsKept : (now : ℕ) (r : Processed) → IsKept r → IsKept (then_rx now r)
unfolding then_rx
then_rx-IsKept now none h = h
then_rx-IsKept now (some (d, m, tx_ok)) h =
    either_ok-IsKept tx_ok (process_rx now m d) (process_rx-IsKept now m d h)

pub process_queue-IsKept :
    (now queue_idx : ℕ) (m : GuestMemory) (d : VsockDevice)
    → IsDevice d
    → IsKept (process_queue now queue_idx m d)
unfolding process_queue
process_queue-IsKept now queue_idx m d i =
    if_both IsKept (queue_idx == txq)
      (then_rx-IsKept now (process_at (serve_tx now) txq m d (get_elem? d.queues txq)) (
        process_at-IsKept ⊥ (serve_tx now) (serve_tx-Serves now) (serve_tx-IsWork now) txq m d
          (get_elem? d.queues txq) (get-indices d.queues txq i.indices) i))
      (if_both IsKept (queue_idx == rxq) (process_rx-IsKept now m d i) i)
