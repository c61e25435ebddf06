-- ===== src/SharedRing/Queue/History.antt =====
-- Any history of calls of `try_send` and `try_recv` of net/shared_ring.rs.
use visor.Prelude.{
  ℕ, ◌+◌, ◌*◌, ◌^◌, ◌<◌, ◌≡◌, inl, inr, refl, ap, ◌∙◌, Bool, true, false, List, [], ◌∷◌, ◌++◌,
  Option, none, some, arith,
}
use visor.SharedRing.{Ring, try_send, try_recv}
use visor.SharedRing.Queue.{Holds}
use visor.SharedRing.Queue.Sending.{try_send-Holds}
use visor.SharedRing.Queue.Receiving.{dequeue, try_recv-Holds}

pub data Call : Type 0 where
  sends : (packet : List ℕ) → Call
  receives : (buf_len : ℕ) → Call

pub data Answer : Type 0 where
  sent : (accepted : Bool) → Answer
  received : (packet : Option (List ℕ)) → Answer

abbrev add_answer : Answer → Option (List Answer) → Option (List Answer)
add_answer answer none = none
add_answer answer (some answers) = some (answer ∷ answers)

-- The calls one after the other, and their answers.
unfoldable pub run : Ring → List Call → Option (List Answer)
run ring [] = some []
run ring (sends packet ∷ calls) =
    add_answer (sent (try_send ring packet).1) (run (try_send ring packet).0 calls)
run ring (receives buf_len ∷ calls) = elim (try_recv 2 ring buf_len) [
  | none ↦ none
  | some (after, packet) ↦ add_answer (received packet) (run after calls)
]

-- What a queue that holds these packets may answer: it accepts a packet or refuses it, and gives the packets
-- back in their order.
pub data Answers : List (List ℕ) → List Call → List Answer → Type 0 where
  over : (packets : List (List ℕ)) → Answers packets [] []
  accepts :
      (packets : List (List ℕ)) (packet : List ℕ) (calls : List Call) (answers : List Answer)
      → Answers (packets ++ packet ∷ []) calls answers
      → Answers packets (sends packet ∷ calls) (sent true ∷ answers)
  refuses :
      (packets : List (List ℕ)) (packet : List ℕ) (calls : List Call) (answers : List Answer)
      → Answers packets calls answers
      → Answers packets (sends packet ∷ calls) (sent false ∷ answers)
  gives :
      (packets : List (List ℕ)) (buf_len : ℕ) (calls : List Call) (answers : List Answer)
      → Answers (dequeue buf_len packets).1 calls answers
      → Answers packets (receives buf_len ∷ calls) (received (dequeue buf_len packets).0 ∷ answers)

-- How far the calls can move the write index.
abbrev pub reach : List Call → ℕ → ℕ
reach [] cap = 0
reach (call ∷ calls) cap = 2 * cap + reach calls cap

run-receives :
    (ring after : Ring) (buf_len : ℕ) (packet : Option (List ℕ)) (calls : List Call)
    (answers : List Answer)
    → try_recv 2 ring buf_len ≡ some (after, packet)
    → run after calls ≡ some answers
    → run ring (receives buf_len ∷ calls) ≡ some (received packet ∷ answers)
unfolding run
run-receives ring after buf_len packet calls answers e f =
    ap
      (λ (r : Option (Ring × Option (List ℕ))). elim r as (λ x. Option (List Answer)) [
        | none ↦ none
        | some (next, p) ↦ add_answer (received p) (run next calls)
      ])
      e
    ∙ ap (add_answer (received packet)) f

-- On a ring that holds packets, with indices that the calls do not bring near 2^64, every call ends, and the
-- answers are those of a queue: what is received is what was accepted, in that order, nothing lost, repeated
-- or changed.
pub run-Answers :
    (ring : Ring) (packets : List (List ℕ)) (calls : List Call)
    → Holds ring packets
    → ring.write_idx + reach calls ring.capacity < 2 ^ 64
    → (answers : List Answer) × (run ring calls ≡ some answers) × Answers packets calls answers
unfolding run
run-Answers ring packets [] v far = ([], refl, over packets)
run-Answers ring packets (sends packet ∷ calls) v far =
    elim (try_send-Holds ring packets packet v (omega arith)) [
      | inl (e, held, same, bound) ↦
          let left : (try_send ring packet).0.write_idx
                + reach calls (try_send ring packet).0.capacity
              < 2 ^ 64 =
            omega (arith, ap (reach calls) same) in
          let (answers, f, a) =
            run-Answers (try_send ring packet).0 (packets ++ packet ∷ []) calls held left in
          (sent true ∷ answers, rw (e, f) refl, accepts packets packet calls answers a)
      | inr (e, same, why) ↦
          let (answers, f, a) = run-Answers ring packets calls v (omega arith) in
          (sent false ∷ answers, rw (e, same, f) refl, refuses packets packet calls answers a)
    ]
run-Answers ring packets (receives buf_len ∷ calls) v far =
    let (after, e, held, same_cap, same_write) = try_recv-Holds ring packets buf_len v in
    let left : after.write_idx + reach calls after.capacity < 2 ^ 64 =
      omega (arith, same_write, ap (reach calls) same_cap) in
    let (answers, f, a) = run-Answers after (dequeue buf_len packets).1 calls held left in
    (
      received (dequeue buf_len packets).0 ∷ answers,
      run-receives ring after buf_len (dequeue buf_len packets).0 calls answers e f,
      gives packets buf_len calls answers a,
    )
