-- ===== src/SharedRing/Tests.antt =====
-- Runs of the ring of net/shared_ring.rs at fixed inputs.
use visor.Prelude.{List, ◌≡◌, inl, inr, refl, [], ◌∷◌, some, arith}
use visor.SharedRing.{
  Ring, try_send, send_here, send_wrapped, try_recv, receive, align_up, available_space,
  write_entry, write_skip_marker, copy_in, copy_out, store_u32, load_u32,
}
use visor.SharedRing.Content.{nothing}
use visor.SharedRing.Queue.{Holds}
use visor.SharedRing.Queue.Sending.{Sent, try_send-Holds}
use visor.SharedRing.Queue.History.{sends, receives, Answer, Answers, run, run-Answers}
use visor.SharedRing.Queue.Receiving.{Received, try_recv-Holds}

abbrev blank : Ring
blank = record { write_idx = 0; read_idx = 0; capacity = 65536; bytes_at = λ i. 0 }

-- The ring of that size, with eight bytes left in front of its end and nothing in it.
abbrev near_end : Ring
near_end = record { write_idx = 65528; read_idx = 65528; capacity = 65536; bytes_at = λ i. 0 }

near_end-Holds : Holds near_end []
near_end-Holds = record {
  large = omega arith;
  aligned = refl;
  write_aligned = refl;
  word = omega arith;
  room = omega arith;
  content = nothing 65528;
}

-- The packet does not fit in front of the end: it goes to the start, and is read from there.
wrapped_and_read :
    try_recv 2 (try_send near_end (1 ∷ 2 ∷ 3 ∷ 4 ∷ 5 ∷ [])).0 10
    ≡ some (
      record (try_send near_end (1 ∷ 2 ∷ 3 ∷ 4 ∷ 5 ∷ [])).0 { read_idx = 65552 },
      some (1 ∷ 2 ∷ 3 ∷ 4 ∷ 5 ∷ []),
    )
unfolding try_send send_here send_wrapped try_recv receive align_up available_space write_entry
    write_skip_marker copy_in copy_out store_u32 load_u32
wrapped_and_read = refl

try_send-Holds_example :
    Sent near_end [] (1 ∷ 2 ∷ 3 ∷ 4 ∷ 5 ∷ []) (try_send near_end (1 ∷ 2 ∷ 3 ∷ 4 ∷ 5 ∷ []))
try_send-Holds_example =
    try_send-Holds near_end [] (1 ∷ 2 ∷ 3 ∷ 4 ∷ 5 ∷ []) near_end-Holds (omega arith)

sent_ring-Holds :
    Holds (try_send near_end (1 ∷ 2 ∷ 3 ∷ 4 ∷ 5 ∷ [])).0 ((1 ∷ 2 ∷ 3 ∷ 4 ∷ 5 ∷ []) ∷ [])
unfolding try_send send_wrapped align_up available_space
sent_ring-Holds =
    elim (try_send-Holds near_end [] (1 ∷ 2 ∷ 3 ∷ 4 ∷ 5 ∷ []) near_end-Holds (omega arith)) [
      | inl (e, h, same, bound) ↦ h
      | inr (e, same, why) ↦ absurd (ground (arith, e))
    ]

try_recv-Holds_example :
    Received
      (try_send near_end (1 ∷ 2 ∷ 3 ∷ 4 ∷ 5 ∷ [])).0
      10
      ((1 ∷ 2 ∷ 3 ∷ 4 ∷ 5 ∷ []) ∷ [])
      (try_recv 2 (try_send near_end (1 ∷ 2 ∷ 3 ∷ 4 ∷ 5 ∷ [])).0 10)
try_recv-Holds_example =
    try_recv-Holds (try_send near_end (1 ∷ 2 ∷ 3 ∷ 4 ∷ 5 ∷ [])).0 ((1 ∷ 2 ∷ 3 ∷ 4 ∷ 5 ∷ []) ∷ []) 10
      sent_ring-Holds

run-Answers_example :
    (answers : List Answer) × (run near_end
        (sends (1 ∷ 2 ∷ 3 ∷ []) ∷ receives 2 ∷ receives 10 ∷ receives 10 ∷ [])
      ≡ some answers)
    × Answers [] (sends (1 ∷ 2 ∷ 3 ∷ []) ∷ receives 2 ∷ receives 10 ∷ receives 10 ∷ []) answers
run-Answers_example =
    run-Answers near_end [] (sends (1 ∷ 2 ∷ 3 ∷ []) ∷ receives 2 ∷ receives 10 ∷ receives 10 ∷ [])
      near_end-Holds (omega arith)
