-- ===== src/Utils/Tests.antt =====
-- Concrete ring buffers, counters and sample streams, and the theorems about the utilities at them.
use syfala_test.Common.{
  ℕ, ◌+◌, ◌-◌, ◌*◌, ◌%◌, ◌<◌, ◌≤◌, ◌≡◌, ◌≢◌, refl, min, done, panicked, ◌>>=◌, List, [], ◌∷◌, ◌++◌,
  length, take, drop, window, ◌⊎◌, inl, arith, checked_signed_diff,
}
use syfala_test.Utils.Counter.{
  GenericCounter, generic_counter, generic_advance, Waker, PeriodicCounter, advance_all,
}
use syfala_test.Utils.Counter.Boundaries.{advance_all_wakes}
use syfala_test.Utils.Ring.{RingConsumer, RingProducer}
use syfala_test.Utils.Queue.{
  IndexedRx, IndexedTx, recv, send, send_all, shift_iter, next, pull, drop_iter,
}
use syfala_test.Utils.Queue.Align.{timeline, consumed}
use syfala_test.Utils.Queue.Recv.{recv_on_timeline}
use syfala_test.Utils.Queue.Send.{pushed, send_on_timeline}
use syfala_test.Utils.Queue.History.{IsSynced, send_all-IsSynced}
use syfala_test.Utils.Samples.{u16, size, width, to_le_bytes, to_bytes, from_bytes}
use syfala_test.Utils.Samples.Bytes.{size_round_trip}
use syfala_test.Utils.Trait.{sample_of}
use syfala_test.Utils.Producer
use syfala_test.Utils.Producer.Step.{pending}
use syfala_test.Utils.Producer.Packets.{unsent, produce_packet_lem}
use syfala_test.Utils.Consumer
use syfala_test.Utils.Consumer.{AudioPacketSamplePadder, PadderIter, Plan, plan}
use syfala_test.Utils.Consumer.Packets.{reordered_packet, packet_in_order, pull_only_padding}
use syfala_test.Utils.Consumer.Gap.{plan_gap_lem}

-- A ring buffer read as a list.
abbrev pub list_rx : RingConsumer ℕ (List ℕ)
list_rx = record { readable = λ xs. xs; commit = λ xs k. drop k xs; readable-commit = λ xs k. refl }

-- A ring buffer that is never read.
pub record Tape : Type 0 where
  pub slots : ℕ
  pub content : List ℕ

abbrev pub tape_tx : RingProducer ℕ Tape
tape_tx = record {
  slots = λ t. t.slots;
  fill = λ t xs. (
    record { slots = t.slots - length xs; content = t.content ++ take t.slots xs },
    min t.slots (length xs),
  );
  written = λ t. t.content;
  written-fill = λ t xs. refl;
  fill-count = λ t xs. refl;
}

abbrev pub at : ℕ → GenericCounter
at n = record { value = n }

abbrev hundreds : ℕ → ℕ
hundreds p = 100 + p

abbrev pub silent : ℕ → ℕ
silent _ = 0

abbrev receiver : IndexedRx GenericCounter (List ℕ)
receiver = record { rx = 103 ∷ 104 ∷ 105 ∷ 106 ∷ []; counter = at 3 }

-- Index 1 is two elements before the stream, and three elements of it are taken.
recv_pads :
    recv list_rx receiver 1 silent 5
    ≡ done (0 ∷ 0 ∷ 103 ∷ 104 ∷ 105 ∷ [], record { rx = 106 ∷ []; counter = at 6 })
unfolding recv drop_iter pull next shift_iter checked_signed_diff generic_advance
recv_pads = refl

-- Index 5 skips two elements.
recv_skips :
    recv list_rx receiver 5 silent 1 ≡ done (105 ∷ [], record { rx = 106 ∷ []; counter = at 6 })
unfolding recv drop_iter pull next shift_iter checked_signed_diff generic_advance
recv_skips = refl

recv_on_timeline_example :
    (r' : IndexedRx GenericCounter (List ℕ)) × (recv list_rx receiver 1 silent 5
      ≡ done (window (timeline 1 3 silent hundreds) 1 5, r'))
    × (r'.counter.value ≡ 6)
    × (r'.rx ≡ window hundreds r'.counter.value 1)
unfolding consumed generic_advance
recv_on_timeline_example =
    recv_on_timeline list_rx hundreds receiver 1 silent 5 4 refl (omega arith, omega arith) (at 6)
      refl

abbrev sender : IndexedTx GenericCounter Tape
sender = record { counter = at 3; tx = record { slots = 4; content = 100 ∷ 101 ∷ 102 ∷ [] } }

send_on_timeline_example :
    (t' : IndexedTx GenericCounter Tape) × (send tape_tx sender 5 (window hundreds 5 9) silent
      ≡ done t')
    × (t'.tx.content ≡ 100 ∷ 101 ∷ 102 ∷ 0 ∷ 0 ∷ 105 ∷ 106 ∷ [])
    × (t'.counter.value ≡ 7)
unfolding pushed generic_advance
send_on_timeline_example =
    send_on_timeline tape_tx hundreds sender 5 9 silent (omega arith, omega arith) (at 7) refl

sender-IsSynced : IsSynced tape_tx hundreds 0 sender
sender-IsSynced = record {
  content = hundreds;
  written = refl;
  honest = λ p. inl refl;
  small = omega arith;
}

-- A gap, an overlap, and a full buffer.
abbrev calls : List (ℕ × ℕ)
calls = (4, 1) ∷ (2, 4) ∷ (20, 9) ∷ []

send_all-IsSynced_example :
    (t' : IndexedTx GenericCounter Tape) × (send_all tape_tx hundreds silent sender calls ≡ done t')
    × IsSynced tape_tx hundreds 0 t'
send_all-IsSynced_example =
    send_all-IsSynced tape_tx hundreds 0 sender calls sender-IsSynced
      (omega arith, (omega arith, (omega arith, tt)))

-- A waker that adds up its wakes.
instance abbrev adding : Waker ℕ
adding = record { wake = λ v times. v + times }

abbrev periodic : PeriodicCounter GenericCounter ℕ
periodic = record { counter = at 7; waker = 2; period = 5 }

advance_all_wakes_example :
    (p' : PeriodicCounter GenericCounter ℕ) × (advance_all periodic (2 ∷ 1 ∷ 13 ∷ []) ≡ done p')
    × (p'.period ≡ 5)
    × (p'.counter.value ≡ 23)
    × (p'.waker + 1 ≡ 2 + 4)
advance_all_wakes_example =
    advance_all_wakes (λ v. v) (λ v times. refl) periodic (2 ∷ 1 ∷ 13 ∷ []) (omega arith)
      (omega arith)

size_round_trip_example :
    ((2 ≡ size u16)
      × ((to_bytes u16 700 (7 ∷ 255 ∷ []) >>= from_bytes u16) ≡ done 700)
      × ((from_bytes u16 (7 ∷ 255 ∷ []) >>= λ w. to_bytes u16 w (7 ∷ 255 ∷ []))
          ≡ done (7 ∷ 255 ∷ [])))
    ⊎ ((2 ≢ size u16)
        × (to_bytes u16 700 (7 ∷ 255 ∷ []) ≡ panicked)
        × (from_bytes u16 (7 ∷ 255 ∷ []) ≡ panicked))
unfolding size
size_round_trip_example =
    size_round_trip u16 700 (7 ∷ 255 ∷ []) (omega arith) (omega arith, (omega arith, tt))

-- The second byte of 515 has been sent.
abbrev framer : Producer.SampleByteStream
framer = record { current_sample_bytes = 3 ∷ 2 ∷ []; current_byte_idx = 9 }

produce_packet_lem_example :
    (source' : List ℕ) × (framer' : Producer.SampleByteStream) × (Producer.produce_packet
        (sample_of u16)
        list_rx
        (258 ∷ 772 ∷ [])
        framer
        4
      ≡ done (9, take 4 (unsent (sample_of u16) list_rx (258 ∷ 772 ∷ []) framer), source', framer'))
    × (unsent (sample_of u16) list_rx source' framer'
        ≡ drop 4 (unsent (sample_of u16) list_rx (258 ∷ 772 ∷ []) framer))
    × (framer'.current_byte_idx
        ≡ 9 + length (take 4 (unsent (sample_of u16) list_rx (258 ∷ 772 ∷ []) framer)))
    × (length framer'.current_sample_bytes ≡ size u16)
unfolding size
produce_packet_lem_example =
    produce_packet_lem (sample_of u16) list_rx (258 ∷ 772 ∷ []) framer 4 refl (omega arith)

unsent-framer : unsent (sample_of u16) list_rx (258 ∷ 772 ∷ []) framer ≡ 2 ∷ 2 ∷ 1 ∷ 4 ∷ 3 ∷ []
unfolding size width pending to_le_bytes
unsent-framer = refl

abbrev padder : AudioPacketSamplePadder
padder = record { current_byte_idx = 5; current_sample_bytes = 3 ∷ 2 ∷ [] }

reordered_packet_example :
    (Consumer.feed_bytes (sample_of u16) padder 2 (9 ∷ 8 ∷ [])
      >>= Consumer.pull (sample_of u16) silent 3)
    ≡ done ([], record { padding = 0; made = 0; padder = padder; bytes = [] })
unfolding size
reordered_packet_example =
    reordered_packet (sample_of u16) padder 2 (9 ∷ 8 ∷ []) silent 3 refl (omega arith) (omega arith)

packet_in_order_example :
    let run =
      Consumer.feed_bytes (sample_of u16) padder 5 (9 ∷ 8 ∷ [])
      >>= Consumer.pull (sample_of u16) silent 1 in
    ((2 ≤ 3) × (run ≡ panicked))
    ⊎ ((3 < 2)
        × ((p' : AudioPacketSamplePadder) × (run
              ≡ done ([], record { padding = 0; made = 0; padder = p'; bytes = [] }))
            × (p'.current_byte_idx ≡ 7)))
unfolding size
packet_in_order_example =
    packet_in_order (sample_of u16) padder (9 ∷ 8 ∷ []) silent 0 refl (omega arith)

abbrev padding_iter : PadderIter
padding_iter = record { padding = 2; made = 0; padder = padder; bytes = 9 ∷ 8 ∷ [] }

pull_only_padding_example :
    (Consumer.pull (sample_of u16) silent 2 padding_iter ≡ panicked)
    ⊎ ((it' : PadderIter) × (Consumer.pull (sample_of u16) silent 2 padding_iter
          ≡ done (0 ∷ 0 ∷ [], it')))
unfolding size
pull_only_padding_example =
    pull_only_padding (sample_of u16) silent 2 padding_iter refl (omega arith)

-- Twelve bytes were lost.
plan_gap_lem_example :
    (todo : Plan) × (plan (sample_of u16) 5 17 ≡ done todo)
    × (todo.next_byte_idx % size u16 ≡ 0)
    × (17 ≤ todo.next_byte_idx)
    × (todo.next_byte_idx < 17 + size u16)
    × (todo.n_padding_spls * size u16 + 5 ≡ todo.next_byte_idx + 5 % size u16)
    × (todo.n_skipped_bytes ≡ (todo.next_byte_idx - 17) + (17 - 5))
unfolding size
plan_gap_lem_example = plan_gap_lem (sample_of u16) 5 17 (omega arith) (omega arith)
