-- ===== src/Jack/Tests.antt =====
-- A concrete pair of ports, and the theorems about the JACK client at them.
use syfala_test.Common.{
  ℕ, some, ◌+◌, ◌-◌, ◌*◌, ◌%◌, ◌≡◌, refl, done, List, [], ◌∷◌, window, arith, inr, Each,
}
use syfala_test.Utils.Counter.{GenericCounter, generic_counter}
use syfala_test.Utils.Queue.History.{IsSynced}
use syfala_test.Utils.Tests.{list_rx, Tape, tape_tx, at, silent}
use syfala_test.Jack.Interleaver.{Interleaved, interleave, pull, len, next, step, get_ref}
use syfala_test.Jack.Interleaver.Cells.{nth}
use syfala_test.Jack.Interleaver.Order.{interleave_lem}
use syfala_test.Jack.Process.Cycle.{InTune, TxReady, RxReady, process-InTune}
use syfala_test.Jack.Process.{
  DuplexProcessHandler, Write, process, Interleaver, ProcessScope, JackTx, JackRx, process_tx,
  process_rx,
}
use syfala_test.Jack.Process.Transmit.{IsSmall, stream, process_tx-IsSynced}
use syfala_test.Jack.Process.Receive.{process_rx_lem}

-- Three calls on two ports of two frames leave one sample, but `len` says 2.
len_overcounts :
    (it : Interleaved) × (pull 2 3 (interleave 2 2) ≡ done ((0, 0) ∷ (1, 0) ∷ (0, 1) ∷ [], it))
    × (len it ≡ 2)
unfolding pull interleave next step get_ref len
len_overcounts = (_, refl, refl)

interleave_lem_example :
    (it : Interleaved) × (pull 2 3 (interleave 2 2) ≡ done (window (nth 2) 0 3, it))
    × (len it ≡ 4 - 3 + 3 % 2)
interleave_lem_example = interleave_lem 2 2 3 (omega arith) (omega arith) (omega arith)

-- The ports 7 and 8.
abbrev stereo : Interleaver
stereo = record { n_ports = 2; port = λ p. p + 7 }

-- Frame `f` of port `p`.
abbrev audio : ℕ → ℕ → ℕ
audio p f = 1000 * p + f

-- Two frames, from frame 5 on.
abbrev cycle : ProcessScope ℕ
cycle = record { last_frame_time = 905; n_frames = 2; as_slice = λ p f. audio p (5 + f) }

cycle-IsSmall : IsSmall stereo cycle
cycle-IsSmall = record { positive = omega arith; ports = omega arith; frames = omega arith }

abbrev transmit : JackTx GenericCounter Tape
transmit = record {
  interleaver = stereo;
  tx = record { counter = at 0; tx = record { slots = 12; content = [] } };
}

transmit-IsSynced : IsSynced tape_tx (stream audio stereo) 0 transmit.tx
transmit-IsSynced = record {
  content = silent;
  written = refl;
  honest = λ p. inr refl;
  small = omega arith;
}

process_tx-IsSynced_example :
    (t' : JackTx GenericCounter Tape) × (process_tx tape_tx 0 cycle 5 transmit ≡ done t')
    × (t'.interleaver ≡ stereo)
    × IsSynced tape_tx (stream audio stereo) 0 t'.tx
process_tx-IsSynced_example =
    process_tx-IsSynced tape_tx 0 audio cycle 5 transmit cycle-IsSmall (λ p f h. refl) (omega arith)
      transmit-IsSynced

abbrev hundreds : ℕ → ℕ
hundreds k = 100 + k

abbrev receive : JackRx GenericCounter (List ℕ)
receive = record {
  rx = record { rx = 111 ∷ 112 ∷ 113 ∷ []; counter = at 11 };
  interleaver = stereo;
}

-- The first sample of the cycle, with index 10, is not in the queue any more.
process_rx_lem_example :
    (r' : JackRx GenericCounter (List ℕ)) × (process_rx list_rx 0 cycle 5 receive
      ≡ done (((7, 0), 0) ∷ ((8, 0), 111) ∷ ((7, 1), 112) ∷ ((8, 1), 113) ∷ [], r'))
    × (r'.interleaver ≡ stereo)
    × (r'.rx.rx ≡ window hundreds r'.rx.counter.value (3 - (r'.rx.counter.value - 11)))
process_rx_lem_example =
    process_rx_lem list_rx 0 cycle 5 receive hundreds 3 cycle-IsSmall refl
      (omega arith, omega arith) (omega arith) (omega arith)

-- A callback whose first cycle was at frame time 900.
abbrev handler : DuplexProcessHandler GenericCounter GenericCounter Tape (List ℕ)
handler = record { txs = transmit ∷ []; rxs = receive ∷ []; start_frame_idx = some 900 }

transmit-TxReady : TxReady tape_tx list_rx 0 audio cycle 5 transmit
transmit-TxReady = record { sizes = cycle-IsSmall; low = omega arith; tuned = transmit-IsSynced }

receive-RxReady : RxReady tape_tx list_rx 0 audio cycle 5 receive
receive-RxReady = record {
  sizes = cycle-IsSmall;
  elements = hundreds;
  len = 3;
  carries = refl;
  reach = (omega arith, omega arith);
  low = omega arith;
  fits = omega arith;
}

process-InTune_example :
    (out : List (Write ℕ)) × (h' : DuplexProcessHandler GenericCounter GenericCounter Tape (List ℕ))
    × (process tape_tx list_rx 0 cycle handler ≡ done (out, h'))
    × Each (InTune tape_tx list_rx 0 audio) h'.txs
    × (h'.start_frame_idx ≡ some 900)
process-InTune_example =
    process-InTune tape_tx list_rx 0 audio cycle handler (omega arith) (λ p f h. refl)
      (transmit-TxReady, tt) (receive-RxReady, tt)

-- Two more frames, from frame 10 on.
abbrev later_cycle : ProcessScope ℕ
later_cycle = record { last_frame_time = 910; n_frames = 2; as_slice = λ p f. audio p (10 + f) }

abbrev recorder : DuplexProcessHandler GenericCounter GenericCounter Tape (List ℕ)
recorder = record { txs = transmit ∷ []; rxs = []; start_frame_idx = some 900 }
