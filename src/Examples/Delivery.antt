-- ===== src/Examples/Delivery.antt =====
-- The receiver of telecommand frames at concrete inputs.
use osdlp.Common.{ℕ, ◌≡◌, refl, ℤ, pos, false, List, [], ◌∷◌, ◌++◌, some, arith}
use osdlp.Tc.Types.{tc_first_seg, FarmConfig, TransferFrame, cop_enq, cop_priority_enq}
use osdlp.Tc.Receive.{RxHost, receive_fdu, tc_rx_ok}
use osdlp.Tc.Receive.Segments.{receive_segments, ending, Awaits}
use osdlp.Tc.Receive.Reassembly.{Delivers, segments-delivered}
use osdlp.Tc.Receive.Safety.{IsBuffered, receive_fdu_in_range}
use osdlp.Examples.Frames.{channel, farm, mission}

-- An application that keeps what it gets in a list, with a frame of priority in front.
abbrev rx_host : RxHost (List (List ℕ × ℕ))
rx_host = record {
  get_rx_config = λ vcid q. (pos 0, 0);
  rx_queue_full = λ vcid q. false;
  rx_queue_enqueue = λ bytes len vcid q. (pos 0, q ++ ((bytes, len) ∷ []));
  rx_queue_enqueue_now = λ bytes len vcid q. (pos 0, (bytes, len) ∷ q);
}

mission-Awaits : Awaits (channel farm)
mission-Awaits = record {
  seg_hdr_flag = refl;
  loop_state = refl;
  room = omega arith;
  width = omega arith;
}

segments-delivered_example :
    Delivers rx_host 5 cop_enq
      (1 ∷ 2 ∷ 3 ∷ 4 ∷ 5 ∷ [])
      []
      (receive_segments rx_host cop_enq 5
        (record { seq_flag = tc_first_seg; bytes = 1 ∷ 2 ∷ []; rest = 9 ∷ [] }
          ∷ ending ((3 ∷ [], []) ∷ []) (4 ∷ 5 ∷ []) [])
        (channel farm)
        [])
      (λ status. tc_rx_ok ∷ tc_rx_ok ∷ status ∷ [])
segments-delivered_example =
    segments-delivered rx_host 5 cop_enq (channel farm) (1 ∷ 2 ∷ []) (9 ∷ []) ((3 ∷ [], []) ∷ [])
      (4 ∷ 5 ∷ []) [] [] refl mission-Awaits (omega arith) (omega arith)

mission-IsBuffered : IsBuffered mission
mission-IsBuffered = record {
  max_data_len = omega arith;
  room = omega arith;
  in_loop = λ e. absurd (omega (arith, e));
}

receive_fdu_in_range_example :
    (status : ℤ) × (tf : TransferFrame FarmConfig) × (q : List (List ℕ × ℕ)) × (receive_fdu rx_host
        cop_priority_enq 5
        (channel farm)
        []
      ≡ some (status, tf, q))
    × IsBuffered tf.mission
receive_fdu_in_range_example =
    receive_fdu_in_range rx_host cop_priority_enq 5 (channel farm) [] mission-IsBuffered
      (omega arith)
