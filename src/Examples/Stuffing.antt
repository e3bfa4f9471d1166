-- ===== src/Examples/Stuffing.antt =====
-- Telemetry at concrete inputs: a frame that is filled with packets, and an idle frame.
use osdlp.Common.{
  ℕ, ◌≡◌, refl, pos, List, [], ◌∷◌, ◌++◌, some, arith, take, ℤ, Bool-cases, negsuc, ltb,
  if◌then◌else◌, ◌&&◌, leb, inl, inr,
}
use osdlp.Tm.Types.{TmTransferFrame}
use osdlp.Tm.Host.{TmRxHost}
use osdlp.Tm.Setup.{tm_loop_closed}
use osdlp.Tm.Frame.{layout, tm_frame, IsTmHdr, IsTmLayout, HasLayout}
use osdlp.Tm.Transmit.{packets_needed, handle_pkt_stuffing, tm_transmit_idle_fdu}
use osdlp.Tm.Transmit.Filling.{handle_pkt_stuffing-eq-tm_frame}
use osdlp.Tm.Receive.{TmReceiver, tm_receive, receive_tm_data}
use osdlp.Tm.Receive.Stuffed.{IsPacket}
use osdlp.Tm.Receive.Safety.{IsTmBuffered, Measures}
use osdlp.Tm.Receive.InRange.{receive_tm_data_in_range}
use osdlp.Tm.Link.Idle.{tm_receive-tm_transmit_idle_fdu}
use osdlp.Tm.Link.Filled.{tm_receive-joined}
use osdlp.Examples.Downlink.{
  zeros, sender, first_byte, tx_host, rx_host, receiver, sender-IsTmSender, sender-HasLayout,
  tx_host-Queues,
}

-- Frames of twenty bytes, eight of them data, that are filled
abbrev wide : TmTransferFrame
wide = record sender {
  mission = record (sender.mission) { frame_len = 20; max_data_len = 8; stuff_state = 0 };
}

abbrev packet_at : List ℕ → List ℕ
packet_at [] = []
packet_at (b ∷ buf) = take b (b ∷ buf)

abbrev packets_host : TmRxHost (List (List ℕ))
packets_host = record {
  get_rx_config = λ vcid q. (pos 0, 0);
  rx_queue_enqueue = λ buf vcid q. (pos 0, q ++ (packet_at buf ∷ []));
  get_packet_len = λ buf n. first_byte buf;
}

abbrev packets_receiver : TmReceiver (List (List ℕ))
packets_receiver = record { channels = λ i. wide; queues = (9 ∷ []) ∷ [] }

wide-IsTmHdr : IsTmHdr wide.primary_hdr
wide-IsTmHdr = omega arith

wide-IsTmLayout : IsTmLayout (layout wide)
wide-IsTmLayout = omega arith

wide-HasLayout : HasLayout wide wide.primary_hdr (layout wide)
wide-HasLayout = omega arith

first-IsPacket : IsPacket packets_host (λ (q : List (List ℕ)). q) 8 (3 ∷ 1 ∷ 2 ∷ [])
first-IsPacket = record {
  first = 3;
  others = 1 ∷ 2 ∷ [];
  nonempty = refl;
  not_idle = refl;
  fits = omega arith;
  status = pos 0;
  told = λ behind n long. refl;
  found = refl;
  accepted = λ behind vcid q. refl;
  queued = λ behind vcid q. refl;
}

second-IsPacket : IsPacket packets_host (λ (q : List (List ℕ)). q) 8 (2 ∷ 7 ∷ [])
second-IsPacket = record {
  first = 2;
  others = 7 ∷ [];
  nonempty = refl;
  not_idle = refl;
  fits = omega arith;
  status = pos 0;
  told = λ behind n long. refl;
  found = refl;
  accepted = λ behind vcid q. refl;
  queued = λ behind vcid q. refl;
}

two_needed : packets_needed 8 10 ≡ some 2
unfolding packets_needed
two_needed = refl

handle_pkt_stuffing-eq-tm_frame_example :
    handle_pkt_stuffing wide 2
      (tm_frame wide.primary_hdr (layout wide) (3 ∷ 1 ∷ 2 ∷ []) ++ (9 ∷ []))
      ((7 ∷ 1 ∷ 2 ∷ 3 ∷ 4 ∷ 5 ∷ 6 ∷ []) ++ (8 ∷ []))
      7
      3
    ≡ some (
      tm_frame wide.primary_hdr (layout wide) (3 ∷ 1 ∷ 2 ∷ 7 ∷ 1 ∷ 2 ∷ 3 ∷ 4 ∷ []) ++ (9 ∷ []),
      2,
    )
handle_pkt_stuffing-eq-tm_frame_example =
    handle_pkt_stuffing-eq-tm_frame wide wide.primary_hdr (layout wide) (3 ∷ 1 ∷ 2 ∷ []) (9 ∷ [])
      wide-HasLayout (7 ∷ 1 ∷ 2 ∷ 3 ∷ 4 ∷ 5 ∷ 6 ∷ []) (8 ∷ []) 2 wide-IsTmHdr wide-IsTmLayout
      (omega arith) (omega arith) (omega arith) (omega arith) two_needed

tm_receive-joined_example :
    (s' : TmReceiver (List (List ℕ))) × (tm_receive packets_host
        (tm_frame wide.primary_hdr (layout wide) (3 ∷ 1 ∷ 2 ∷ 2 ∷ 7 ∷ []))
        packets_receiver
      ≡ some (pos 0, s'))
    × (s'.queues ≡ (9 ∷ []) ∷ (3 ∷ 1 ∷ 2 ∷ []) ∷ (2 ∷ 7 ∷ []) ∷ [])
    × ((s'.channels 0).mission.util.loop_state ≡ tm_loop_closed)
    × ((s'.channels 0).mission.util.buffered_length ≡ 0)
tm_receive-joined_example =
    tm_receive-joined packets_host (λ (q : List (List ℕ)). q) 8 wide.primary_hdr (layout wide)
      (3 ∷ 1 ∷ 2 ∷ []) ((2 ∷ 7 ∷ []) ∷ []) packets_receiver 0 (pos 0) wide wide-IsTmHdr
      wide-IsTmLayout wide-HasLayout refl refl refl (omega arith) (omega arith)
      (first-IsPacket, (second-IsPacket, tt)) (omega arith) refl refl refl

tm_receive-tm_transmit_idle_fdu_example :
    (tf' : TmTransferFrame) × (q' : List (List ℕ)) × (f : List ℕ) × (s' : TmReceiver
      (List (List ℕ)))
    × (tm_transmit_idle_fdu tx_host sender 3 [] ≡ some (pos 0, tf', q'))
    × (q' ≡ [] ++ (f ∷ []))
    × (tm_receive rx_host f receiver ≡ some (pos 3, s'))
    × (s'.queues ≡ [])
    × ((s'.channels 0).mission ≡ sender.mission)
    × ((s'.channels 0).primary_hdr.mc_frame_cnt ≡ 254)
    × ((s'.channels 0).primary_hdr.vc_frame_cnt ≡ 8)
tm_receive-tm_transmit_idle_fdu_example =
    tm_receive-tm_transmit_idle_fdu tx_host rx_host 0 (λ (q : List (List ℕ)). q) sender sender
      receiver 3 [] (pos 0) tx_host-Queues sender-IsTmSender refl sender-HasLayout refl refl refl

-- Packets of one to eight bytes
abbrev short_packet : List ℕ → ℤ × ℕ
short_packet [] = (negsuc 0, 0)
short_packet (b ∷ buf) = if ltb 0 b && leb b 8 then (pos 0, b) else (negsuc 0, 0)

abbrev short_host : TmRxHost (List (List ℕ))
short_host = record packets_host { get_packet_len = λ buf n. short_packet buf }

short_host-Measures : Measures short_host 8
short_host-Measures [] n e = absurd (ground arith)
short_host-Measures (b ∷ buf) n e = elim (Bool-cases (ltb 0 b && leb b 8)) [
  | inl short ↦ rw short (ground arith)
  | inr other ↦ absurd (ground arith)
]

-- The last two bytes of a packet of five, of which three are buffered, and a packet behind them
abbrev half_received : TmTransferFrame
half_received = record wide {
  primary_hdr = record (wide.primary_hdr) {
    status = record (wide.primary_hdr.status) { first_hdr_ptr = 2 };
  };
  bytes = 3 ∷ 4 ∷ 3 ∷ 1 ∷ 2 ∷ 0xe0 ∷ 0xe0 ∷ 0xe0 ∷ [];
  mission = record (wide.mission) {
    util = record {
      buffer = 5 ∷ 1 ∷ 2 ∷ zeros;
      buffered_length = 3;
      loop_state = 0;
      expected_pkt_len = 5;
    };
  };
}

half_received-IsTmBuffered : IsTmBuffered half_received.mission
half_received-IsTmBuffered = record {
  width = omega arith;
  max_data_len = omega arith;
  room = omega arith;
  in_loop = λ is_open. omega arith;
  expected = omega arith;
}

receive_tm_data_in_range_example :
    (status : ℤ) × (tf' : TmTransferFrame) × (q' : List (List ℕ)) × (receive_tm_data short_host
        half_received []
      ≡ some (status, tf', q'))
    × IsTmBuffered tf'.mission
receive_tm_data_in_range_example =
    receive_tm_data_in_range short_host half_received [] half_received-IsTmBuffered
      short_host-Measures (omega arith) (λ not_oid starts. omega arith)
