-- ===== src/Examples/Downlink.antt =====
-- A telemetry link at concrete inputs: a sender, its queue, and a receiver whose packets start with
-- their length.
use osdlp.Common.{
  ℕ, ◌≡◌, refl, ◌-◌, ◌≤◌, ◌<◌, ◌*◌, ◌⊎◌, ℤ, pos, negsuc, false, List, [], ◌∷◌, ◌++◌, some, arith,
  take, true,
}
use osdlp.Common.Memory.{◌>>=◌}
use osdlp.Tm.Types.{TmTransferFrame}
use osdlp.Tm.Host.{TmTxHost, TmRxHost}
use osdlp.Crc.{calc_crc, crc_loop, crc_step}
use osdlp.Crc.Table.{crc_table}
use osdlp.Tm.{
  tm_pack, tm_unpack, store_tm_hdr, store_tm_data, store_sec_hdr, seal_tm, store_tm_crc,
  load_tm_hdr,
}
use osdlp.Tm.Frame.{layout, tm_frame, tm_sum, IsTmHdr, IsTmLayout, HasLayout}
use osdlp.Tm.Frame.Pack.{tm_pack-eq-tm_frame}
use osdlp.Tm.Frame.Unpack.{tm_received, tm_unpack-tm_pack}
use osdlp.Tm.Transmit.{tm_transmit, packets_needed, fill_packets, pack_into_util, next_tm_frame}
use osdlp.Tm.Transmit.Frames.{Queues, IsTmSender}
use osdlp.Tm.Transmit.Units.{unit_frames, tm_transmit-frames}
use osdlp.Tm.Receive.{
  TmReceiver, tm_receive, receive_tm_data, handle_rx_no_stuffing, handle_ns_ptr_zero,
  handle_ns_ptr_positive, append_packet, deliver_packet,
}
use osdlp.Tm.Link.{Delivered, receive_tm_frames}
use osdlp.Tm.Link.Steps.{Hears}
use osdlp.Tm.Link.Units.{tm_transmit-Delivered}

abbrev pub zeros : List ℕ
zeros = 0 ∷ 0 ∷ 0 ∷ 0 ∷ 0 ∷ 0 ∷ 0 ∷ 0 ∷ 0 ∷ 0 ∷ 0 ∷ 0 ∷ 0 ∷ 0 ∷ []

-- Frames of fourteen bytes: six of header, two of data, four behind them, and two of checksum
abbrev pub sender : TmTransferFrame
sender = record {
  primary_hdr = record {
    mcid = record { version_num = 0; spacecraft_id = 0x155 };
    vcid = 3;
    ocf = 1;
    mc_frame_cnt = 254;
    vc_frame_cnt = 8;
    status = record { sec_hdr = 0; sync = 0; pkt_order = 0; seg_len_id = 3; first_hdr_ptr = 0 };
  };
  secondary_hdr = record {
    sec_hdr_id = record { version_num = 0; length = 0 };
    sec_hdr_data_field = [];
  };
  ocf = 1 ∷ 20 ∷ 0 ∷ 7 ∷ [];
  crc = 0;
  bytes = [];
  mission = record {
    util = record { buffer = zeros; buffered_length = 0; loop_state = 1; expected_pkt_len = 0 };
    frame_len = 14;
    header_len = 6;
    max_data_len = 2;
    max_sdu_len = 8;
    crc_present = 1;
    max_vcs = 8;
    tx_fifo_max_size = 4;
    vcid = 3;
    stuff_state = 1;
    ocf_type = 0;
  };
}

-- A packet of five bytes
abbrev sdu : List ℕ
sdu = 5 ∷ 1 ∷ 2 ∷ 3 ∷ 4 ∷ []

abbrev pub tx_host : TmTxHost (List (List ℕ))
tx_host = record {
  tx_queue_empty = λ vcid q. false;
  tx_queue_back = λ vcid q. (negsuc 0, []);
  set_back = λ buf vcid q. q;
  tx_commit_back = λ vcid q. q;
  tx_queue_enqueue = λ buf vcid q. (pos 0, q ++ (take 14 buf ∷ []));
  get_packet_len = λ buf n. (pos 0, 5);
}

abbrev pub first_byte : List ℕ → ℤ × ℕ
first_byte [] = (negsuc 0, 0)
first_byte (b ∷ buf) = (pos 0, b)

abbrev pub rx_host : TmRxHost (List (List ℕ))
rx_host = record {
  get_rx_config = λ vcid q. (pos 0, 0);
  rx_queue_enqueue = λ buf vcid q. (pos 0, q ++ (buf ∷ []));
  get_packet_len = λ buf n. first_byte buf;
}

abbrev pub receiver : TmReceiver (List (List ℕ))
receiver = record { channels = λ i. sender; queues = [] }

sender-IsTmHdr : IsTmHdr sender.primary_hdr
sender-IsTmHdr = omega arith

sender-IsTmLayout : IsTmLayout (layout sender)
sender-IsTmLayout = omega arith

pub sender-HasLayout : HasLayout sender sender.primary_hdr (layout sender)
sender-HasLayout = omega arith

pub sender-IsTmSender : IsTmSender sender
sender-IsTmSender = record {
  hdr = sender-IsTmHdr;
  parts = sender-IsTmLayout;
  sizes = sender-HasLayout;
  room = omega arith;
}

pub tx_host-Queues : Queues tx_host (λ (q : List (List ℕ)). q) 14
tx_host-Queues = record { accepts = λ buf vcid q. refl; queued = λ buf vcid q. refl }

tm_pack-eq-tm_frame_example :
    tm_pack sender (zeros ++ (9 ∷ [])) (7 ∷ 8 ∷ []) 1
    ≡ some (
      tm_frame sender.primary_hdr (layout sender) (7 ∷ []) ++ (9 ∷ []),
      record sender { crc = tm_sum sender.primary_hdr (layout sender) (7 ∷ []) },
    )
tm_pack-eq-tm_frame_example =
    tm_pack-eq-tm_frame sender (7 ∷ []) (8 ∷ []) zeros (9 ∷ []) sender-IsTmHdr sender-IsTmLayout
      sender-HasLayout (omega arith) (omega arith) (omega arith)

tm_unpack-tm_pack_example :
    (tm_pack sender (zeros ++ (9 ∷ [])) (7 ∷ 8 ∷ []) 1 >>= λ packed. tm_unpack sender packed.0)
    ≡ some (tm_received sender.primary_hdr (layout sender) (7 ∷ []) (9 ∷ []) sender)
tm_unpack-tm_pack_example =
    tm_unpack-tm_pack sender sender (7 ∷ []) (8 ∷ []) zeros (9 ∷ []) sender-IsTmHdr
      sender-IsTmLayout sender-HasLayout sender-HasLayout (omega arith) (omega arith) (omega arith)

tm_transmit-frames_example :
    (n : ℕ) × (tf : TmTransferFrame) × (q : List (List ℕ)) × (tm_transmit tx_host sender sdu 5 []
      ≡ some (pos 0, tf, q))
    × (q ≡ [] ++ unit_frames n true sender.primary_hdr (layout sender) sdu)
    × (tf.mission.util.loop_state ≡ 1)
    × (5 ≤ n * 2)
    × (n ≡ 1 ⊎ (n - 1) * 2 < 5)
tm_transmit-frames_example =
    tm_transmit-frames tx_host (λ (q : List (List ℕ)). q) 14 tx_host-Queues sender sdu [] []
      sender-IsTmSender refl (omega arith) refl refl (omega arith) (omega arith)

sender-Hears : Hears rx_host 0 sender sender.primary_hdr (layout sender) receiver
sender-Hears = record {
  fields = sender-IsTmHdr;
  parts = sender-IsTmLayout;
  sizes = sender-HasLayout;
  summed = refl;
  stuff_state = refl;
  some_data = omega arith;
  most_data = omega arith;
  status = pos 0;
  config = refl;
  found = refl;
  channel = refl;
}

tm_transmit-Delivered_example :
    (n : ℕ) × (tf : TmTransferFrame) × (q frames : List (List ℕ)) × (tm_transmit tx_host sender sdu
        5 []
      ≡ some (pos 0, tf, q))
    × (q ≡ [] ++ frames)
    × Delivered rx_host 0 3 n sdu [] (receive_tm_frames rx_host frames receiver)
tm_transmit-Delivered_example =
    tm_transmit-Delivered tx_host rx_host 0 (λ (q : List (List ℕ)). q) sender sender receiver sdu []
      [] tx_host-Queues sender-IsTmSender refl refl sender-Hears (omega arith)
      (record { status = pos 0; told = λ behind. refl; found = refl }) (omega arith)

-- The run itself: three frames, two pending and the last delivered
run_example :
    (tm_transmit tx_host sender sdu 5 [] >>= λ sent.
    receive_tm_frames rx_host sent.2 receiver >>= λ got.
    let both : List ℤ × List (List ℕ) = (got.0, got.1.queues) in some both)
    ≡ some (
      negsuc 0 ∷ negsuc 0 ∷ pos 0 ∷ [],
      (5 ∷ 1 ∷ 2 ∷ 3 ∷ 4 ∷ 0 ∷ 0 ∷ 0 ∷ 0 ∷ 0 ∷ 0 ∷ 0 ∷ 0 ∷ 0 ∷ []) ∷ [],
    )
unfolding tm_transmit packets_needed fill_packets pack_into_util next_tm_frame tm_pack store_tm_hdr
    store_tm_data store_sec_hdr seal_tm store_tm_crc calc_crc crc_loop crc_step crc_table
    receive_tm_frames tm_receive tm_unpack load_tm_hdr receive_tm_data handle_rx_no_stuffing
    handle_ns_ptr_zero handle_ns_ptr_positive append_packet deliver_packet
run_example = refl
