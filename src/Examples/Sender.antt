-- ===== src/Examples/Sender.antt =====
-- The sender at concrete inputs: three frames are on their way, and one waits.
use osdlp.Common.{ℕ, ◌≡◌, refl, ◌<◌, ◌⊎◌, [], ◌∷◌, ◌++◌, some, pos, arith, ◌↔◌, List, ℤ}
use osdlp.Clcw.{ClcwFrame, clcw_unpack}
use osdlp.Clcw.RoundTrip.{IsClcw, clcw_bytes}
use osdlp.Tc.Types.{
  FopConfig, Notification, undef_error, alert_lockout, positive_dir, accept_dir, suspend, alert_t1,
}
use osdlp.Tc.Frame.Bounds.{HasRoom, ReturnsPacked, tc_pack_in_range}
use osdlp.Tc.Transmit.{tc_transmit}
use osdlp.Tc.Transmit.Progress.{tc_transmit-returns}
use osdlp.Cop.Sender.{Sender}
use osdlp.Cop.Directives.{resume_ad}
use osdlp.Cop.Table.Directives.{run_directive, with_clcw, run_directive-table}
use osdlp.Cop.Table.Suspension.{resume_ad-handle_timer_expired}
use osdlp.Cop.Host.{QueueItem}
use osdlp.Cop.Serves.{Fits, Ready}
use osdlp.Cop.Actions.Sent.{remove_acked_frames}
use osdlp.Cop.Dispatch.{
  handle_clcw, report_event, report_in_bounds, e13, handle_timer_expired, req_transfer_fdu,
}
use osdlp.Cop.Keeps.{Same}
use osdlp.Cop.Bounds.{IsOutstanding, report_event-e13_iff}
use osdlp.Cop.Acked.{remove_acked_frames-removes}
use osdlp.Cop.Table.Reports.{WithoutLimit, handle_clcw-table}
use osdlp.Cop.Table.Requests.{req_transfer_fdu-keeps}
use osdlp.Cop.Table.Timer.{handle_timer_expired-at_limit, handle_timer_expired-returns}
use osdlp.Cop.Table.Lockout.{handle_clcw_lockout}
use osdlp.Examples.Frames.{no_word, channel, fop, mission}
use osdlp.Examples.Queues.{
  Queues, list_host, AllFit, list_host-Serves, list_host-SentQueue, list_host-CanPurge,
}

abbrev item : ℕ → QueueItem
item n = record { fdu = n ∷ []; rt_flag = 0; seq_num = n; kind = 0 }

-- The frames 5, 6 and 7 are on their way; the next number is 8.
abbrev sender : Sender Queues
sender = record {
  tf = channel (record fop { vs = 8 });
  queues = record { wait = channel fop ∷ []; sent = item 5 ∷ item 6 ∷ item 7 ∷ []; out = [] };
}

sender_fits : Fits 6 (channel fop).frame_data
sender_fits = record { data_len = omega arith; bytes = omega arith }

mission_room : HasRoom mission 6 mission.util.buffer
mission_room = record {
  seg_hdr_flag = omega arith;
  fixed_overhead_len = refl;
  size = omega arith;
  room = omega arith;
}

sender-Ready : Ready AllFit 6 sender
sender-Ready = record { queues = (sender_fits, tt); frame = sender_fits; room = mission_room }

-- The report that the frames before 7 have arrived
abbrev word : ClcwFrame
word = record no_word { report_value = 7 }

handle_clcw-table_example :
    (n : Notification) × (t : Sender Queues) × (handle_clcw list_host
        (0x01 ∷ 0x14 ∷ 0x00 ∷ 0x07 ∷ [])
        sender
      ≡ some (n, t))
    × ((t.tf.cop_cfg.state ≡ 0) ⊎ ((n ≡ undef_error) × (t.tf.cop_cfg.state ≡ 0)))
    × (WithoutLimit sender.tf.cop_cfg word
        → ((n ≡ undef_error) × (t.tf.cop_cfg.signal ≡ undef_error) × (t.tf.cop_cfg.state ≡ 0)))
unfolding clcw_unpack report_event report_in_bounds
handle_clcw-table_example =
    handle_clcw-table list_host AllFit 6 list_host-Serves (0x01 ∷ 0x14 ∷ 0x00 ∷ 0x07 ∷ []) word
      sender refl sender-Ready

req_transfer_fdu-keeps_example :
    (n : Notification) × (t : Sender Queues) × (req_transfer_fdu list_host sender ≡ some (n, t))
    × (Same sender t × Ready AllFit 6 t)
req_transfer_fdu-keeps_example =
    req_transfer_fdu-keeps list_host AllFit 6 list_host-Serves sender sender-Ready

abbrev tired : Sender Queues
tired = record {
  tf = channel (record fop { tx_cnt = 3 });
  queues = record { wait = []; sent = item 5 ∷ []; out = [] };
}

tired-Ready : Ready AllFit 6 tired
tired-Ready = record { queues = tt; frame = sender_fits; room = mission_room }

handle_timer_expired-at_limit_example :
    handle_timer_expired list_host 2 tired
    ≡ some (
      alert_t1,
      record {
        tf = record (tired.tf) {
          cop_cfg = record (tired.tf.cop_cfg) { state = 5; signal = alert_t1 };
        };
        queues = record { wait = []; sent = []; out = [] };
      },
    )
handle_timer_expired-at_limit_example =
    handle_timer_expired-at_limit list_host 2 tired list_host-CanPurge (omega arith) (omega arith)
      (omega arith)

-- A command is on its way, in front of a frame.
abbrev commanding : Sender Queues
commanding = record tired {
  tf = channel (record fop { state = 4 });
  queues = record { wait = []; sent = record (item 5) { kind = 1 } ∷ item 5 ∷ []; out = [] };
}

commanding-Ready : Ready AllFit 6 commanding
commanding-Ready = record { queues = tt; frame = sender_fits; room = mission_room }

handle_timer_expired-returns_example :
    (n : Notification) × (t : Sender Queues) × (handle_timer_expired list_host 2 commanding
      ≡ some (n, t))
    × Ready AllFit 6 t
handle_timer_expired-returns_example =
    handle_timer_expired-returns list_host AllFit 6 list_host-Serves 2 commanding (omega arith)
      commanding-Ready

older : (n : ℕ) → n < 7 → ¬ (n ≡ 7)
older n lt e = absurd (omega arith)

remove_acked_frames-removes_example :
    (q : Queues) × (remove_acked_frames list_host 7 sender
      ≡ some
          (pos 0, record { tf = channel (record fop { vs = 8; nnr = 7; tx_cnt = 1 }); queues = q }))
    × (q.sent ≡ item 7 ∷ [])
remove_acked_frames-removes_example =
    remove_acked_frames-removes list_host (λ q. q.sent) list_host-SentQueue (item 5 ∷ item 6 ∷ [])
      (item 7) [] 7 sender refl (older 5 (omega arith), (older 6 (omega arith), tt)) refl
      (omega arith)

abbrev wrapped : FopConfig
wrapped = record fop { vs = 3; nnr = 250 }

abbrev first_number : ℕ
first_number = 250

report_event-e13_iff_example :
    (report_event wrapped (record no_word { report_value = 250 }) ≡ e13)
    ↔ (3 < 250 × ((first_number ≡ 250) ⊎ ¬ IsOutstanding 3 250 250))
report_event-e13_iff_example =
    report_event-e13_iff wrapped (record no_word { report_value = 250 }) (omega arith) (omega arith)
      (omega arith) refl (omega arith)

locked_word : IsClcw (record no_word { lockout = 1 })
locked_word = record {
  ctrl_word_type = omega arith;
  clcw_version_num = omega arith;
  status_field = omega arith;
  cop_in_effect = omega arith;
  vcid = omega arith;
  rsvd_spare1 = omega arith;
  rf_avail = omega arith;
  bit_lock = omega arith;
  lockout = omega arith;
  wait = omega arith;
  rt = omega arith;
  farm_b_counter = omega arith;
  rsvd_spare2 = omega arith;
  report_value = omega arith;
}

handle_clcw_lockout_example :
    handle_clcw list_host (clcw_bytes (record no_word { lockout = 1 }) ++ []) sender
    ≡ some (
      alert_lockout,
      record {
        tf = record (sender.tf) {
          mission = record mission { clcw = record no_word { lockout = 1 } };
          cop_cfg = record (sender.tf.cop_cfg) { state = 5; signal = alert_lockout };
        };
        queues = record { wait = []; sent = []; out = [] };
      },
    )
handle_clcw_lockout_example =
    handle_clcw_lockout list_host sender (record no_word { lockout = 1 }) [] list_host-CanPurge
      locked_word refl (omega arith)

tc_pack_in_range_example :
    ReturnsPacked (channel fop) mission.util.buffer (0xaa ∷ 0xbb ∷ 0xcc ∷ []) 3
tc_pack_in_range_example =
    tc_pack_in_range (channel fop) mission.util.buffer (0xaa ∷ 0xbb ∷ 0xcc ∷ []) 3 (omega arith)
      (record {
        seg_hdr_flag = omega arith;
        fixed_overhead_len = refl;
        size = omega arith;
        room = omega arith;
      })

-- A unit of nine bytes, more than a frame's share of six
abbrev unit : List ℕ
unit = 1 ∷ 2 ∷ 3 ∷ 4 ∷ 5 ∷ 6 ∷ 7 ∷ 8 ∷ 9 ∷ []

tc_transmit-returns_example :
    (status : ℤ) × (t : Sender Queues) × (tc_transmit list_host unit 9 tired ≡ some (status, t))
    × Ready AllFit 6 t
tc_transmit-returns_example =
    tc_transmit-returns list_host-Serves unit 9 tired (omega arith) (omega arith) (omega arith)
      (omega arith) (omega arith) tired-Ready

abbrev idle : Sender Queues
idle = record tired { tf = record (tired.tf) { cop_cfg = record fop { state = 5 } } }

run_directive-table_example :
    run_directive list_host with_clcw idle
    ≡ some (
      accept_dir,
      record {
        tf = record (idle.tf) {
          cop_cfg = record fop { state = 3; tx_cnt = 1; ss = 0; signal = accept_dir };
        };
        queues = record { wait = []; sent = []; out = [] };
      },
    )
run_directive-table_example =
    run_directive-table list_host with_clcw idle list_host-CanPurge (omega arith)

-- With timeout type 1, a service in its second state at the transmission limit
abbrev stuck : Sender Queues
stuck = record tired {
  tf = record (tired.tf) { cop_cfg = record fop { state = 1; tx_cnt = 3; tt = 1 } };
}

resume_ad-handle_timer_expired_example :
    (t : Sender Queues) × (handle_timer_expired list_host 2 stuck ≡ some (suspend, t))
    × (t.tf.cop_cfg.state ≡ 5)
    × (resume_ad list_host t
        ≡ some (
          positive_dir,
          record stuck {
            tf = record (stuck.tf) {
              cop_cfg = record (stuck.tf.cop_cfg) { ss = 0; signal = positive_dir };
            };
          },
        ))
resume_ad-handle_timer_expired_example =
    resume_ad-handle_timer_expired list_host 2 stuck (λ vcid q. refl) refl (omega arith)
      (omega arith)
