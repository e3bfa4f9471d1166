-- ===== src/Examples/Receiver.antt =====
-- FARM-1 at concrete inputs.
use osdlp.Common.{ℕ, ◌≡◌, ◌≢◌, ◌↔◌, refl, false, true, List, [], ◌∷◌, some, arith, length, ◌%◌, ◌+◌}
use osdlp.Tc.Types.{FarmConfig, FarmResult, TransferFrame, cop_discard}
use osdlp.Cop.Farm.{
  farm_state_lockout, farm_state_open, farm_1, farm_e5, handle_farm_typea, reset_wait,
}
use osdlp.Cop.Farm.Invariant.{
  IsFarm, LockedOut, farm_1-IsFarm, lockout_holds, reset_wait-IsFarm_iff,
}
use osdlp.Cop.Farm.Sequence.{Arrival, receive_all, count_from, receive_all_in_order}
use osdlp.Cop.Farm.Window.{
  handle_farm_typea-windows, repeated_frame_locks_out, window_end_locks_out_iff,
}
use osdlp.Examples.Frames.{farm, channel, primary_hdr, frame_data}

abbrev numbered : ℕ → FarmConfig → TransferFrame FarmConfig
numbered seq f = record (channel f) { primary_hdr = record primary_hdr { frame_seq_num = seq } }

-- A frame with a sequence number.
abbrev arrival : ℕ → Arrival
arrival seq = record {
  rx_queue_full = false;
  primary_hdr = record primary_hdr { frame_seq_num = seq };
  frame_data = frame_data (1 ∷ 2 ∷ 3 ∷ []) 3;
}

abbrev locked : FarmConfig
locked = record farm { state = 2; lockout = 1 }

receive_all_in_order_example :
    let a = arrival 7 ∷ arrival 9 ∷ arrival 7 ∷ arrival 8 ∷ [] in
    (seqs : List ℕ) × (last : TransferFrame FarmConfig) × (receive_all (channel farm) a
      ≡ some (seqs, last))
    × (seqs ≡ count_from 7 (length seqs))
    × (last.cop_cfg.vr ≡ (7 + length seqs) % 256)
receive_all_in_order_example =
    receive_all_in_order (channel farm) (arrival 7 ∷ arrival 9 ∷ arrival 7 ∷ arrival 8 ∷ [])
      (omega arith) (ground arith) (omega arith)

farm_1-IsFarm_example :
    (r : FarmResult) × (f : FarmConfig) × (farm_1 true (channel farm) ≡ some (r, f)) × IsFarm f
farm_1-IsFarm_example = farm_1-IsFarm true (channel farm) (omega arith) (omega arith) (ground arith)

lockout_holds_example :
    (r : FarmResult) × (f : FarmConfig) × (farm_1 false (channel locked) ≡ some (r, f))
    × LockedOut (channel locked) r f
lockout_holds_example = lockout_holds false (channel locked) (omega arith) refl

reset_wait-IsFarm_iff_example :
    (IsFarm (reset_wait locked) ↔ (locked.state ≢ farm_state_lockout))
    × (locked.state ≡ farm_state_lockout
        → ((reset_wait locked).state ≡ farm_state_open × (reset_wait locked).lockout ≡ 1))
reset_wait-IsFarm_iff_example = reset_wait-IsFarm_iff locked (ground arith)

handle_farm_typea-windows_example : handle_farm_typea false (numbered 100 farm) ≡ farm_e5 farm
handle_farm_typea-windows_example =
    handle_farm_typea-windows false (numbered 100 farm) (omega arith) (omega arith)

repeated_frame_locks_out_example :
    handle_farm_typea false (numbered 255 (record farm { vr = 0 }))
    ≡ (cop_discard, record farm { vr = 0; state = farm_state_lockout; lockout = 1 })
repeated_frame_locks_out_example =
    repeated_frame_locks_out false (numbered 255 (record farm { vr = 0 })) (omega arith) refl refl
      refl

-- V(R) = 254 and PW = 5: the window ends at 258, which is 2.
window_end_locks_out_iff_example :
    handle_farm_typea false (numbered 2 (record farm { vr = 254 }))
    ≡ (cop_discard, record farm { vr = 254; state = farm_state_lockout; lockout = 1 })
window_end_locks_out_iff_example =
    window_end_locks_out_iff false (numbered 2 (record farm { vr = 254 })) (omega arith)
      (omega arith) refl refl
