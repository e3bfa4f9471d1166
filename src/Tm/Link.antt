-- ===== src/Tm/Link.antt =====
-- A sender and a receiver of telemetry together: what `osdlp_tm_transmit` queues, frame by frame in
-- `osdlp_tm_receive`, on channels that do not fill their frames.
pub mod Steps
pub mod Delivery
pub mod Units
pub mod Idle
pub mod Filled
use osdlp.Common.{
  ℕ, zero, suc, ◌+◌, ◌-◌, ◌*◌, ◌%◌, ◌≤◌, ◌<◌, ◌≡◌, refl, sym, ◌∙◌, ap, ℤ, pos, Bool, true, false,
  not, inl, inr, Bool-cases, List, [], ◌∷◌, ◌++◌, Option, some, none, arith, length, length-append,
  length-drop, length-take, take, drop, take-append-drop, ◌==◌, ltb, leb, if◌then◌else◌, is_neg,
  All, ==_iff,
}
use mathlib.Core.List.{append_assoc, append-nil}
use osdlp.Common.Memory.{◌>>=◌}
use osdlp.Crc.Laws.{IsByte}
use osdlp.Tm.Types.{TmPrimaryHdr, TmTransferFrame}
use osdlp.Tm.Host.{TmRxHost}
use osdlp.Tm.Setup.{tm_stuffing_off, tm_loop_closed}
use osdlp.Tm.Frame.{TmLayout, tm_frame, ocf_bytes, sec_hdr_bytes, IsTmHdr, IsTmLayout, HasLayout}
use osdlp.Tm.Frame.Unpack.{tm_received, behind_data}
use osdlp.Tm.Transmit.{bytes_avail, next_ptr}
use osdlp.Tm.Transmit.Frames.{next_hdr, tm_frames, next_hdr-IsTmHdr, take-IsByte, drop-IsByte}
use osdlp.Tm.Receive.{
  TmReceiver, tm_rx_pending, negated, put_tm_channel, tm_receive, receive_tm_data, buffer_more,
  set_buffer, append_packet, Handled,
}
use osdlp.Tm.Receive.Channel.{tm_receive-tm_frame}
use osdlp.Tm.Receive.Packets.{
  Collects, delivery_result, enqueued, continues, grown, last_chunk, next_chunk,
  next_chunk-Collects,
}

-- The frames one after the other: the status of each
unfoldable pub receive_tm_frames :
    {Q : Type 0} → TmRxHost Q → List (List ℕ) → TmReceiver Q → Option (List ℤ × TmReceiver Q)
receive_tm_frames h [] s = some ([], s)
receive_tm_frames h (f ∷ frames) s = do
  out ← tm_receive h f s
  later ← receive_tm_frames h frames out.1
  some (out.0 ∷ later.0, later.1)

-- That many frames pending, and the last status
abbrev pub pendings : ℕ → ℤ → List ℤ
pendings zero last = last ∷ []
pendings (suc n) last = negated tm_rx_pending ∷ pendings n last

-- The run delivers `sdu` to the application, in the buffer that starts with it, with the last of the
-- frames, and closes the loop.
pub record Delivered {Q : Type 0} (h : TmRxHost Q) (i vcid n : ℕ) (sdu : List ℕ) (q : Q)
    (run : Option (List ℤ × TmReceiver Q)) : Type 0 where
  pub end_state : TmReceiver Q
  pub behind : List ℕ
  pub returned :
      run
      ≡ some (
        pendings n (negated (delivery_result (h.rx_queue_enqueue (sdu ++ behind) vcid q).0)),
        end_state,
      )
  pub queues : end_state.queues ≡ (h.rx_queue_enqueue (sdu ++ behind) vcid q).1
  pub closed : (end_state.channels i).mission.util.loop_state ≡ tm_loop_closed
