-- ===== src/Tc/Transmit/Progress.antt =====
-- The loop of `osdlp_tc_transmit` ends.
use osdlp.Common.{
  [], ℕ, zero, suc, ◌+◌, ◌-◌, ◌%◌, ◌^◌, ◌≤◌, ◌<◌, ◌≡◌, refl, inl, inr, ℤ, List, some, arith, length,
  false, Bool-cases, ◌==◌, ◌∷◌, ◌/◌, ◌∙◌,
}
use osdlp.Tc.Types.{
  accept_dir, reject_dir, positive_dir, negative_dir, suspend, alert_limit, alert_t1, alert_lockout,
  alert_synch, alert_nnr, alert_clcw, alert_llif, alert_term, positive_tx, negative_tx, delay_resp,
  undef_error, ignore, na, SegmentStatus, Notification, reject_tx, accept_tx,
}
use native.Mathlib.Nat.{le-div_iff_mul-le}
use osdlp.Common.Memory.{pointer_at}
use osdlp.Cop.Host.{Host}
use osdlp.Cop.Serves.{Serves, Ready}
use osdlp.Cop.Sender.{Sender, Fop, ◌>>=◌, ◌>>◌, pure, get_tf, set_tf, set_fop, ask, filled}
use osdlp.Cop.Dispatch.{req_transfer_fdu}
use osdlp.Cop.Keeps.{Leaves, Leaves-bind, Leaves-some}
use osdlp.Cop.Keeps.Calls.{set_fop-Ready}
use osdlp.Cop.Table.Requests.{req_transfer_fdu-Keeps}
use osdlp.Tc.Transmit.{
  next_len, next_frame, set_seg_status, signal_error, end_with, handle_response, transmit_loop,
  remaining_at, tc_transmit,
}

-- The pointer to a place in the buffer, or one past its end
pointer_in :
    (buf : List ℕ) (i : ℕ)
    → i ≤ length buf
    → (p : List ℕ) × (pointer_at buf i ≡ some p) × (length p + i ≡ length buf)
pointer_in buf zero h = (buf, refl, omega arith)
pointer_in [] (suc i) h = absurd (omega arith)
pointer_in (x ∷ xs) (suc i) h =
    let (p, at, n) = pointer_in xs i (omega arith) in (p, at, omega arith)

div_le : (most remaining : ℕ) → 1 ≤ most → 0 < remaining / most → most ≤ remaining
div_le most remaining p q =
    omega
      (arith, (le-div_iff_mul-le {k = most} {x = 1} {y = remaining} (omega arith)).0 (omega arith))

next_len_bounds :
    (most remaining : ℕ)
    → 1 ≤ most
    → 1 ≤ remaining
    → (1 ≤ next_len most remaining)
      × (next_len most remaining ≤ remaining)
      × (next_len most remaining ≤ most)
next_len_bounds most remaining p q = ground (arith, div_le most remaining)

module _ {Q : Type 0} {h : Host Q} {Ok : Q → Type 0} {size : ℕ} (serves : Serves h Ok size) where
  -- The sender between two segments
  abbrev ReadyFor : ℕ → Sender Q → Type 0
  ReadyFor most s = Ready Ok size s × (s.tf.mission.max_data_len ≡ most)

  with_status :
      (most : ℕ) (s : Sender Q) (status : SegmentStatus)
      → ReadyFor most s
      → ReadyFor most (record s { tf = record (s.tf) { seg_status = status } })
  with_status most s status (r, e) =
      (record { queues = r.queues; frame = r.frame; room = r.room }, e)

  responds :
      (most len left : ℕ) (more : Fop Q ℤ) (notif : Notification) (s : Sender Q)
      → ReadyFor most s
      → ((t : Sender Q) → ReadyFor most t → Leaves (λ _ u. Ready Ok size u) (more t))
      → Leaves (λ _ u. Ready Ok size u) (handle_response h len left more notif s)
  unfolding handle_response set_seg_status signal_error end_with ◌>>=◌ ◌>>◌ get_tf set_tf set_fop
      pure
  responds most len left more accept_tx s r g = g _ (with_status most s _ r)
  responds most len left more ignore s r g = g _ (with_status most s _ r)
  responds most len left more delay_resp s r g = (with_status most s _ r).0
  responds most len left more reject_tx s r g = set_fop-Ready _ _ (with_status most s _ r).0
  responds most len left more accept_dir s r g = set_fop-Ready _ _ (with_status most s _ r).0
  responds most len left more reject_dir s r g = set_fop-Ready _ _ (with_status most s _ r).0
  responds most len left more positive_dir s r g = set_fop-Ready _ _ (with_status most s _ r).0
  responds most len left more negative_dir s r g = set_fop-Ready _ _ (with_status most s _ r).0
  responds most len left more suspend s r g = set_fop-Ready _ _ (with_status most s _ r).0
  responds most len left more alert_limit s r g = set_fop-Ready _ _ (with_status most s _ r).0
  responds most len left more alert_t1 s r g = set_fop-Ready _ _ (with_status most s _ r).0
  responds most len left more alert_lockout s r g = set_fop-Ready _ _ (with_status most s _ r).0
  responds most len left more alert_synch s r g = set_fop-Ready _ _ (with_status most s _ r).0
  responds most len left more alert_nnr s r g = set_fop-Ready _ _ (with_status most s _ r).0
  responds most len left more alert_clcw s r g = set_fop-Ready _ _ (with_status most s _ r).0
  responds most len left more alert_llif s r g = set_fop-Ready _ _ (with_status most s _ r).0
  responds most len left more alert_term s r g = set_fop-Ready _ _ (with_status most s _ r).0
  responds most len left more positive_tx s r g = set_fop-Ready _ _ (with_status most s _ r).0
  responds most len left more negative_tx s r g = set_fop-Ready _ _ (with_status most s _ r).0
  responds most len left more undef_error s r g = set_fop-Ready _ _ (with_status most s _ r).0
  responds most len left more na s r g = set_fop-Ready _ _ (with_status most s _ r).0

  loop_returns :
      (most rounds : ℕ) (buffer : List ℕ) (len remaining : ℕ) (s : Sender Q)
      → 1 ≤ most
      → most ≤ size
      → len ≤ length buffer
      → remaining ≤ len
      → len < 2 ^ 32
      → remaining < rounds
      → ReadyFor most s
      → Leaves (λ _ u. Ready Ok size u) (transmit_loop h rounds buffer len remaining s)
  unfolding transmit_loop ◌>>=◌ ◌>>◌ get_tf set_tf set_fop pure ask filled signal_error
  loop_returns most zero buffer len remaining s p small has within width enough r =
      absurd (omega arith)
  loop_returns most (suc rounds) buffer len remaining s p small has within width enough (r, e) =
      elim (Bool-cases (remaining == 0)) [
        | inl done ↦ rw done (set_fop-Ready s _ r)
        | inr going ↦
            let vcid : ℕ = s.tf.primary_hdr.vcid in
            let nonzero : (s.tf.mission.max_data_len == 0) ≡ false = ground arith in
            let offset : (len + 2 ^ 32 - remaining) % 2 ^ 32 ≡ len - remaining = omega arith in
            let (bytes, at, n) = pointer_in buffer (len - remaining) (omega arith) in
            let t : Sender Q = record s { tf = next_frame remaining bytes s.tf } in
            let (some_bytes, few, short) =
              next_len_bounds s.tf.mission.max_data_len remaining (omega arith) (ground arith) in
            let ready : Ready Ok size t = record {
              queues = r.queues;
              frame = record { data_len = omega arith; bytes = omega arith };
              room = r.room;
            } in
            rw (going, nonzero, offset, at)
              (elim (Bool-cases (h.tx_queue_full vcid s.queues)) [
                | inl full ↦ rw full (set_fop-Ready t _ ready)
                | inr free ↦ rw free (
                    Leaves-bind _ _ (req_transfer_fdu h) _ t
                      ((req_transfer_fdu-Keeps h Ok size serves).apply t ready)
                      λ notif u kept.
                        responds most len _ _ notif u (kept.1, kept.0.max_data_len ∙ e)
                          λ w next.
                            loop_returns most rounds buffer len _ w p small has (omega arith) width
                              (omega arith) next)
              ])
      ]

  -- Over an application that serves the sender (`Serves`), whose functions change the queues alone, and with a share of one byte or more, at most `size`, in each frame, `osdlp_tc_transmit` of a unit of less than 65536 bytes, from its start or from where an earlier call stopped, by a sender that is ready (its queues in order, the data of the frame at hand complete and of at most `size` bytes, and room for a packed frame of them) returns: its loop ends, stays in range of the unit, and leaves the sender ready.
  pub tc_transmit-returns :
      (buffer : List ℕ) (len : ℕ) (s : Sender Q)
      → 1 ≤ s.tf.mission.max_data_len
      → s.tf.mission.max_data_len ≤ size
      → len ≤ length buffer
      → len < 65536
      → s.tf.seg_status.octets_txed ≤ len
      → Ready Ok size s
      → (status : ℤ) × (t : Sender Q) × (tc_transmit h buffer len s ≡ some (status, t))
        × Ready Ok size t
  unfolding tc_transmit ◌>>=◌ get_tf
  tc_transmit-returns buffer len s p small has width sent r =
      let within : remaining_at s.tf.seg_status len ≤ len = ground arith in
      Leaves-some (λ _ t. Ready Ok size t) _
        (loop_returns s.tf.mission.max_data_len _ buffer len _ s p small has within (omega arith)
          (omega arith) (r, refl))
