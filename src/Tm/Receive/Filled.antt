-- ===== src/Tm/Receive/Filled.antt =====
-- A frame that is filled with packets: all are delivered, in their order.
use osdlp.Common.{
  ℕ, zero, suc, ◌+◌, ◌≤◌, ◌<◌, ◌≡◌, refl, sym, ◌∙◌, ap, true, false, inl, inr, List, [], ◌∷◌, ◌++◌,
  some, arith, length, length-append, length-drop, drop, ◌==◌, if◌then◌else◌, All,
}
use mathlib.Core.List.{append_assoc, append-nil}
use osdlp.Tm.Types.{TmTransferFrame}
use osdlp.Tm.Host.{TmRxHost}
use osdlp.Tm.Setup.{tm_loop_closed, close_loop}
use osdlp.Tm.Receive.{tm_rx_ok, Handled, set_expected, explore_packets}
use osdlp.Tm.Receive.Stuffed.{joined, IsPacket, taken, explored, Explored, Ends, at_idle_byte}

module _ {Q : Type 0} (h : TmRxHost Q) (view : Q → List (List ℕ)) (most : ℕ) where
  Ends-le :
      (used max_data_len : ℕ) (behind : List ℕ)
      → Ends h view most used max_data_len behind
      → used ≤ max_data_len
  Ends-le used max_data_len behind (inl full) = omega arith
  Ends-le used max_data_len behind (inr (less, idle)) = omega arith

  after_packet :
      (p : List ℕ) (ps : List (List ℕ)) (q q' : Q) (run run' : Handled Q)
      → run ≡ run'
      → view q' ≡ view q ++ (p ∷ [])
      → Explored h view most ps q' run'
      → Explored h view most (p ∷ ps) q run
  after_packet p ps q q' run run' e seen x = record {
    end_state = x.end_state;
    queues = x.queues;
    returned = e ∙ x.returned;
    delivered = x.delivered ∙ rw seen (append_assoc (view q) (p ∷ []) ps);
    closed = x.closed;
    empty = x.empty;
  }

  -- The end of the data field, behind the last packet
  last_one :
      (rounds : ℕ) (front behind : List ℕ) (tf : TmTransferFrame) (q : Q)
      → tf.bytes ≡ front ++ behind
      → tf.mission.util.loop_state ≡ tm_loop_closed
      → tf.mission.util.buffered_length ≡ 0
      → tf.mission.max_data_len < rounds + length front + 1
      → Ends h view most (length front) tf.mission.max_data_len behind
      → Explored h view most [] q (
          if length front == tf.mission.max_data_len
          then some (tm_rx_ok, tf, q)
          else explore_packets h rounds (length front) tf q)
  last_one rounds front behind tf q at shut none_left enough (inl full) =
      let end : (length front == tf.mission.max_data_len) ≡ true = ground arith in
      rw end (record {
        end_state = tf;
        queues = q;
        returned = refl;
        delivered = sym (append-nil (view q));
        closed = shut;
        empty = none_left;
      })
  last_one zero front behind tf q at shut none_left enough (inr (less, (rest, idle))) =
      absurd (omega arith)
  last_one (suc rounds) front behind tf q at shut none_left enough (inr (less, (rest, idle))) =
      let more : (length front == tf.mission.max_data_len) ≡ false = ground arith in
      rw more (record {
        end_state = set_expected (close_loop tf) 0;
        queues = q;
        returned =
            at_idle_byte h view most rounds front rest tf q
              (at ∙ ap (λ (xs : List ℕ). front ++ xs) idle);
        delivered = sym (append-nil (view q));
        closed = refl;
        empty = refl;
      })

  packet_pos : (p : List ℕ) → IsPacket h view most p → 1 ≤ length p
  packet_pos p v = omega (arith, ap length v.nonempty)

  -- Where the packet `p` stands, and what stands behind it
  next_place :
      (front behind p : List ℕ) (ps : List (List ℕ)) (tf : TmTransferFrame)
      → tf.bytes ≡ front ++ (joined (p ∷ ps) ++ behind)
      → Ends h view most (length (front ++ joined (p ∷ ps))) tf.mission.max_data_len behind
      → (tf.bytes ≡ front ++ (p ++ (joined ps ++ behind)))
        × ((front ++ p) ++ joined ps ≡ front ++ joined (p ∷ ps))
        × (length front + length p ≤ tf.mission.max_data_len)
  next_place front behind p ps tf at ends = (
    at ∙ ap (λ (xs : List ℕ). front ++ xs) (append_assoc p (joined ps) behind),
    append_assoc front p (joined ps),
    omega (
      arith,
      Ends-le _ _ behind ends,
      length-append front (p ++ joined ps),
      length-append p (joined ps),
    ),
  )

  at_length :
      (rounds : ℕ) (front p : List ℕ) (tf : TmTransferFrame) (q : Q)
      → (if length front + length p == tf.mission.max_data_len
          then some (tm_rx_ok, tf, q)
          else explore_packets h rounds (length front + length p) tf q)
        ≡ (if length (front ++ p) == tf.mission.max_data_len
            then some (tm_rx_ok, tf, q)
            else explore_packets h rounds (length (front ++ p)) tf q)
  at_length rounds front p tf q =
      ap
        (λ (n : ℕ).
          if n == tf.mission.max_data_len
          then some (tm_rx_ok, tf, q)
          else explore_packets h rounds n tf q)
        (sym (length-append front p))

  -- The packets from a place in the data field on
  pub explores_all :
      (rounds : ℕ) (front behind p : List ℕ) (ps : List (List ℕ)) (tf : TmTransferFrame) (q : Q)
      → All (IsPacket h view most) (p ∷ ps)
      → tf.bytes ≡ front ++ (joined (p ∷ ps) ++ behind)
      → Ends h view most (length (front ++ joined (p ∷ ps))) tf.mission.max_data_len behind
      → tf.mission.max_data_len < 65536
      → most ≤ length tf.mission.util.buffer
      → tf.mission.max_data_len < rounds + length front
      → Explored h view most (p ∷ ps) q (explore_packets h rounds (length front) tf q)
  explores_all zero front behind p ps tf q v at ends width room enough =
      absurd (omega (arith, Ends-le _ _ behind ends, length-append front (joined (p ∷ ps))))
  explores_all (suc rounds) front behind p [] tf q v at ends width room enough =
      let buffer = tf.mission.util.buffer in
      let tf' = taken h view most tf p in
      let q' = (h.rx_queue_enqueue (p ++ drop (length p) buffer) tf.mission.vcid q).1 in
      let (bytes, whole, fits) = next_place front behind p [] tf at ends in
      let (step, seen) =
        explored h view most rounds front p behind tf q v.0 bytes fits width room in
      let alone : front ++ joined (p ∷ []) ≡ front ++ p = sym whole ∙ append-nil (front ++ p) in
      let ends' : Ends h view most (length (front ++ p)) tf.mission.max_data_len behind =
        rw (sym alone) ends in
      after_packet p [] q q' _ _ (step ∙ at_length rounds front p tf' q') seen (
        last_one rounds (front ++ p) behind tf' q' (bytes ∙ sym (append_assoc front p behind)) refl
          refl (omega (arith, length-append front p, packet_pos p v.0)) ends')
  explores_all (suc rounds) front behind p (p' ∷ ps) tf q v at ends width room enough =
      let buffer = tf.mission.util.buffer in
      let tf' = taken h view most tf p in
      let q' = (h.rx_queue_enqueue (p ++ drop (length p) buffer) tf.mission.vcid q).1 in
      let (bytes, whole, fits) = next_place front behind p (p' ∷ ps) tf at ends in
      let (step, seen) =
        explored h view most rounds front p (joined (p' ∷ ps) ++ behind) tf q v.0 bytes fits width
          room in
      let ends' : Ends h view most (length ((front ++ p) ++ joined (p' ∷ ps)))
          tf.mission.max_data_len behind =
        rw whole ends in
      let more : (length (front ++ p) == tf.mission.max_data_len) ≡ false = ground (
        arith,
        packet_pos p' v.1.0,
        Ends-le _ _ behind ends',
        length-append (front ++ p) (joined (p' ∷ ps)),
        length-append p' (joined ps),
      ) in
      let room' : most ≤ length (p ++ drop (length p) buffer) = omega (
        arith,
        v.0.fits,
        length-append p (drop (length p) buffer),
        length-drop (length p) buffer,
      ) in
      after_packet p (p' ∷ ps) q q' _ _ (step ∙ at_length rounds front p tf' q') seen (
        rw more (
          explores_all rounds (front ++ p) behind p' ps tf' q' v.1
            (bytes ∙ sym (append_assoc front p (joined (p' ∷ ps) ++ behind))) ends' width room'
            (omega (arith, length-append front p, packet_pos p v.0))))
