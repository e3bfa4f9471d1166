-- ===== src/Tc/Receive/Reassembly.antt =====
-- Segments put together again.
use mathlib.Core.Path.{subst}
use osdlp.Common.{
  ap, sym, ◌∙◌, ℕ, ◌+◌, ◌≤◌, ◌≡◌, refl, ℤ, true, List, [], ◌∷◌, ◌++◌, Option, some, arith, length,
  length-append, drop,
}
use mathlib.Core.List.{append_assoc}
use osdlp.Tc.Types.{
  tc_first_seg, tc_last_seg, tc_loop_closed, FarmConfig, TransferFrame, FarmResult,
}
use osdlp.Tc.Receive.{RxHost, is_accepted, set_util, deliver, queue_status, receive_fdu, tc_rx_ok}
use osdlp.Tc.Receive.Segments.{
  Segment, with_segment, receive_segments, carried, accepted, continued, ending, Holds, Awaits,
  cont_step, last_received, first_step,
}

module _ {Q : Type 0} (h : RxHost Q) (vcid : ℕ) where
  -- The run delivers `sdu` to the application, in the buffer that starts with it, and closes the loop.
  unfoldable pub Delivers :
      FarmResult
      → List ℕ
      → Q
      → Option (List ℤ × TransferFrame FarmConfig × Q)
      → (ℤ → List ℤ)
      → Type 0
  Delivers farm_ret sdu q run statuses =
      (tf' : TransferFrame FarmConfig) × (behind : List ℕ) × (run ≡ (
        let ret = deliver h farm_ret (sdu ++ behind) (length sdu) vcid q in
        some (statuses (queue_status h ret.0), tf', ret.1)))
      × (tf'.mission.util.loop_state ≡ tc_loop_closed)

  last-Delivers :
      (farm_ret : FarmResult) (tf : TransferFrame FarmConfig) (got room bytes rest : List ℕ) (q : Q)
      → is_accepted farm_ret ≡ true
      → Holds tf got room
      → length got + length bytes ≤ tf.mission.max_sdu_len
      → let seg : Segment = record { seq_flag = tc_last_seg; bytes = bytes; rest = rest } in
        Delivers farm_ret
          (got ++ bytes)
          q
          (receive_segments h farm_ret vcid (seg ∷ []) tf q)
          (λ status. status ∷ [])
  unfolding receive_segments Delivers
  last-Delivers farm_ret tf got room bytes rest q accept v fits =
      let seg : Segment = record { seq_flag = tc_last_seg; bytes = bytes; rest = rest } in
      let all = (got ++ bytes) ++ drop (length bytes) room in
      (
        set_util (with_segment seg tf)
            (record (tf.mission.util) { buffer = all; loop_state = tc_loop_closed }),
        drop (length bytes) room,
        rw (last_received h vcid farm_ret tf got room bytes rest q accept v fits) refl,
        refl,
      )

  -- A segment that is accepted in front of others changes only the list of statuses.
  prepend-Delivers :
      (farm_ret : FarmResult) (seg : Segment) (segs : List Segment)
      (tf tf' : TransferFrame FarmConfig) (sdu : List ℕ) (q : Q) (statuses : ℤ → List ℤ)
      → receive_fdu h farm_ret vcid (with_segment seg tf) q ≡ some (tc_rx_ok, tf', q)
      → Delivers farm_ret sdu q (receive_segments h farm_ret vcid segs tf' q) statuses
      → Delivers farm_ret sdu q
          (receive_segments h farm_ret vcid (seg ∷ segs) tf q)
          (λ status. tc_rx_ok ∷ statuses status)
  unfolding receive_segments Delivers
  prepend-Delivers farm_ret seg segs tf tf' sdu q statuses step (end, behind, run, closed) =
      (end, behind, rw (step, run) refl, closed)

  rest-Delivers :
      (farm_ret : FarmResult) (middle : List (List ℕ × List ℕ)) (last rest : List ℕ)
      (tf : TransferFrame FarmConfig) (got room : List ℕ) (q : Q)
      → is_accepted farm_ret ≡ true
      → Holds tf got room
      → length got + length (carried (continued middle)) + length last ≤ tf.mission.max_sdu_len
      → Delivers farm_ret
          (got ++ (carried (continued middle) ++ last))
          q
          (receive_segments h farm_ret vcid (ending middle last rest) tf q)
          (accepted (continued middle))
  rest-Delivers farm_ret [] last rest tf got room q accept v fits =
      last-Delivers farm_ret tf got room last rest q accept v (omega arith)
  rest-Delivers farm_ret (x ∷ middle) last rest tf got room q accept v fits =
      let others = carried (continued middle) in
      let sum = length-append x.0 others in
      let (tf', step, holds, same) =
        cont_step h vcid farm_ret tf got room x.0 x.1 q accept v (omega (arith, sum)) in
      let later =
        rest-Delivers farm_ret middle last rest tf' (got ++ x.0) (drop (length x.0) room) q accept
          holds (omega (arith, sum, same, length-append got x.0)) in
      let sdu : (got ++ x.0) ++ (others ++ last) ≡ got ++ ((x.0 ++ others) ++ last) =
        append_assoc got x.0 (others ++ last)
        ∙ ap (λ xs. got ++ xs) (sym (append_assoc x.0 others last)) in
      subst
        (λ sdu.
          Delivers farm_ret sdu q
            (receive_segments h farm_ret vcid (ending (x ∷ middle) last rest) tf q)
            (accepted (continued (x ∷ middle))))
        sdu (prepend-Delivers farm_ret _ _ tf tf' _ q (accepted (continued middle)) step later)

  -- If the channel has segment headers, a buffer with room for `max_sdu_len` bytes and no open loop, and the FARM accepts the frames of a segmented unit, a first segment of at most `max_data_len` bytes, any number of continued ones and a last one, together of at most `max_sdu_len` bytes, then every segment but the last is answered with TC_RX_OK, and the last delivers to the application, in the queue that the FARM's result asks for, a buffer that starts with the segments' data in their order, and its length; the loop is closed again.
  pub segments-delivered :
      (farm_ret : FarmResult) (tf : TransferFrame FarmConfig) (first rest : List ℕ)
      (middle : List (List ℕ × List ℕ)) (last rest' : List ℕ) (q : Q)
      → is_accepted farm_ret ≡ true
      → Awaits tf
      → length first ≤ tf.mission.max_data_len
      → length first + length (carried (continued middle)) + length last ≤ tf.mission.max_sdu_len
      → let seg : Segment = record { seq_flag = tc_first_seg; bytes = first; rest = rest } in
        Delivers farm_ret
          (first ++ (carried (continued middle) ++ last))
          q
          (receive_segments h farm_ret vcid (seg ∷ ending middle last rest') tf q)
          (λ status. tc_rx_ok ∷ accepted (continued middle) status)
  segments-delivered farm_ret tf first rest middle last rest' q accept v short fits =
      let (tf', step, holds, same) =
        first_step h vcid farm_ret tf first rest q accept v short (omega arith) in
      let later =
        rest-Delivers farm_ret middle last rest' tf' first _ q accept holds (omega (arith, same)) in
      prepend-Delivers farm_ret _ _ tf tf' _ q (accepted (continued middle)) step later
