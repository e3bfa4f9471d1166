-- ===== src/Tc/Receive/Safety.antt =====
-- The copies of received data stay within the channel's buffer.
use osdlp.Common.{
  ℕ, ◌+◌, ◌≤◌, ◌≡◌, refl, ℤ, Bool, true, false, not, inl, inr, List, Option, none, some, arith,
  length, Bool-cases, ltb, ◌==◌, if◌then◌else◌,
}
use osdlp.Common.Memory.{◌>>=◌}
use osdlp.Common.Memory.Bounds.{Kept, memcpy-Kept}
use osdlp.Tc.Types.{
  tc_cont_seg, tc_first_seg, tc_last_seg, tc_unseg, tc_loop_open, tc_loop_closed, FarmConfig,
  TcMissionParams, TransferFrame, FarmResult, cop_ok, cop_enq, cop_priority_enq, cop_discard,
  cop_error,
}
use osdlp.Tc.Receive.{
  RxHost, receive_whole, receive_first, receive_cont, receive_last, append_segment, receive_data,
  receive_fdu,
}

-- The buffer has room for the longest unit, and a loop that is open has not passed that length.
pub record IsBuffered (m : TcMissionParams) : Type 0 where
  pub max_data_len : m.max_data_len ≤ m.max_sdu_len
  pub room : m.max_sdu_len ≤ length m.util.buffer
  pub in_loop : m.util.loop_state ≡ tc_loop_open → m.util.buffered_length ≤ m.max_sdu_len

-- The run has returned, and the channel is buffered again.
abbrev pub Safe : {Q : Type 0} → Option (ℤ × TransferFrame FarmConfig × Q) → Type 0
Safe none = ⊥
Safe (some out) = IsBuffered out.1.mission

copy-Safe :
    {Q : Type 0} (o : Option (List ℕ)) (n : ℕ) (finish : List ℕ → ℤ × TransferFrame FarmConfig × Q)
    → Kept n o
    → ((out : List ℕ) → length out ≡ n → IsBuffered (finish out).1.mission)
    → Safe (o >>= λ out. some (finish out))
copy-Safe none n finish k g = k
copy-Safe (some out) n finish k g = g out k

module _ {Q : Type 0} (h : RxHost Q) (vcid : ℕ) (tf : TransferFrame FarmConfig) (q : Q)
    (v : IsBuffered tf.mission) (has : tf.frame_data.data_len ≤ length tf.frame_data.bytes) where
  closed-IsBuffered :
      (n : ℕ)
      → IsBuffered (record (tf.mission) {
        util = record (tf.mission.util) { buffered_length = n; loop_state = tc_loop_closed };
      })
  closed-IsBuffered n = record {
    max_data_len = v.max_data_len;
    room = v.room;
    in_loop = λ e. absurd (omega (arith, e));
  }

  whole-Safe :
      (farm_ret : FarmResult)
      → tf.frame_data.data_len ≤ tf.mission.max_sdu_len
      → Safe (receive_whole h farm_ret vcid tf q)
  unfolding receive_whole
  whole-Safe farm_ret fits =
      copy-Safe _ (length tf.mission.util.buffer) _
        (memcpy-Kept tf.mission.util.buffer 0 tf.frame_data.bytes tf.frame_data.data_len has
          (omega (arith, v.room)))
        λ out n. record {
          max_data_len = v.max_data_len;
          room = omega (arith, v.room, n);
          in_loop = λ e. absurd (omega (arith, e));
        }

  first-Safe : Safe (receive_first h tf q)
  unfolding receive_first
  first-Safe = elim (Bool-cases (tf.mission.util.loop_state == tc_loop_closed)) [
    | inr e ↦ rw e (closed-IsBuffered 0)
    | inl e ↦ rw e (elim (Bool-cases (ltb tf.mission.max_data_len tf.frame_data.data_len)) [
      | inl long ↦ rw long (record {
        max_data_len = v.max_data_len;
        room = v.room;
        in_loop = λ is_open. absurd (ground arith);
      })
      | inr short ↦ rw short (
          copy-Safe _ (length tf.mission.util.buffer) _
            (memcpy-Kept tf.mission.util.buffer 0 tf.frame_data.bytes tf.frame_data.data_len has
              (ground (arith, v.room, v.max_data_len)))
            λ out n. record {
              max_data_len = v.max_data_len;
              room = omega (arith, v.room, n);
              in_loop = λ is_open. ground (arith, v.max_data_len);
            })
    ])
  ]

  append-Safe :
      (finish : List ℕ → ℤ × TransferFrame FarmConfig × Q)
      → ((out : List ℕ)
          → length out ≡ length tf.mission.util.buffer
          → tf.frame_data.data_len + tf.mission.util.buffered_length ≤ tf.mission.max_sdu_len
          → IsBuffered (finish out).1.mission)
      → Safe (append_segment h tf q finish)
  unfolding append_segment
  append-Safe finish g = elim (Bool-cases (tf.mission.util.loop_state == tc_loop_open)) [
    | inr e ↦
        rw e (record {
          max_data_len = v.max_data_len;
          room = v.room;
          in_loop = λ is_open. omega arith;
        })
    | inl e ↦
        rw e
          (elim (Bool-cases (
            ltb tf.mission.max_sdu_len
              (tf.frame_data.data_len + tf.mission.util.buffered_length))) [
                | inl long ↦ rw long (closed-IsBuffered 0)
                | inr short ↦ rw short (
                    copy-Safe _ (length tf.mission.util.buffer) finish
                      (memcpy-Kept tf.mission.util.buffer tf.mission.util.buffered_length
                        tf.frame_data.bytes tf.frame_data.data_len has (ground (arith, v.room)))
                      (λ out n. g out n (ground arith)))
              ])
  ]

  cont-Safe : Safe (receive_cont h tf q)
  unfolding receive_cont
  cont-Safe = append-Safe _ λ out n fits. record {
    max_data_len = v.max_data_len;
    room = omega (arith, v.room, n);
    in_loop = λ is_open. omega arith;
  }

  last-Safe : (farm_ret : FarmResult) → Safe (receive_last h farm_ret vcid tf q)
  unfolding receive_last
  last-Safe farm_ret = append-Safe _ λ out n fits. record {
    max_data_len = v.max_data_len;
    room = omega (arith, v.room, n);
    in_loop = λ is_open. absurd (omega (arith, is_open));
  }

  if-Safe :
      (b : Bool) (m n : Option (ℤ × TransferFrame FarmConfig × Q))
      → Safe m
      → Safe n
      → Safe (if b then m else n)
  if-Safe true m n k l = k
  if-Safe false m n k l = l

  unsegmented-Safe :
      (farm_ret : FarmResult) (limit : ℕ) (m : Option (ℤ × TransferFrame FarmConfig × Q))
      → limit ≤ tf.mission.max_sdu_len
      → Safe m
      → Safe (if ltb limit tf.frame_data.data_len then m else receive_whole h farm_ret vcid tf q)
  unsegmented-Safe farm_ret limit m small k = elim (Bool-cases (ltb limit tf.frame_data.data_len)) [
    | inl long ↦ rw long k
    | inr short ↦ rw short (whole-Safe farm_ret (ground arith))
  ]

  data-Safe : (farm_ret : FarmResult) → Safe (receive_data h farm_ret vcid tf q)
  unfolding receive_data
  data-Safe farm_ret =
      let seq_flag = tf.frame_data.seg_hdr.seq_flag in
      if-Safe (not (tf.mission.seg_hdr_flag == 0)) _ _
        (if-Safe (seq_flag == tc_unseg) _ _
          (unsegmented-Safe farm_ret tf.mission.max_data_len _ v.max_data_len v)
          (if-Safe (seq_flag == tc_first_seg) _ _ first-Safe (
            if-Safe (seq_flag == tc_last_seg) _ _ (last-Safe farm_ret)
              (if-Safe (seq_flag == tc_cont_seg) _ _ cont-Safe v))))
        (unsegmented-Safe farm_ret tf.mission.max_sdu_len _ (omega arith) (closed-IsBuffered 0))

  fdu-Safe : (farm_ret : FarmResult) → Safe (receive_fdu h farm_ret vcid tf q)
  unfolding receive_fdu
  fdu-Safe cop_enq = data-Safe cop_enq
  fdu-Safe cop_priority_enq = data-Safe cop_priority_enq
  fdu-Safe cop_error = closed-IsBuffered 0
  fdu-Safe cop_ok = v
  fdu-Safe cop_discard = v

Safe-some :
    {Q : Type 0} (o : Option (ℤ × TransferFrame FarmConfig × Q))
    → Safe o
    → (status : ℤ) × (tf : TransferFrame FarmConfig) × (q : Q) × (o ≡ some (status, tf, q))
      × IsBuffered tf.mission
Safe-some none k = absurd k
Safe-some (some (status, tf, q)) k = (status, tf, q, refl, k)

-- If the channel's buffer has room for `max_sdu_len` bytes, a frame's share is at most that, and a loop that is open has not passed it, then whatever the FARM has answered and whatever segment has arrived, with as many bytes as it tells, `osdlp_tc_receive` copies within the buffer, returns a status, and leaves the channel's buffer in the same order for the next frame.
pub receive_fdu_in_range :
    {Q : Type 0} (h : RxHost Q) (farm_ret : FarmResult) (vcid : ℕ) (tf : TransferFrame FarmConfig)
    (q : Q)
    → IsBuffered tf.mission
    → tf.frame_data.data_len ≤ length tf.frame_data.bytes
    → (status : ℤ) × (tf' : TransferFrame FarmConfig) × (q' : Q) × (receive_fdu h farm_ret vcid tf q
        ≡ some (status, tf', q'))
      × IsBuffered tf'.mission
receive_fdu_in_range h farm_ret vcid tf q v has =
    Safe-some (receive_fdu h farm_ret vcid tf q) (fdu-Safe h vcid tf q v has farm_ret)
