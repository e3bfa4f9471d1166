-- ===== src/Tc/Receive/Segments.antt =====
-- Segments one by one: what each does to the buffer.
use osdlp.Common.{
  sym, ◌∙◌, ℕ, ◌+◌, ◌≤◌, ◌<◌, ◌≡◌, refl, ℤ, true, false, List, [], ◌∷◌, ◌++◌, Option, some, arith,
  length, length-append, length-drop, drop, ◌==◌, ltb, ◌%◌,
}
use mathlib.Core.List.{append_assoc}
use osdlp.Common.Memory.{◌>>=◌}
use osdlp.Common.Memory.Laws.{memcpy-append}
use osdlp.Tc.Types.{
  tc_cont_seg, tc_first_seg, tc_last_seg, tc_loop_open, tc_loop_closed, FarmConfig, TransferFrame,
  FarmResult, cop_enq, cop_priority_enq, cop_ok, cop_discard, cop_error, TcUtilBuf,
}
use osdlp.Tc.Receive.{
  RxHost, is_accepted, set_util, deliver, queue_status, receive_first, receive_cont, receive_last,
  append_segment, receive_data, receive_fdu, tc_rx_ok,
}

-- A segment that has been unpacked into the channel: its flag and its data, behind which other bytes
-- may stand
pub record Segment : Type 0 where
  pub seq_flag : ℕ
  pub bytes : List ℕ
  pub rest : List ℕ

abbrev pub with_segment : Segment → TransferFrame FarmConfig → TransferFrame FarmConfig
with_segment seg tf = record tf {
  frame_data = record (tf.frame_data) {
    seg_hdr = record (tf.frame_data.seg_hdr) { seq_flag = seg.seq_flag };
    bytes = seg.bytes ++ seg.rest;
    data_len = length seg.bytes;
  };
}

-- The segments one after the other, with the same result of the FARM: the status of each
unfoldable pub receive_segments :
    {Q : Type 0}
    → RxHost Q
    → FarmResult
    → ℕ
    → List Segment
    → TransferFrame FarmConfig
    → Q
    → Option (List ℤ × TransferFrame FarmConfig × Q)
receive_segments h farm_ret vcid [] tf q = some ([], tf, q)
receive_segments h farm_ret vcid (seg ∷ segs) tf q = do
  out ← receive_fdu h farm_ret vcid (with_segment seg tf) q
  later ← receive_segments h farm_ret vcid segs out.1 out.2
  some (out.0 ∷ later.0, later.1, later.2)

-- What the segments carry, and the statuses of all but the last
abbrev pub carried : List Segment → List ℕ
carried [] = []
carried (seg ∷ segs) = seg.bytes ++ carried segs

abbrev pub accepted : List Segment → ℤ → List ℤ
accepted [] last = last ∷ []
accepted (seg ∷ segs) last = tc_rx_ok ∷ accepted segs last

abbrev pub continued : List (List ℕ × List ℕ) → List Segment
continued [] = []
continued (x ∷ xs) = record { seq_flag = tc_cont_seg; bytes = x.0; rest = x.1 } ∷ continued xs

-- The continued segments, and the last
abbrev pub ending : List (List ℕ × List ℕ) → List ℕ → List ℕ → List Segment
ending [] last rest = record { seq_flag = tc_last_seg; bytes = last; rest = rest } ∷ []
ending (x ∷ xs) last rest =
    record { seq_flag = tc_cont_seg; bytes = x.0; rest = x.1 } ∷ ending xs last rest

-- The loop is open, and the buffer starts with what has come so far.
pub record Holds (tf : TransferFrame FarmConfig) (got room : List ℕ) : Type 0 where
  pub seg_hdr_flag : (tf.mission.seg_hdr_flag == 0) ≡ false
  pub loop_state : tf.mission.util.loop_state ≡ tc_loop_open
  pub buffered_length : tf.mission.util.buffered_length ≡ length got
  pub buffer : tf.mission.util.buffer ≡ got ++ room
  pub max_sdu_len : tf.mission.max_sdu_len ≤ length got + length room
  pub width : tf.mission.max_sdu_len < 65536

-- No loop is open, and the buffer has room for the longest unit.
pub record Awaits (tf : TransferFrame FarmConfig) : Type 0 where
  pub seg_hdr_flag : (tf.mission.seg_hdr_flag == 0) ≡ false
  pub loop_state : tf.mission.util.loop_state ≡ tc_loop_closed
  pub room : tf.mission.max_sdu_len ≤ length tf.mission.util.buffer
  pub width : tf.mission.max_sdu_len < 65536

module _ {Q : Type 0} (h : RxHost Q) (vcid : ℕ) where
  Holds-with_segment :
      (seg : Segment) (tf : TransferFrame FarmConfig) (got room : List ℕ)
      → Holds tf got room
      → Holds (with_segment seg tf) got room
  Holds-with_segment seg tf got room v = record {
    seg_hdr_flag = v.seg_hdr_flag;
    loop_state = v.loop_state;
    buffered_length = v.buffered_length;
    buffer = v.buffer;
    max_sdu_len = v.max_sdu_len;
    width = v.width;
  }

  accepted-data :
      (farm_ret : FarmResult) (tf : TransferFrame FarmConfig) (q : Q)
      → is_accepted farm_ret ≡ true
      → receive_fdu h farm_ret vcid tf q ≡ receive_data h farm_ret vcid tf q
  unfolding receive_fdu
  accepted-data cop_enq tf q e = refl
  accepted-data cop_priority_enq tf q e = refl
  accepted-data cop_ok tf q e = absurd (ground arith)
  accepted-data cop_discard tf q e = absurd (ground arith)
  accepted-data cop_error tf q e = absurd (ground arith)

  appended :
      (tf : TransferFrame FarmConfig) (got room bytes rest : List ℕ) (q : Q)
      (finish : List ℕ → ℤ × TransferFrame FarmConfig × Q)
      → Holds tf got room
      → tf.frame_data.bytes ≡ bytes ++ rest
      → tf.frame_data.data_len ≡ length bytes
      → length got + length bytes ≤ tf.mission.max_sdu_len
      → append_segment h tf q finish ≡ some (finish (got ++ (bytes ++ drop (length bytes) room)))
  unfolding append_segment
  appended tf got room bytes rest q finish v bytes_at len fits =
      let copied = memcpy-append got room bytes rest (omega (arith, v.max_sdu_len)) in
      let in_room : ltb tf.mission.max_sdu_len (length bytes + length got) ≡ false = ground arith in
      rw (v.loop_state, len, v.buffered_length, bytes_at, v.buffer, in_room, copied) refl

  -- A continued segment goes behind the others.
  pub cont_step :
      (farm_ret : FarmResult) (tf : TransferFrame FarmConfig) (got room bytes rest : List ℕ) (q : Q)
      → is_accepted farm_ret ≡ true
      → Holds tf got room
      → length got + length bytes ≤ tf.mission.max_sdu_len
      → (tf' : TransferFrame FarmConfig) × (receive_fdu h farm_ret vcid
            (with_segment (record { seq_flag = tc_cont_seg; bytes = bytes; rest = rest }) tf)
            q
          ≡ some (tc_rx_ok, tf', q))
        × Holds tf' (got ++ bytes) (drop (length bytes) room)
        × (tf'.mission.max_sdu_len ≡ tf.mission.max_sdu_len)
  unfolding receive_data receive_cont
  cont_step farm_ret tf got room bytes rest q accept v fits =
      let seg : Segment = record { seq_flag = tc_cont_seg; bytes = bytes; rest = rest } in
      let tf1 : TransferFrame FarmConfig = with_segment seg tf in
      let util : TcUtilBuf = record (tf.mission.util) {
        buffer = got ++ (bytes ++ drop (length bytes) room);
        buffered_length = (tf.mission.util.buffered_length + length bytes) % 65536;
      } in
      (
        set_util tf1 util,
        accepted-data farm_ret tf1 q accept
            ∙ rw v.seg_hdr_flag (
                appended tf1 got room bytes rest q _ (Holds-with_segment seg tf got room v) refl
                  refl fits),
        record {
          seg_hdr_flag = v.seg_hdr_flag;
          loop_state = v.loop_state;
          buffered_length = omega (arith, v.buffered_length, v.width, length-append got bytes);
          buffer = sym (append_assoc got bytes (drop (length bytes) room));
          max_sdu_len =
              omega
                (arith, v.max_sdu_len, length-append got bytes, length-drop (length bytes) room);
          width = v.width;
        },
        refl,
      )

  -- The last segment goes behind the others too, and all are delivered.
  pub last_received :
      (farm_ret : FarmResult) (tf : TransferFrame FarmConfig) (got room bytes rest : List ℕ) (q : Q)
      → is_accepted farm_ret ≡ true
      → Holds tf got room
      → length got + length bytes ≤ tf.mission.max_sdu_len
      → let all = (got ++ bytes) ++ drop (length bytes) room in
        let ret = deliver h farm_ret all (length (got ++ bytes)) vcid q in
        let seg : Segment = record { seq_flag = tc_last_seg; bytes = bytes; rest = rest } in
        receive_fdu h farm_ret vcid (with_segment seg tf) q
        ≡ some (
          queue_status h ret.0,
          set_util
              (with_segment seg tf)
              (record (tf.mission.util) { buffer = all; loop_state = tc_loop_closed }),
          ret.1,
        )
  unfolding receive_data receive_last
  last_received farm_ret tf got room bytes rest q accept v fits =
      let seg : Segment = record { seq_flag = tc_last_seg; bytes = bytes; rest = rest } in
      let tf1 : TransferFrame FarmConfig = with_segment seg tf in
      let len : length (got ++ bytes) ≡ tf.mission.util.buffered_length + length bytes =
        omega (arith, v.buffered_length, length-append got bytes) in
      accepted-data farm_ret tf1 q accept
      ∙ rw (v.seg_hdr_flag, len, append_assoc got bytes (drop (length bytes) room))
          (appended tf1 got room bytes rest q _ (Holds-with_segment seg tf got room v) refl refl
            fits)

  -- The first segment opens the loop.
  pub first_step :
      (farm_ret : FarmResult) (tf : TransferFrame FarmConfig) (bytes rest : List ℕ) (q : Q)
      → is_accepted farm_ret ≡ true
      → Awaits tf
      → length bytes ≤ tf.mission.max_data_len
      → length bytes ≤ tf.mission.max_sdu_len
      → let seg : Segment = record { seq_flag = tc_first_seg; bytes = bytes; rest = rest } in
        (tf' : TransferFrame FarmConfig) × (receive_fdu h farm_ret vcid (with_segment seg tf) q
          ≡ some (tc_rx_ok, tf', q))
        × Holds tf' bytes (drop (length bytes) tf.mission.util.buffer)
        × (tf'.mission.max_sdu_len ≡ tf.mission.max_sdu_len)
  unfolding receive_data receive_first
  first_step farm_ret tf bytes rest q accept v short fits =
      let buffer : List ℕ = tf.mission.util.buffer in
      let seg : Segment = record { seq_flag = tc_first_seg; bytes = bytes; rest = rest } in
      let tf1 : TransferFrame FarmConfig = with_segment seg tf in
      let util : TcUtilBuf = record {
        buffer = bytes ++ drop (length bytes) buffer;
        buffered_length = length bytes;
        loop_state = tc_loop_open;
      } in
      let copied = memcpy-append [] buffer bytes rest (omega (arith, v.room)) in
      let small : ltb tf.mission.max_data_len (length bytes) ≡ false = ground arith in
      (
        set_util tf1 util,
        accepted-data farm_ret tf1 q accept ∙ rw (v.seg_hdr_flag, v.loop_state, small, copied) refl,
        record {
          seg_hdr_flag = v.seg_hdr_flag;
          loop_state = refl;
          buffered_length = refl;
          buffer = refl;
          max_sdu_len = omega (arith, v.room, length-drop (length bytes) buffer);
          width = v.width;
        },
        refl,
      )
