-- ===== src/Tm/Receive/Stuffed.antt =====
-- A data field that is filled with whole packets.
use osdlp.Common.{
  ℕ, suc, ◌+◌, ◌-◌, ◌%◌, ◌≤◌, ◌<◌, ◌≡◌, refl, ◌∙◌, ap, ℤ, false, List, [], ◌∷◌, ◌++◌, some, arith,
  length, drop, ◌==◌, ltb, if◌then◌else◌, is_neg, ◌⊎◌,
}
use osdlp.Common.Memory.{load, pointer_at, memcpy}
use osdlp.Common.Memory.Laws.{memcpy-append}
use osdlp.Tm.Types.{TmTransferFrame}
use osdlp.Tm.Host.{TmRxHost}
use osdlp.Tm.Setup.{tm_loop_closed, close_loop}
use osdlp.Tm.{tm_idle_packet}
use osdlp.Tm.Frame.Places.{load_behind, pointer_behind}
use osdlp.Tm.Receive.{tm_rx_ok, Handled, set_expected, set_buffer, explore_packets}

abbrev pub joined : List (List ℕ) → List ℕ
joined [] = []
joined (p ∷ ps) = p ++ joined ps

-- A packet: it does not start like an idle one, the application reads its length where it is whole, and
-- takes it out of a buffer that starts with it.
pub record IsPacket {Q : Type 0} (h : TmRxHost Q) (view : Q → List (List ℕ)) (most : ℕ) (p : List ℕ)
    : Type 0 where
  pub first : ℕ
  pub others : List ℕ
  pub nonempty : p ≡ first ∷ others
  pub not_idle : (first == tm_idle_packet) ≡ false
  pub fits : length p ≤ most
  pub status : ℤ
  pub told :
      (behind : List ℕ) (n : ℕ)
      → length p ≤ n
      → h.get_packet_len (p ++ behind) n ≡ (status, length p)
  pub found : is_neg status ≡ false
  pub accepted :
      (behind : List ℕ) (vcid : ℕ) (q : Q)
      → is_neg (h.rx_queue_enqueue (p ++ behind) vcid q).0 ≡ false
  pub queued :
      (behind : List ℕ) (vcid : ℕ) (q : Q)
      → view (h.rx_queue_enqueue (p ++ behind) vcid q).1 ≡ view q ++ (p ∷ [])

module _ {Q : Type 0} (h : TmRxHost Q) (view : Q → List (List ℕ)) (most : ℕ) where
  -- The channel after a packet
  abbrev pub taken : TmTransferFrame → List ℕ → TmTransferFrame
  taken tf p =
      let out = p ++ drop (length p) tf.mission.util.buffer in
      set_expected (close_loop (set_buffer (set_expected tf (length p)) out)) 0

  explore_by :
      (rounds at first n : ℕ) (rest out : List ℕ) (ret : ℤ) (tf : TmTransferFrame) (q : Q)
      → load tf.bytes at ≡ some first
      → pointer_at tf.bytes at ≡ some rest
      → (first == tm_idle_packet) ≡ false
      → h.get_packet_len rest ((tf.mission.max_data_len + 65536 - at) % 65536) ≡ (ret, n)
      → is_neg ret ≡ false
      → ltb tf.mission.max_data_len (n + at) ≡ false
      → memcpy tf.mission.util.buffer 0 rest n ≡ some out
      → is_neg (h.rx_queue_enqueue out tf.mission.vcid q).0 ≡ false
      → let next = set_expected (close_loop (set_buffer (set_expected tf n) out)) 0 in
        let q' = (h.rx_queue_enqueue out tf.mission.vcid q).1 in
        explore_packets h (suc rounds) at tf q ≡ (
          if (at + n) % 65536 == tf.mission.max_data_len
          then some (tm_rx_ok, next, q')
          else explore_packets h rounds ((at + n) % 65536) next q')
  unfolding explore_packets
  explore_by rounds at first n rest out ret tf q e0 e1 e2 e3 e4 e5 e6 e7 =
      rw (e0, e1, e2, e3, e4, e5, e6, e7) refl

  -- The packet behind `front`
  pub explored :
      (rounds : ℕ) (front p behind : List ℕ) (tf : TmTransferFrame) (q : Q)
      → IsPacket h view most p
      → tf.bytes ≡ front ++ (p ++ behind)
      → length front + length p ≤ tf.mission.max_data_len
      → tf.mission.max_data_len < 65536
      → most ≤ length tf.mission.util.buffer
      → let q' =
          (h.rx_queue_enqueue (p ++ drop (length p) tf.mission.util.buffer) tf.mission.vcid q).1 in
        let at = length front + length p in
        (explore_packets h (suc rounds) (length front) tf q ≡ (
          if at == tf.mission.max_data_len
          then some (tm_rx_ok, taken tf p, q')
          else explore_packets h rounds at (taken tf p) q'))
        × (view q' ≡ view q ++ (p ∷ []))
  explored rounds front p behind tf q v at fits width room =
      let k : ℕ = length front in
      let buffer = tf.mission.util.buffer in
      let out = p ++ drop (length p) buffer in
      let loaded : load tf.bytes k ≡ some v.first =
        ap (λ (buf : List ℕ). load buf k) at
        ∙ load_behind front (p ++ behind) 0 k (omega arith)
        ∙ ap (λ (xs : List ℕ). load (xs ++ behind) 0) v.nonempty in
      let pointer : pointer_at tf.bytes k ≡ some (p ++ behind) =
        ap (λ (buf : List ℕ). pointer_at buf k) at ∙ pointer_behind front (p ++ behind) k refl in
      let within : ltb tf.mission.max_data_len (length p + k) ≡ false = ground arith in
      let sum : (k + length p) % 65536 ≡ k + length p = omega arith in
      let step =
        explore_by rounds k v.first (length p) (p ++ behind) out v.status tf q loaded pointer
          v.not_idle (v.told behind ((tf.mission.max_data_len + 65536 - k) % 65536) (omega arith))
          v.found within (memcpy-append [] buffer p behind (omega (arith, v.fits)))
          (v.accepted (drop (length p) buffer) tf.mission.vcid q) in
      (
        step
            ∙ ap
                (λ (n : ℕ).
                  let q' = (h.rx_queue_enqueue out tf.mission.vcid q).1 in
                  if n == tf.mission.max_data_len
                  then some (tm_rx_ok, taken tf p, q')
                  else explore_packets h rounds n (taken tf p) q')
                sum,
        v.queued (drop (length p) buffer) tf.mission.vcid q,
      )

  -- The loop's end: it has delivered the packets, and nothing is buffered.
  pub record Explored (ps : List (List ℕ)) (q : Q) (run : Handled Q) : Type 0 where
    pub end_state : TmTransferFrame
    pub queues : Q
    pub returned : run ≡ some (tm_rx_ok, end_state, queues)
    pub delivered : view queues ≡ view q ++ ps
    pub closed : end_state.mission.util.loop_state ≡ tm_loop_closed
    pub empty : end_state.mission.util.buffered_length ≡ 0

  -- What follows the packets: nothing, or an idle byte
  abbrev pub Ends : ℕ → ℕ → List ℕ → Type 0
  Ends used max_data_len behind =
      used ≡ max_data_len
      ⊎ ((used < max_data_len) × ((rest : List ℕ) × (behind ≡ tm_idle_packet ∷ rest)))

  pub at_idle_byte :
      (rounds : ℕ) (front rest : List ℕ) (tf : TmTransferFrame) (q : Q)
      → tf.bytes ≡ front ++ (tm_idle_packet ∷ rest)
      → explore_packets h (suc rounds) (length front) tf q
        ≡ some (tm_rx_ok, set_expected (close_loop tf) 0, q)
  unfolding explore_packets
  at_idle_byte rounds front rest tf q at =
      let k : ℕ = length front in
      let loaded : load tf.bytes k ≡ some tm_idle_packet =
        ap (λ (buf : List ℕ). load buf k) at
        ∙ load_behind front (tm_idle_packet ∷ rest) 0 k (omega arith) in
      let pointer : pointer_at tf.bytes k ≡ some (tm_idle_packet ∷ rest) =
        ap (λ (buf : List ℕ). pointer_at buf k) at
        ∙ pointer_behind front (tm_idle_packet ∷ rest) k refl in
      rw (loaded, pointer) refl
