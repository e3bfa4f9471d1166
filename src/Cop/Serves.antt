-- ===== src/Cop/Serves.antt =====
-- What the sender relies on of the application's queues and timers, and of the channel it works on.
use osdlp.Common.{ℕ, ◌≤◌, ◌≡◌, ◌⊎◌, ℤ, List, true, false, Option, some, is_neg, length}
use osdlp.Tc.Types.{TcFdf, FopConfig, TransferFrame}
use osdlp.Tc.Frame.Bounds.{HasRoom}
use osdlp.Cop.Host.{Host, QueueItem}
use osdlp.Cop.Sender.{Sender}

-- The data of a frame: as many bytes as it tells, and at most `size`.
pub record Fits (size : ℕ) (fdf : TcFdf) : Type 0 where
  pub data_len : fdf.data_len ≤ size
  pub bytes : fdf.data_len ≤ length fdf.bytes

-- Functions of the application that keep its queues in order (`Ok`): one that changes the queues, one
-- that fills in an item or not, and one that does so whenever it reports no error.
unfoldable pub Preserves : {Q : Type 0} → (Q → Type 0) → (ℕ → Q → ℤ × Q) → Type 0
Preserves {Q} Ok f = (vcid : ℕ) (q : Q) → Ok q → Ok (f vcid q).1

unfoldable pub PreservesItem : {Q A : Type 0} → (Q → Type 0) → (ℕ → Q → ℤ × Option A × Q) → Type 0
PreservesItem {Q} Ok f = (vcid : ℕ) (q : Q) → Ok q → Ok (f vcid q).2

unfoldable pub Fills : {Q A : Type 0} → (Q → Type 0) → (ℕ → Q → ℤ × Option A × Q) → Type 0
Fills {Q} {A} Ok f =
    (vcid : ℕ) (q : Q)
    → Ok q
    → ((is_neg (f vcid q).0 ≡ true) ⊎ ((a : A) × ((f vcid q).1 ≡ some a))) × Ok (f vcid q).2

-- The head of the sent queue, if it has one, is not marked for being sent again.
unfoldable pub HeadUnmarked : {Q : Type 0} → Host Q → ℕ → Q → Type 0
HeadUnmarked h vcid q =
    (item : QueueItem) → (h.sent_queue_head vcid q).1 ≡ some item → ¬ (item.rt_flag ≡ 1)

-- Frames that wait carry at most `size` bytes. To look at the head of the sent queue or to queue bytes for
-- the lower layer leaves that head, and to reset the head's flag, where it is not refused, leaves a head
-- without it. None of these functions calls back into the library: they change the queues alone.
pub record Serves {Q : Type 0} (h : Host Q) (Ok : Q → Type 0) (size : ℕ) : Type 0 where
  pub wait_queue_enqueue :
      (tf : TransferFrame FopConfig)
      → Fits size tf.frame_data
      → Preserves Ok (λ vcid. h.wait_queue_enqueue vcid tf)
  pub wait_queue_dequeue :
      (vcid : ℕ) (q : Q)
      → Ok q
      → h.wait_queue_empty vcid q ≡ false
      → (tf : TransferFrame FopConfig) × ((h.wait_queue_dequeue vcid q).1 ≡ some tf)
        × Fits size tf.frame_data
        × Ok (h.wait_queue_dequeue vcid q).2
  pub wait_queue_clear : Preserves Ok h.wait_queue_clear
  pub sent_queue_enqueue :
      (item : QueueItem) → Preserves Ok (λ vcid. h.sent_queue_enqueue vcid item)
  pub sent_queue_dequeue : PreservesItem Ok h.sent_queue_dequeue
  pub sent_queue_clear : Preserves Ok h.sent_queue_clear
  pub sent_queue_head : Fills Ok h.sent_queue_head
  pub tx_queue_enqueue : (fdu : List ℕ) → Preserves Ok (λ vcid. h.tx_queue_enqueue vcid fdu)
  pub timer_start : Preserves Ok h.timer_start
  pub timer_cancel : Preserves Ok h.timer_cancel
  pub cancel_lower_ops : Preserves Ok (λ _. h.cancel_lower_ops)
  pub mark_ad_as_rt : Preserves Ok h.mark_ad_as_rt
  pub mark_bc_as_rt : Preserves Ok h.mark_bc_as_rt
  pub reset_rt_frame : (item : QueueItem) → Preserves Ok (λ vcid. h.reset_rt_frame vcid item)
  pub head_stays :
      (vcid : ℕ) (q : Q)
      → Ok q
      → (h.sent_queue_head vcid (h.sent_queue_head vcid q).2).1 ≡ (h.sent_queue_head vcid q).1
  pub tx_keeps_head :
      (fdu : List ℕ) (vcid : ℕ) (q : Q)
      → Ok q
      → (h.sent_queue_head vcid (h.tx_queue_enqueue vcid fdu q).1).1 ≡ (h.sent_queue_head vcid q).1
  pub reset_unmarks_head :
      (item : QueueItem) (vcid : ℕ) (q : Q)
      → Ok q
      → (h.sent_queue_head vcid q).1 ≡ some item
      → let out = h.reset_rt_frame vcid (record item { rt_flag = 0 }) q in
        is_neg out.0 ≡ false → HeadUnmarked h vcid out.1
  pub get_first_ad_rt_frame : Fills Ok h.get_first_ad_rt_frame

-- The channel at work: the application's queues are in order, the frame at hand has its data, and the
-- channel's buffer has room for `size` bytes of data.
pub record Ready {Q : Type 0} (Ok : Q → Type 0) (size : ℕ) (s : Sender Q) : Type 0 where
  pub queues : Ok s.queues
  pub frame : Fits size s.tf.frame_data
  pub room : HasRoom s.tf.mission size s.tf.mission.util.buffer
