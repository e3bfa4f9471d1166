-- ===== src/Cop/Host.antt =====
-- include/osdlp_cop.h: what the sender's side of COP-1 asks of the application. The application
-- implements these functions over its queues and timers, of any type `Q`; a channel's number is the
-- first argument, and a negative result is an error. A function that fills in an item gives `none`
-- where it does not. The functions change the queues alone: an application that answers the library from
-- within one of them, as the queue of test/test.c does with osdlp_ad_accept and its kin in
-- osdlp_tc_tx_queue_enqueue, is not covered. Pointers to frames are the frames' bytes at the time of the call.
use osdlp.Common.{ℕ, ℤ, Bool, List, Option}
use osdlp.Tc.Types.{TransferFrame, FopConfig}

-- `struct queue_item`
pub record QueueItem : Type 0 where
  pub fdu : List ℕ
  pub rt_flag : ℕ
  pub seq_num : ℕ
  pub kind : ℕ

pub record Host (Q : Type 0) : Type 0 where
  pub wait_queue_enqueue : ℕ → TransferFrame FopConfig → Q → ℤ × Q
  pub wait_queue_dequeue : ℕ → Q → ℤ × Option (TransferFrame FopConfig) × Q
  pub wait_queue_empty : ℕ → Q → Bool
  pub wait_queue_clear : ℕ → Q → ℤ × Q
  pub sent_queue_enqueue : ℕ → QueueItem → Q → ℤ × Q
  pub sent_queue_dequeue : ℕ → Q → ℤ × Option QueueItem × Q
  pub sent_queue_empty : ℕ → Q → Bool
  pub sent_queue_clear : ℕ → Q → ℤ × Q
  pub sent_queue_head : ℕ → Q → ℤ × Option QueueItem × Q
  pub tx_queue_full : ℕ → Q → Bool
  pub tx_queue_enqueue : ℕ → List ℕ → Q → ℤ × Q
  pub timer_start : ℕ → Q → ℤ × Q
  pub timer_cancel : ℕ → Q → ℤ × Q
  pub cancel_lower_ops : Q → ℤ × Q
  pub mark_ad_as_rt : ℕ → Q → ℤ × Q
  pub mark_bc_as_rt : ℕ → Q → ℤ × Q
  pub reset_rt_frame : ℕ → QueueItem → Q → ℤ × Q
  pub get_first_ad_rt_frame : ℕ → Q → ℤ × Option QueueItem × Q
