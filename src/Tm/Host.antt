-- ===== src/Tm/Host.antt =====
-- include/osdlp_tm.h: the functions that the application implements, for a telemetry channel. `Q` is
-- the state of its queues. A function with an out parameter returns it beside the status.
use osdlp.Common.{ℕ, ℤ, Bool, List}

-- `set_back` is what the writes through the pointer of `osdlp_tm_tx_queue_back` do to the queue.
pub record TmTxHost (Q : Type 0) : Type 0 where
  pub tx_queue_empty : ℕ → Q → Bool
  pub tx_queue_back : ℕ → Q → ℤ × List ℕ
  pub set_back : List ℕ → ℕ → Q → Q
  pub tx_commit_back : ℕ → Q → Q
  pub tx_queue_enqueue : List ℕ → ℕ → Q → ℤ × Q
  pub get_packet_len : List ℕ → ℕ → ℤ × ℕ

-- `get_rx_config` hands out a pointer to a channel, which is an index here.
pub record TmRxHost (Q : Type 0) : Type 0 where
  pub get_rx_config : ℕ → Q → ℤ × ℕ
  pub rx_queue_enqueue : List ℕ → ℕ → Q → ℤ × Q
  pub get_packet_len : List ℕ → ℕ → ℤ × ℕ
