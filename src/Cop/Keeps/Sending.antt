-- ===== src/Cop/Keeps/Sending.antt =====
-- The actions that send frames, one by one.
use osdlp.Common.{
  ℕ, ◌≡◌, refl, inl, inr, ℤ, Bool, true, false, List, Option, none, some, arith, if◌then◌else◌,
  is_neg, Bool-cases, ◌≤◌, length,
}
use osdlp.Tc.Types.{FopConfig, TransferFrame, Notification}
use osdlp.Tc.Frame.Bounds.{HasRoom, ReturnsPacked, tc_pack_in_range}
use osdlp.Cop.Host.{Host}
use osdlp.Cop.Sender.{
  Fop, call_item, filled, ask, ◌>>=◌, pure, get_tf, set_tf, set_fop, Sender, signal_and_return,
}
use osdlp.Cop.Actions.{
  purge_wait_queue, purge_sent_queue, initialize_cop, alert, resume, or_undef, may_transmit,
}
use osdlp.Cop.Actions.Transmit.{
  pack_into_util, enqueue_sent, enqueue_tx, transmit_type_ad, set_frame_len, transmit_type_bc,
  transmit_type_bd, retransmit_marked, transmit_waiting, look_for_fdu, initiate_retransmission,
}
use osdlp.Cop.Serves.{Fits, Preserves, Serves, Ready}
use osdlp.Cop.Keeps.{
  Same, Leaves, Leaves-bind, Leaves-then, Keeps, bind-Keeps, next-Keeps, if-Keeps, pure-Keeps,
  ask-Keeps, accept_tx, delay_resp, ignore,
}
use osdlp.Cop.Keeps.Calls.{keeps, signal-Keeps, set_fop-Keeps, queues-Ready}

module _ {Q : Type 0} {h : Host Q} {Ok : Q → Type 0} {size : ℕ} (serves : Serves h Ok size) where
  purge_wait_queue-Keeps : Keeps (Ready Ok size) (purge_wait_queue h)
  unfolding purge_wait_queue
  purge_wait_queue-Keeps = search (keeps, serves.wait_queue_clear)

  purge_sent_queue-Keeps : Keeps (Ready Ok size) (purge_sent_queue h)
  unfolding purge_sent_queue
  purge_sent_queue-Keeps = search (keeps, serves.sent_queue_clear)

  pub alert-Keeps : Keeps (Ready Ok size) (alert h)
  unfolding alert
  alert-Keeps =
      search (keeps, serves.timer_cancel, purge_wait_queue-Keeps, purge_sent_queue-Keeps) depth 8

  pub initialize_cop-Keeps : Keeps (Ready Ok size) (initialize_cop h)
  unfolding initialize_cop
  initialize_cop-Keeps = search (keeps, purge_wait_queue-Keeps, purge_sent_queue-Keeps) depth 8

  pub resume-Keeps : Keeps (Ready Ok size) (resume h)
  unfolding resume
  resume-Keeps = search (keeps, serves.timer_start)

  -- Data that fits into the channel's buffer is packed.
  pack_into_util-Keeps :
      (bytes : List ℕ) (len : ℕ)
      → len ≤ size
      → len ≤ length bytes
      → Keeps (Ready Ok size) (pack_into_util h bytes len)
  unfolding pack_into_util ReturnsPacked
  pack_into_util-Keeps bytes len small enough = record {
    apply = λ s r.
        let room : HasRoom s.tf.mission len s.tf.mission.util.buffer = ground (arith, r.room) in
        let (out, crc, packed, n) =
          tc_pack_in_range s.tf s.tf.mission.util.buffer bytes len enough room in
        rw (packed, Leaves)
          (
            ground arith,
            record { queues = r.queues; frame = r.frame; room = ground (arith, r.room) },
          );
  }

  enqueue_sent-Keeps : (kind : ℕ) → Keeps (Ready Ok size) (enqueue_sent h kind)
  unfolding enqueue_sent
  enqueue_sent-Keeps kind = search (keeps, serves.sent_queue_enqueue)

  enqueue_tx-Keeps : Keeps (Ready Ok size) (enqueue_tx h)
  unfolding enqueue_tx
  enqueue_tx-Keeps = search (keeps, serves.tx_queue_enqueue)

  new_transmission-Keeps :
      (b : Bool)
      → Keeps (Ready Ok size) (set_fop (λ fop. if b then record fop { tx_cnt = 1 } else fop))
  new_transmission-Keeps true = set_fop-Keeps _ (λ fop. (refl, refl, refl, refl, refl))
  new_transmission-Keeps false = set_fop-Keeps _ (λ fop. (refl, refl, refl, refl, refl))

  set_frame_len-Keeps : Keeps (Ready Ok size) (set_frame_len h)
  unfolding set_frame_len set_tf get_tf ◌>>=◌
  set_frame_len-Keeps = record {
    apply = λ s r. (ground arith, record { queues = r.queues; frame = r.frame; room = r.room });
  }

  ruleset sending = (keeps, enqueue_sent-Keeps, enqueue_tx-Keeps, set_frame_len-Keeps)

  -- The frame that waits first is taken.
  taken-returns :
      {A : Type 0} (k : TransferFrame FopConfig → Fop Q A) (s : Sender Q)
      → Ready Ok size s
      → h.wait_queue_empty s.tf.primary_hdr.vcid s.queues ≡ false
      → ((tf : TransferFrame FopConfig) → Fits size tf.frame_data → Keeps (Ready Ok size) (k tf))
      → Leaves
          (λ _ t. Same s t × Ready Ok size t)
          ((call_item h.wait_queue_dequeue >>= λ next. filled next.1 >>= k) s)
  unfolding call_item filled ◌>>=◌
  taken-returns k s r waits g =
      let (tf, e, fits, ok) =
        serves.wait_queue_dequeue s.tf.primary_hdr.vcid s.queues r.queues waits in
      let t : Sender Q = record s {
        queues = (h.wait_queue_dequeue s.tf.primary_hdr.vcid s.queues).2;
      } in
      rw e (
        Leaves-then (Ready Ok size) s t (k tf t) (ground arith)
          ((g tf fits).apply t (queues-Ready s _ r ok)))

  transmit_type_ad-returns :
      (s : Sender Q)
      → Ready Ok size s
      → h.wait_queue_empty s.tf.primary_hdr.vcid s.queues ≡ false
      → Leaves (λ _ t. Same s t × Ready Ok size t) (transmit_type_ad h s)
  unfolding transmit_type_ad
  transmit_type_ad-returns s r waits = taken-returns _ s r waits λ tf fits.
      next-Keeps (pack_into_util-Keeps _ _ fits.data_len fits.bytes) (
        bind-Keeps (ask-Keeps _) λ nothing_sent.
          next-Keeps (new_transmission-Keeps nothing_sent)
            (search (sending, serves.timer_start) depth 16))

  transmit-Keeps :
      (f : TransferFrame FopConfig → Fop Q ℤ)
      → ((tf : TransferFrame FopConfig) → Fits size tf.frame_data → Keeps (Ready Ok size) (f tf))
      → Keeps (Ready Ok size) (get_tf >>= f)
  unfolding get_tf ◌>>=◌
  transmit-Keeps f g = record { apply = λ s r. (g s.tf r.frame).apply s r }

  pub transmit_type_bc-Keeps : Keeps (Ready Ok size) (transmit_type_bc h)
  unfolding transmit_type_bc
  transmit_type_bc-Keeps = transmit-Keeps _ λ tf fits.
      next-Keeps (pack_into_util-Keeps _ _ fits.data_len fits.bytes)
        (search (sending, serves.timer_start) depth 20)

  pub transmit_type_bd-Keeps : Keeps (Ready Ok size) (transmit_type_bd h)
  unfolding transmit_type_bd
  transmit_type_bd-Keeps = transmit-Keeps _ λ tf fits.
      next-Keeps (pack_into_util-Keeps _ _ fits.data_len fits.bytes) (search sending depth 20)

  retransmit_marked-Keeps : Keeps (Ready Ok size) (retransmit_marked h)
  unfolding retransmit_marked
  retransmit_marked-Keeps =
      search (keeps, serves.get_first_ad_rt_frame, serves.reset_rt_frame, serves.tx_queue_enqueue)
        depth 24

  waiting-returns :
      (s : Sender Q) (b : Bool)
      → Ready Ok size s
      → h.wait_queue_empty s.tf.primary_hdr.vcid s.queues ≡ false
      → Leaves
          (λ _ t. Same s t × Ready Ok size t)
          ((if b
              then or_undef (transmit_type_ad h) (signal_and_return accept_tx)
              else signal_and_return delay_resp)
            s)
  unfolding or_undef
  waiting-returns s true r waits =
      Leaves-bind _ _ _ _ s (transmit_type_ad-returns s r waits) λ ret t kept.
        Leaves-then _ s t _ kept.0
          ((if-Keeps (is_neg ret) (signal-Keeps _) (signal-Keeps _)).apply t kept.1)
  waiting-returns s false r waits = (signal-Keeps _).apply s r

  transmit_waiting-Keeps : Keeps (Ready Ok size) (transmit_waiting h)
  unfolding transmit_waiting ask get_tf ◌>>=◌
  transmit_waiting-Keeps = record {
    apply = λ s r. elim (Bool-cases (h.wait_queue_empty s.tf.primary_hdr.vcid s.queues)) [
      | inl e ↦ rw e ((pure-Keeps ignore).apply s r)
      | inr e ↦ rw e (waiting-returns s (may_transmit s.tf.cop_cfg) r e)
    ];
  }

  look_on-Keeps :
      (o : Option Notification)
      → Keeps
          (Ready Ok size)
          (let m : Fop Q Notification = elim o [ some n ↦ pure n | none ↦ transmit_waiting h ] in m)
  look_on-Keeps none = transmit_waiting-Keeps
  look_on-Keeps (some n) = pure-Keeps n

  pub look_for_fdu-Keeps : Keeps (Ready Ok size) (look_for_fdu h)
  unfolding look_for_fdu
  look_for_fdu-Keeps = bind-Keeps retransmit_marked-Keeps look_on-Keeps

  pub initiate_retransmission-Keeps :
      (mark : ℕ → Q → ℤ × Q)
      → Preserves Ok mark
      → Keeps (Ready Ok size) (initiate_retransmission h mark)
  unfolding initiate_retransmission
  initiate_retransmission-Keeps mark p =
      search (keeps, serves.cancel_lower_ops, serves.timer_start, p) depth 12
