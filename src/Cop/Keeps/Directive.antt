-- ===== src/Cop/Keeps/Directive.antt =====
-- A command is sent again at most once for each mark: `osdlp_look_for_directive` ends.
use osdlp.Common.{
  ℕ, suc, ◌≡◌, some, ◌∙◌, inl, inr, arith, ◌&&◌, if◌then◌else◌, ◌==◌, ==_iff, is_neg, Bool-cases,
}
use osdlp.Tc.Types.{type_b, Notification, ignore, undef_error, accept_dir}
use osdlp.Cop.Host.{Host, QueueItem}
use osdlp.Cop.Serves.{Preserves, HeadUnmarked, Serves, Ready}
use osdlp.Cop.Sender.{Sender, Fop, ◌>>=◌, pure, call}
use osdlp.Cop.Actions.{lower_layer_reject, alert_with}
use osdlp.Cop.Actions.Sent.{bc_accept_by, look_for_directive}
use osdlp.Cop.Keeps.{
  Leaves, Leaves-bind, Leaves-then, Leaves-mono, Same, by_fop_state-Leaves, pure-Keeps,
}
use osdlp.Cop.Keeps.Returns.{
  Returns, by_fop_state-Returns, Keeps-Returns, next-Returns, or_undef-Returns, returns,
  set_state-Returns,
}
use osdlp.Cop.Keeps.Calls.{conclude-Keeps, item-returns, item-Leaves, queues-Ready, signal-Keeps}
use osdlp.Cop.Keeps.Sending.{alert-Keeps}

module _ {Q : Type 0} {h : Host Q} {Ok : Q → Type 0} {size : ℕ} (serves : Serves h Ok size) where
  -- With its mark taken off, the command at the head is not sent again.
  unmarked-returns :
      (rounds : ℕ) (s : Sender Q)
      → Ready Ok size s
      → HeadUnmarked h s.tf.primary_hdr.vcid s.queues
      → Leaves (λ _ u. Same s u × Ready Ok size u) (look_for_directive h (suc rounds) s)
  unfolding look_for_directive HeadUnmarked
  unmarked-returns rounds s r unmarked =
      item-returns h.sent_queue_head _ _ s serves.sent_queue_head r
        (λ same ready. (signal-Keeps undef_error).apply _ ready)
        λ item e same ready. elim (Bool-cases (item.rt_flag == 1)) [
          | inl marked ↦ absurd (unmarked item e ((==_iff _ _).0 marked))
          | inr off ↦ rw off ((pure-Keeps accept_dir).apply _ ready)
        ]

  bc_accept-returns :
      (again : Fop Q Notification) (s : Sender Q)
      → Ready Ok size s
      → Leaves (λ _ u. Same s u × Ready Ok size u) (again s)
      → Leaves (λ _ u. Same s u × Ready Ok size u) (bc_accept_by h again s)
  unfolding bc_accept_by
  bc_accept-returns again s r returns =
      let ignored = (pure-Keeps ignore).apply s r in
      by_fop_state-Leaves (λ _ u. Same s u × Ready Ok size u) _ _ _ _ _ _ _ s ignored ignored
        ignored ignored
        (Leaves-bind _ _ _ _ s returns
          (λ n t kept. Leaves-then _ s t _ kept.0 ((conclude-Keeps n).apply t kept.1)))
        ignored ((signal-Keeps undef_error).apply s r)

  -- The command at the head, sent again and taken off its mark
  reset-returns :
      (rounds : ℕ) (item : QueueItem) (s : Sender Q)
      → (h.sent_queue_head s.tf.primary_hdr.vcid s.queues).1 ≡ some item
      → Ready Ok size s
      → Leaves
          (λ _ u. Same s u × Ready Ok size u)
          ((do
            ret ← call (λ vcid. h.reset_rt_frame vcid (record item { rt_flag = 0 }))
            if is_neg ret
                then pure undef_error
                else bc_accept_by h (look_for_directive h (suc rounds)))
            s)
  unfolding call ◌>>=◌ HeadUnmarked Preserves
  reset-returns rounds item s head r =
      let vcid : ℕ = s.tf.primary_hdr.vcid in
      let item' : QueueItem = record item { rt_flag = 0 } in
      let t : Sender Q = record s { queues = (h.reset_rt_frame vcid item' s.queues).1 } in
      let ready = queues-Ready s _ r (serves.reset_rt_frame item' vcid s.queues r.queues) in
      Leaves-then (Ready Ok size) s t _ (ground arith)
        (elim (Bool-cases (is_neg (h.reset_rt_frame vcid item' s.queues).0)) [
          | inl e ↦ rw e ((pure-Keeps undef_error).apply t ready)
          | inr e ↦
              let unmarked = serves.reset_unmarks_head item vcid s.queues r.queues head e in
              rw e (bc_accept-returns _ t ready (unmarked-returns rounds t ready unmarked))
        ])

  pub alert_with-Returns : (n : Notification) → Returns (Ready Ok size) (alert_with h n)
  unfolding alert_with
  alert_with-Returns n =
      or_undef-Returns (search (Keeps-Returns, alert-Keeps serves))
        (next-Returns (set_state-Returns _) (Keeps-Returns (signal-Keeps n)))

  lower_layer_reject-Returns : Returns (Ready Ok size) (lower_layer_reject h)
  unfolding lower_layer_reject
  lower_layer_reject-Returns =
      by_fop_state-Returns (alert_with-Returns _) (alert_with-Returns _) (alert_with-Returns _)
        (alert_with-Returns _) (alert_with-Returns _)
        (or_undef-Returns (Keeps-Returns (alert-Keeps serves)) (Keeps-Returns (signal-Keeps _)))
        (Keeps-Returns (signal-Keeps _))

  send_again-returns :
      (rounds : ℕ) (item : QueueItem) (s : Sender Q)
      → (h.sent_queue_head s.tf.primary_hdr.vcid s.queues).1 ≡ some item
      → Ready Ok size s
      → Leaves
          (λ _ u. Ready Ok size u)
          ((if (item.rt_flag == 1) && (item.kind == type_b)
              then (do
                ret ← call (λ vcid. h.tx_queue_enqueue vcid item.fdu)
                if is_neg ret then lower_layer_reject h else (do
                  ret ← call (λ vcid. h.reset_rt_frame vcid (record item { rt_flag = 0 }))
                  if is_neg ret
                      then pure undef_error
                      else bc_accept_by h (look_for_directive h (suc rounds))))
              else pure accept_dir)
            s)
  unfolding call ◌>>=◌ Preserves pure
  send_again-returns rounds item s head r =
      let vcid : ℕ = s.tf.primary_hdr.vcid in
      let out = h.tx_queue_enqueue vcid item.fdu s.queues in
      let t : Sender Q = record s { queues = out.1 } in
      let ready = queues-Ready s _ r (serves.tx_queue_enqueue item.fdu vcid s.queues r.queues) in
      let head' = serves.tx_keeps_head item.fdu vcid s.queues r.queues ∙ head in
      elim (Bool-cases ((item.rt_flag == 1) && (item.kind == type_b))) [
        | inl e ↦ rw e (elim (Bool-cases (is_neg out.0)) [
          | inl refused ↦ rw refused (lower_layer_reject-Returns.apply t ready)
          | inr sent ↦ rw sent (
              Leaves-mono (λ _ u. Same t u × Ready Ok size u) (λ _ u. Ready Ok size u) _
                (λ a u kept. kept.1) (reset-returns rounds item t head' ready))
        ])
        | inr e ↦ rw e r
      ]

  -- Two rounds are enough for `osdlp_look_for_directive`.
  pub look_for_directive-Returns :
      (rounds : ℕ) → Returns (Ready Ok size) (look_for_directive h (suc (suc rounds)))
  unfolding look_for_directive
  look_for_directive-Returns rounds = record {
    apply = λ s r.
        item-Leaves _ h.sent_queue_head _ _ s serves.sent_queue_head r
          (λ same ready. (Keeps-Returns (signal-Keeps undef_error)).apply _ ready)
          (λ item e same ready.
            send_again-returns rounds item _
              (serves.head_stays s.tf.primary_hdr.vcid s.queues r.queues ∙ e) ready);
  }
