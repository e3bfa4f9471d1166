-- ===== src/Cop/Keeps/Sent.antt =====
-- The actions on the frames that have been sent: the loops end.
use osdlp.Common.{
  ℕ, zero, suc, ◌+◌, ◌≤◌, ◌<◌, ◌≡◌, refl, inl, inr, ℤ, pos, negsuc, Bool, true, false, arith, ltb,
  if◌then◌else◌, ◌==◌, is_neg, Bool-cases,
}
use osdlp.Cop.Host.{Host}
use osdlp.Cop.Serves.{Serves, Ready}
use osdlp.Cop.Sender.{Sender, Fop, ◌>>=◌, ◌>>◌, pure, get_tf, set_fop}
use osdlp.Cop.Actions.{or_minus_one}
use osdlp.Cop.Actions.Sent.{remove_acked_loop, remove_acked_frames, release_copy_of_bc}
use osdlp.Cop.Keeps.{Same, Leaves, Leaves-bind, Leaves-then, Keeps, bind-Keeps, pure-Keeps}
use osdlp.Cop.Keeps.Calls.{keeps, call_item-Keeps, item-returns, set_fop-Ready}

module _ {Q : Type 0} {h : Host Q} {Ok : Q → Type 0} {size : ℕ} (serves : Serves h Ok size) where
  pub release_copy_of_bc-Keeps : Keeps (Ready Ok size) (release_copy_of_bc h)
  unfolding release_copy_of_bc
  release_copy_of_bc-Keeps =
      search (keeps, serves.sent_queue_head, serves.sent_queue_dequeue) depth 16

  -- A round that removes a frame, given that the rounds after it return.
  removed-returns :
      (counter nr : ℕ) (rest : Fop Q ℤ) (s : Sender Q)
      → Ready Ok size s
      → ((t : Sender Q)
          → Ready Ok size t
          → t.tf.cop_cfg.slide_wnd ≡ s.tf.cop_cfg.slide_wnd
          → counter + 1 ≤ s.tf.cop_cfg.slide_wnd
          → Leaves (λ _ u. Same t u × Ready Ok size u) (rest t))
      → (gone : Bool)
      → Leaves
          (λ _ u. Same s u × Ready Ok size u)
          ((if gone then pure (negsuc 0) else (do
            set_fop (λ fop. record fop { nnr = nr; tx_cnt = 1 })
            tf ← get_tf
            if ltb tf.cop_cfg.slide_wnd (counter + 1) then pure (pos 1) else rest))
            s)
  unfolding set_fop get_tf ◌>>=◌ ◌>>◌
  removed-returns counter nr rest s r more true = (pure-Keeps (negsuc 0)).apply s r
  removed-returns counter nr rest s r more false =
      let t : Sender Q = record s {
        tf = record (s.tf) { cop_cfg = record (s.tf.cop_cfg) { nnr = nr; tx_cnt = 1 } };
      } in
      let ready = set_fop-Ready s _ r in
      Leaves-then (Ready Ok size) s t _ (ground arith)
        (elim (Bool-cases (ltb s.tf.cop_cfg.slide_wnd (counter + 1))) [
          | inl e ↦ rw e ((pure-Keeps (pos 1)).apply t ready)
          | inr e ↦ rw e (more t ready refl (ground arith))
        ])

  loop_returns :
      (rounds counter nr : ℕ) (s : Sender Q)
      → Ready Ok size s
      → counter ≤ s.tf.cop_cfg.slide_wnd
      → s.tf.cop_cfg.slide_wnd < counter + rounds
      → Leaves (λ _ u. Same s u × Ready Ok size u) (remove_acked_loop h rounds counter nr s)
  unfolding remove_acked_loop or_minus_one
  loop_returns zero counter nr s r p q = absurd (omega arith)
  loop_returns (suc rounds) counter nr s r p q =
      item-returns h.sent_queue_head _ _ s serves.sent_queue_head r
        (λ same ready. (pure-Keeps (pos 0)).apply _ ready)
        λ item e same ready. elim (Bool-cases (item.seq_num == nr)) [
          | inl e ↦ rw e ((pure-Keeps (pos 0)).apply _ ready)
          | inr e ↦ rw e (
              Leaves-bind _ _ _ _ _
                ((bind-Keeps (call_item-Keeps _ serves.sent_queue_dequeue)
                    (λ gone. pure-Keeps gone.0)).apply
                  _ ready)
                λ ret t kept. Leaves-then _ _ t _ kept.0 (
                  removed-returns counter nr (remove_acked_loop h rounds (counter + 1) nr) t kept.1
                    (λ u ready wnd left.
                      loop_returns rounds (counter + 1) nr u ready
                        (omega (arith, same.slide_wnd, kept.0.slide_wnd))
                        (omega (arith, same.slide_wnd, kept.0.slide_wnd)))
                    (is_neg ret)))
        ]

  pub remove_acked_frames-Keeps : (nr : ℕ) → Keeps (Ready Ok size) (remove_acked_frames h nr)
  unfolding remove_acked_frames ◌>>=◌ get_tf
  remove_acked_frames-Keeps nr = record {
    apply = λ s r. loop_returns (s.tf.cop_cfg.slide_wnd + 1) 0 nr s r (omega arith) (omega arith);
  }
