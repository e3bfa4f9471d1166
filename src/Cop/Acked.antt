-- ===== src/Cop/Acked.antt =====
-- src/osdlp_cop.c, `osdlp_remove_acked_frames`: which frames it removes.
use osdlp.Common.{
  ap, ◌∙◌, ℕ, zero, suc, ◌+◌, ◌≤◌, ◌<◌, ◌≡◌, refl, pos, true, false, some, arith, is_neg, length,
  All, List, [], ◌∷◌, ◌++◌,
}
use osdlp.Cop.Host.{Host, QueueItem}
use osdlp.Cop.Sender.{Sender, ◌>>=◌, ◌>>◌, pure, fault, call_item, filled, set_fop, get_tf}
use osdlp.Cop.Actions.{or_minus_one}
use osdlp.Cop.Actions.Sent.{remove_acked_loop, remove_acked_frames}
use osdlp.Tc.Types.{FopConfig}

-- The sender after one round
abbrev one_less : {Q : Type 0} → Host Q → ℕ → Sender Q → Sender Q
one_less h nr s =
    let vcid = s.tf.primary_hdr.vcid in
    record {
      tf = record (s.tf) { cop_cfg = record (s.tf.cop_cfg) { nnr = nr; tx_cnt = 1 } };
      queues = (h.sent_queue_dequeue vcid (h.sent_queue_head vcid s.queues).2).2;
    }

-- A sent queue that keeps its items in order: `view` lists them, the oldest first.
pub record SentQueue {Q : Type 0} (h : Host Q) (view : Q → List QueueItem) : Type 0 where
  pub no_head : (vcid : ℕ) (q : Q) → view q ≡ [] → is_neg (h.sent_queue_head vcid q).0 ≡ true
  pub head :
      (vcid : ℕ) (q : Q) (item : QueueItem) (rest : List QueueItem)
      → view q ≡ item ∷ rest
      → (is_neg (h.sent_queue_head vcid q).0 ≡ false)
        × ((h.sent_queue_head vcid q).1 ≡ some item)
        × (view (h.sent_queue_head vcid q).2 ≡ item ∷ rest)
  pub dequeue :
      (vcid : ℕ) (q : Q) (item : QueueItem) (rest : List QueueItem)
      → view q ≡ item ∷ rest
      → (is_neg (h.sent_queue_dequeue vcid q).0 ≡ false)
        × (view (h.sent_queue_dequeue vcid q).2 ≡ rest)

-- None of the items carries the number.
abbrev pub IsOld : ℕ → List QueueItem → Type 0
IsOld nr acked = All (λ item. ¬ (item.seq_num ≡ nr)) acked

-- What the FOP notes when the items are gone
abbrev pub acknowledge : ℕ → List QueueItem → FopConfig → FopConfig
acknowledge nr [] fop = fop
acknowledge nr (x ∷ acked) fop = record fop { nnr = nr; tx_cnt = 1 }

acknowledge-twice :
    (nr : ℕ) (acked : List QueueItem) (fop : FopConfig)
    → acknowledge nr acked (record fop { nnr = nr; tx_cnt = 1 })
      ≡ record fop { nnr = nr; tx_cnt = 1 }
acknowledge-twice nr [] fop = refl
acknowledge-twice nr (x ∷ acked) fop = refl

module _ {Q : Type 0} (h : Host Q) (view : Q → List QueueItem) (sent : SentQueue h view) where
  loop_stops :
      (item : QueueItem) (rest : List QueueItem) (rounds counter nr : ℕ) (s : Sender Q)
      → view s.queues ≡ item ∷ rest
      → item.seq_num ≡ nr
      → remove_acked_loop h (suc rounds) counter nr s
        ≡ some (pos 0, record s { queues = (h.sent_queue_head s.tf.primary_hdr.vcid s.queues).2 })
  unfolding remove_acked_loop or_minus_one ◌>>=◌ ◌>>◌ pure fault call_item filled set_fop get_tf
  loop_stops item rest rounds counter nr s e same =
      ground (arith, sent.head s.tf.primary_hdr.vcid s.queues item rest e)

  loop_goes_on :
      (item : QueueItem) (rest : List QueueItem) (rounds counter nr : ℕ) (s : Sender Q)
      → view s.queues ≡ item ∷ rest
      → ¬ (item.seq_num ≡ nr)
      → counter + 1 ≤ s.tf.cop_cfg.slide_wnd
      → remove_acked_loop h (suc rounds) counter nr s
        ≡ remove_acked_loop h rounds (counter + 1) nr (one_less h nr s)
  unfolding remove_acked_loop or_minus_one ◌>>=◌ ◌>>◌ pure fault call_item filled set_fop get_tf
  loop_goes_on item rest rounds counter nr s e other room =
      let vcid : ℕ = s.tf.primary_hdr.vcid in
      let at_head = sent.head vcid s.queues item rest e in
      ground
        (arith, at_head, sent.dequeue vcid (h.sent_queue_head vcid s.queues).2 item rest at_head.2)

  loop_removes :
      (acked : List QueueItem) (item : QueueItem) (rest : List QueueItem) (rounds counter nr : ℕ)
      (s : Sender Q)
      → view s.queues ≡ acked ++ (item ∷ rest)
      → IsOld nr acked
      → item.seq_num ≡ nr
      → length acked < rounds
      → counter + length acked ≤ s.tf.cop_cfg.slide_wnd
      → (q : Q) × (remove_acked_loop h rounds counter nr s
          ≡ some (
            pos 0,
            record {
              tf = record (s.tf) { cop_cfg = acknowledge nr acked s.tf.cop_cfg };
              queues = q;
            },
          ))
        × (view q ≡ item ∷ rest)
  loop_removes [] item rest (suc rounds) counter nr s e old same enough room = (
    (h.sent_queue_head s.tf.primary_hdr.vcid s.queues).2,
    loop_stops item rest rounds counter nr s e same,
    (sent.head s.tf.primary_hdr.vcid s.queues item rest e).2,
  )
  loop_removes (x ∷ acked) item rest (suc rounds) counter nr s e old same enough room =
      let vcid : ℕ = s.tf.primary_hdr.vcid in
      let later =
        (sent.dequeue vcid (h.sent_queue_head vcid s.queues).2 x (acked ++ (item ∷ rest))
          (sent.head vcid s.queues x _ e).2).1 in
      let (q, run, left) =
        loop_removes acked item rest rounds (counter + 1) nr (one_less h nr s) later old.1 same
          (omega arith) (omega arith) in
      (
        q,
        loop_goes_on x (acked ++ (item ∷ rest)) rounds counter nr s e old.0 (omega arith)
            ∙ run
            ∙ ap (λ fop. some (pos 0, record { tf = record (s.tf) { cop_cfg = fop }; queues = q }))
                (acknowledge-twice nr acked s.tf.cop_cfg),
        left,
      )
  loop_removes acked item rest zero counter nr s e old same enough room = absurd (omega arith)

  -- Over a sent queue that keeps its order and holds, in front of the frame numbered N(R), at most `slide_wnd` frames of other numbers, `osdlp_remove_acked_frames` returns 0 and removes exactly these frames. If it removed any, NN(R) is then N(R) and the transmission count 1; the rest of the channel is as before.
  pub remove_acked_frames-removes :
      (acked : List QueueItem) (item : QueueItem) (rest : List QueueItem) (nr : ℕ) (s : Sender Q)
      → view s.queues ≡ acked ++ (item ∷ rest)
      → IsOld nr acked
      → item.seq_num ≡ nr
      → length acked ≤ s.tf.cop_cfg.slide_wnd
      → (q : Q) × (remove_acked_frames h nr s
          ≡ some (
            pos 0,
            record {
              tf = record (s.tf) { cop_cfg = acknowledge nr acked s.tf.cop_cfg };
              queues = q;
            },
          ))
        × (view q ≡ item ∷ rest)
  unfolding remove_acked_frames ◌>>=◌ get_tf
  remove_acked_frames-removes acked item rest nr s e old same room =
      loop_removes acked item rest (s.tf.cop_cfg.slide_wnd + 1) 0 nr s e old same (omega arith)
        (omega arith)
