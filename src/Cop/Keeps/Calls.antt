-- ===== src/Cop/Keeps/Calls.antt =====
-- The calls of the application, and the items that it fills in.
use osdlp.Common.{
  ℕ, ◌≡◌, inl, inr, ℤ, negsuc, Bool, true, false, Option, some, arith, if◌then◌else◌, is_neg,
  Bool-cases,
}
use osdlp.Tc.Types.{FopConfig, Notification, undef_error}
use osdlp.Cop.Serves.{Preserves, PreservesItem, Fills, Ready}
use osdlp.Cop.Sender.{
  Sender, Fop, ◌>>=◌, set_fop, signal_and_return, call, call_item, filled, conclude, is_ignore,
}
use osdlp.Cop.Actions.{or_minus_one, or_undef}
use osdlp.Cop.Keeps.{
  Same, Same-refl, Same-trans, Leaves, Leaves-bind, Leaves-mono, Leaves-then, if-Leaves,
  by_fop_state-Leaves, Keeps, bind-Keeps, next-Keeps, if-Keeps, pure-Keeps, ask-Keeps, get_tf-Keeps,
  by_fop_state-Keeps,
}

-- The members of the FOP that the actions leave alone
abbrev pub SameFop : FopConfig → FopConfig → Type 0
SameFop a b =
    (b.state ≡ a.state)
    × (b.slide_wnd ≡ a.slide_wnd)
    × (b.tx_lim ≡ a.tx_lim)
    × (b.tt ≡ a.tt)
    × (b.t1_init ≡ a.t1_init)

module _ {Q : Type 0} {Ok : Q → Type 0} {size : ℕ} where
  pub set_fop-Ready :
      (s : Sender Q) (fop : FopConfig)
      → Ready Ok size s
      → Ready Ok size (record s { tf = record (s.tf) { cop_cfg = fop } })
  set_fop-Ready s fop r = record { queues = r.queues; frame = r.frame; room = r.room }

  pub queues-Ready :
      (s : Sender Q) (q : Q) → Ready Ok size s → Ok q → Ready Ok size (record s { queues = q })
  queues-Ready s q r ok = record { queues = ok; frame = r.frame; room = r.room }

  pub call-Keeps : (f : ℕ → Q → ℤ × Q) → Preserves Ok f → Keeps (Ready Ok size) (call f)
  unfolding call Preserves
  call-Keeps f p = record {
    apply = λ s r. (ground arith, queues-Ready s _ r (p s.tf.primary_hdr.vcid s.queues r.queues));
  }

  pub call_item-Keeps :
      {A : Type 0} (f : ℕ → Q → ℤ × Option A × Q)
      → PreservesItem Ok f
      → Keeps (Ready Ok size) (call_item f)
  unfolding call_item PreservesItem
  call_item-Keeps f p = record {
    apply = λ s r. (ground arith, queues-Ready s _ r (p s.tf.primary_hdr.vcid s.queues r.queues));
  }

  -- An item that is used where it is filled in
  pub item-Leaves :
      {A B : Type 0} (P : B → Sender Q → Type 0) (f : ℕ → Q → ℤ × Option A × Q) (m : Fop Q B)
      (k : A → Fop Q B) (s : Sender Q)
      → Fills Ok f
      → Ready Ok size s
      → let t : Sender Q = record s { queues = (f s.tf.primary_hdr.vcid s.queues).2 } in
        (Same s t → Ready Ok size t → Leaves P (m t))
        → ((a : A)
            → (f s.tf.primary_hdr.vcid s.queues).1 ≡ some a
            → Same s t
            → Ready Ok size t
            → Leaves P (k a t))
        → Leaves P ((call_item f >>= λ r. if is_neg r.0 then m else (filled r.1 >>= k)) s)
  unfolding call_item Fills ◌>>=◌ filled
  item-Leaves P f m k s p r hm hk =
      let vcid : ℕ = s.tf.primary_hdr.vcid in
      let (fills, ok) = p vcid s.queues r.queues in
      let same : Same s (record s { queues = (f vcid s.queues).2 }) = ground arith in
      let ready = queues-Ready s _ r ok in
      elim fills [
        | inl e ↦ rw e (hm same ready)
        | inr (a, e) ↦ rw e (elim (Bool-cases (is_neg (f vcid s.queues).0)) [
          | inl neg ↦ rw neg (hm same ready)
          | inr not_neg ↦ rw not_neg (hk a e same ready)
        ])
      ]

  pub item-returns :
      {A B : Type 0} (f : ℕ → Q → ℤ × Option A × Q) (m : Fop Q B) (k : A → Fop Q B) (s : Sender Q)
      → Fills Ok f
      → Ready Ok size s
      → let t : Sender Q = record s { queues = (f s.tf.primary_hdr.vcid s.queues).2 } in
        (Same s t → Ready Ok size t → Leaves (λ _ u. Same t u × Ready Ok size u) (m t))
        → ((a : A)
            → (f s.tf.primary_hdr.vcid s.queues).1 ≡ some a
            → Same s t
            → Ready Ok size t
            → Leaves (λ _ u. Same t u × Ready Ok size u) (k a t))
        → Leaves
            (λ _ u. Same s u × Ready Ok size u)
            ((call_item f >>= λ r. if is_neg r.0 then m else (filled r.1 >>= k)) s)
  item-returns f m k s p r hm hk =
      let t : Sender Q = record s { queues = (f s.tf.primary_hdr.vcid s.queues).2 } in
      item-Leaves _ f m k s p r
        (λ same ready. Leaves-then (Ready Ok size) s t (m t) same (hm same ready))
        (λ a e same ready. Leaves-then (Ready Ok size) s t (k a t) same (hk a e same ready))

  pub item-Keeps :
      {A B : Type 0} (f : ℕ → Q → ℤ × Option A × Q) {m : Fop Q B} {k : A → Fop Q B}
      → Fills Ok f
      → Keeps (Ready Ok size) m
      → ((a : A) → Keeps (Ready Ok size) (k a))
      → Keeps (Ready Ok size) (call_item f >>= λ r. if is_neg r.0 then m else (filled r.1 >>= k))
  item-Keeps f p hm hk = record {
    apply = λ s r.
        item-returns f _ _ s p r (λ same ready. hm.apply _ ready)
          (λ a e same ready. (hk a).apply _ ready);
  }

  pub signal-Keeps : (n : Notification) → Keeps (Ready {Q = Q} Ok size) (signal_and_return n)
  unfolding signal_and_return
  signal-Keeps n = record { apply = λ s r. (ground arith, set_fop-Ready s _ r) }

  pub conclude-Keeps : (n : Notification) → Keeps (Ready {Q = Q} Ok size) (conclude n)
  unfolding conclude
  conclude-Keeps n = record { apply = λ s r. choose s r (is_ignore n) }
    where
      choose :
          (s : Sender Q) (r : Ready Ok size s) (b : Bool)
          → Leaves
              (λ _ t. Same s t × Ready Ok size t)
              (if b then some (s.tf.cop_cfg.signal, s) else signal_and_return n s)
      choose s r true = (Same-refl s, r)
      choose s r false = (signal-Keeps n).apply s r

  pub or_minus_one-Keeps :
      {m rest : Fop Q ℤ}
      → Keeps (Ready Ok size) m
      → Keeps (Ready Ok size) rest
      → Keeps (Ready Ok size) (or_minus_one m rest)
  unfolding or_minus_one
  or_minus_one-Keeps hm hr = bind-Keeps hm (λ r. if-Keeps (is_neg r) (pure-Keeps (negsuc 0)) hr)

  pub or_undef-Keeps :
      {m : Fop Q ℤ} {rest : Fop Q Notification}
      → Keeps (Ready Ok size) m
      → Keeps (Ready Ok size) rest
      → Keeps (Ready Ok size) (or_undef m rest)
  unfolding or_undef
  or_undef-Keeps hm hr = bind-Keeps hm (λ r. if-Keeps (is_neg r) (signal-Keeps undef_error) hr)

  pub set_fop-Keeps :
      (f : FopConfig → FopConfig)
      → ((fop : FopConfig) → SameFop fop (f fop))
      → Keeps (Ready {Q = Q} Ok size) (set_fop f)
  unfolding set_fop
  set_fop-Keeps f g = record {
    apply = λ s r. (ground (arith, g s.tf.cop_cfg), set_fop-Ready s _ r);
  }

pub ruleset keeps = (
  bind-Keeps, next-Keeps, if-Keeps, pure-Keeps, call-Keeps, call_item-Keeps, ask-Keeps,
  get_tf-Keeps, item-Keeps, set_fop-Keeps, signal-Keeps, conclude-Keeps, or_minus_one-Keeps,
  or_undef-Keeps,
)
