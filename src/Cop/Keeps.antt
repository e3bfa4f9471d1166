-- ===== src/Cop/Keeps.antt =====
-- The sender's actions return, over an application that serves it and a channel that is ready, and they
-- leave as it was the FOP's state and what the management has set.
pub mod Calls
pub mod Returns
pub mod Sending
pub mod Sent
pub mod Directive
use osdlp.Common.{
  ℕ, zero, suc, ◌+◌, ◌-◌, ◌%◌, ◌≤◌, ◌<◌, ◌≡◌, refl, ◌⊎◌, inl, inr, ℤ, pos, negsuc, Bool, true,
  false, not, ◌&&◌, ◌||◌, List, Option, none, some, arith, ltb, leb, ◌==◌, if◌then◌else◌, is_neg,
  Option-cases, Bool-cases,
}
use osdlp.Tc.Types.{
  FopConfig, TransferFrame, Notification, ignore, undef_error, accept_tx, delay_resp, TcPrimaryHdr,
}
use osdlp.Tc.Frame.{tc_pack, store_primary_hdr, store_fdf, store_crc}
use osdlp.Cop.Host.{Host, QueueItem}
use osdlp.Cop.Serves.{Preserves, PreservesItem, Fills, Ready}
use osdlp.Cop.Sender.{
  Sender, Fop, ◌>>=◌, ◌>>◌, pure, fault, get_tf, set_tf, set_fop, set_state, signal_and_return,
  call, call_item, ask, filled, conclude, is_ignore, by_fop_state,
}
use osdlp.Cop.Actions.{
  or_minus_one, or_undef, purge_wait_queue, purge_sent_queue, initialize_cop, alert, resume,
  may_transmit,
}
use osdlp.Cop.Actions.Transmit.{
  pack_into_util, enqueue_sent, enqueue_tx, transmit_type_ad, set_frame_len, transmit_type_bc,
  transmit_type_bd, retransmit_marked, transmit_waiting, look_for_fdu, initiate_retransmission,
}
use osdlp.Cop.Actions.Sent.{remove_acked_loop, remove_acked_frames, release_copy_of_bc}

pub record Same {Q : Type 0} (s t : Sender Q) : Type 0 where
  pub state : t.tf.cop_cfg.state ≡ s.tf.cop_cfg.state
  pub slide_wnd : t.tf.cop_cfg.slide_wnd ≡ s.tf.cop_cfg.slide_wnd
  pub tx_lim : t.tf.cop_cfg.tx_lim ≡ s.tf.cop_cfg.tx_lim
  pub tt : t.tf.cop_cfg.tt ≡ s.tf.cop_cfg.tt
  pub t1_init : t.tf.cop_cfg.t1_init ≡ s.tf.cop_cfg.t1_init
  pub vcid : t.tf.primary_hdr.vcid ≡ s.tf.primary_hdr.vcid
  pub max_data_len : t.tf.mission.max_data_len ≡ s.tf.mission.max_data_len

-- A run returns, and what it leaves.
abbrev pub Leaves : {Q A : Type 0} → (A → Sender Q → Type 0) → Option (A × Sender Q) → Type 0
Leaves P none = ⊥
Leaves P (some (a, s)) = P a s

-- From wherever `R` holds the run returns where it holds again.
pub record Keeps {Q A : Type 0} (R : Sender Q → Type 0) (m : Fop Q A) : Type 0 where
  pub apply : (s : Sender Q) → R s → Leaves (λ _ t. Same s t × R t) (m s)

pub Same-refl : {Q : Type 0} (s : Sender Q) → Same s s
Same-refl s = record {
  state = refl;
  slide_wnd = refl;
  tx_lim = refl;
  tt = refl;
  t1_init = refl;
  vcid = refl;
  max_data_len = refl;
}

pub Same-trans : {Q : Type 0} {s t u : Sender Q} → Same s t → Same t u → Same s u
Same-trans a b = ground arith

-- Hoare's rule for a run that goes on.
pub Leaves-bind :
    {Q A B : Type 0} (P : A → Sender Q → Type 0) (R : B → Sender Q → Type 0) (m : Fop Q A)
    (f : A → Fop Q B) (s : Sender Q)
    → Leaves P (m s)
    → ((a : A) (t : Sender Q) → P a t → Leaves R (f a t))
    → Leaves R ((m >>= f) s)
unfolding ◌>>=◌
Leaves-bind P R m f s h g = elim (Option-cases (m s)) [
  | inl e ↦ absurd (rw (e, Leaves) at h)
  | inr (r, e) ↦ rw (e, Leaves) (g r.0 r.1 (rw (e, Leaves) at h))
]

pub Leaves-some :
    {Q A : Type 0} (P : A → Sender Q → Type 0) (o : Option (A × Sender Q))
    → Leaves P o
    → (a : A) × (s : Sender Q) × (o ≡ some (a, s)) × P a s
Leaves-some P none h = absurd h
Leaves-some P (some (a, s)) h = (a, s, refl, h)

pub Leaves-mono :
    {Q A : Type 0} (P : A → Sender Q → Type 0) (R : A → Sender Q → Type 0)
    (o : Option (A × Sender Q))
    → ((a : A) (t : Sender Q) → P a t → R a t)
    → Leaves P o
    → Leaves R o
Leaves-mono P R none g h = h
Leaves-mono P R (some (a, t)) g h = g a t h

pub Leaves-then :
    {Q A : Type 0} (R : Sender Q → Type 0) (s t : Sender Q) (o : Option (A × Sender Q))
    → Same s t
    → Leaves (λ _ u. Same t u × R u) o
    → Leaves (λ _ u. Same s u × R u) o
Leaves-then R s t none a b = b
Leaves-then R s t (some (x, u)) a b = (Same-trans a b.0, b.1)

pub if-Leaves :
    {Q A : Type 0} (P : A → Sender Q → Type 0) (b : Bool) (m n : Option (A × Sender Q))
    → Leaves P m
    → Leaves P n
    → Leaves P (if b then m else n)
if-Leaves P true m n p q = p
if-Leaves P false m n p q = q

pub by_fop_state-Leaves :
    {Q A : Type 0} (P : A → Sender Q → Type 0) (m0 m1 m2 m3 m4 m5 m6 : Fop Q A) (s : Sender Q)
    → Leaves P (m0 s)
    → Leaves P (m1 s)
    → Leaves P (m2 s)
    → Leaves P (m3 s)
    → Leaves P (m4 s)
    → Leaves P (m5 s)
    → Leaves P (m6 s)
    → Leaves P (by_fop_state m0 m1 m2 m3 m4 m5 m6 s)
unfolding by_fop_state
by_fop_state-Leaves P m0 m1 m2 m3 m4 m5 m6 s k0 k1 k2 k3 k4 k5 k6 =
    let n = s.tf.cop_cfg.state in
    if-Leaves P (n == 0) _ _ k0 (
      if-Leaves P (n == 1) _ _ k1 (
        if-Leaves P (n == 2) _ _ k2 (
          if-Leaves P (n == 3) _ _ k3
            (if-Leaves P (n == 4) _ _ k4 (if-Leaves P (n == 5) _ _ k5 k6)))))

module _ {Q : Type 0} {R : Sender Q → Type 0} where
  -- Actions one after the other
  pub bind-Keeps :
      {A B : Type 0} {m : Fop Q A} {f : A → Fop Q B}
      → Keeps R m
      → ((a : A) → Keeps R (f a))
      → Keeps R (m >>= f)
  bind-Keeps {m} {f} hm hf = record {
    apply = λ s r.
        Leaves-bind (λ a t. Same s t × R t) (λ b u. Same s u × R u) m f s (hm.apply s r)
          λ a t kept. Leaves-then R s t (f a t) kept.0 ((hf a).apply t kept.1);
  }

  pub next-Keeps :
      {B : Type 0} {m : Fop Q (Unit {0})} {k : Fop Q B} → Keeps R m → Keeps R k → Keeps R (m >> k)
  unfolding ◌>>◌
  next-Keeps hm hk = bind-Keeps hm (λ _. hk)

  pub if-Keeps :
      {A : Type 0} (b : Bool) {m n : Fop Q A} → Keeps R m → Keeps R n → Keeps R (if b then m else n)
  if-Keeps true hm hn = hm
  if-Keeps false hm hn = hn

  pub pure-Keeps : {A : Type 0} (a : A) → Keeps R (pure a)
  unfolding pure
  pure-Keeps a = record { apply = λ s r. (Same-refl s, r) }

  pub ask-Keeps : (f : ℕ → Q → Bool) → Keeps R (ask f)
  unfolding ask
  ask-Keeps f = record { apply = λ s r. (Same-refl s, r) }

  pub get_tf-Keeps : Keeps R get_tf
  unfolding get_tf
  get_tf-Keeps = record { apply = λ s r. (Same-refl s, r) }

  pub by_fop_state-Keeps :
      {A : Type 0} {m0 m1 m2 m3 m4 m5 m6 : Fop Q A}
      → Keeps R m0
      → Keeps R m1
      → Keeps R m2
      → Keeps R m3
      → Keeps R m4
      → Keeps R m5
      → Keeps R m6
      → Keeps R (by_fop_state m0 m1 m2 m3 m4 m5 m6)
  by_fop_state-Keeps k0 k1 k2 k3 k4 k5 k6 = record {
    apply = λ s r.
        by_fop_state-Leaves _ _ _ _ _ _ _ _ s (k0.apply s r) (k1.apply s r) (k2.apply s r)
          (k3.apply s r) (k4.apply s r) (k5.apply s r) (k6.apply s r);
  }
