-- ===== src/Cop/Table.antt =====
-- The sender's state table: the state after each event, whatever the application's queues hold.
pub mod Reports
pub mod Requests
pub mod Timer
pub mod Directives
pub mod Suspension
pub mod Lockout
use osdlp.Common.{
  ℕ, ◌≡◌, refl, ◌⊎◌, inl, inr, ℤ, Bool, true, false, ==_iff, Option, none, some, arith, ◌==◌,
  if◌then◌else◌, is_neg, ◌∙◌,
}
use osdlp.Tc.Types.{Notification, undef_error, ignore}
use osdlp.Cop.Host.{Host}
use osdlp.Cop.Serves.{Serves, Ready}
use osdlp.Cop.Sender.{
  fop_state_init, Sender, Fop, ◌>>=◌, ◌>>◌, pure, set_fop, set_state, signal_and_return,
  by_fop_state, conclude,
}
use osdlp.Cop.Actions.{or_undef, alert, alert_with}
use osdlp.Cop.Keeps.{Same, Leaves, Leaves-bind, Leaves-mono, Keeps}
use osdlp.Cop.Keeps.Calls.{keeps, signal-Keeps, set_fop-Ready}
use osdlp.Cop.Keeps.Sending.{alert-Keeps}

-- The run returns, and from the state `from` it ends in the state `to`, or reports an error and leaves the state.
abbrev pub Ends : {Q : Type 0} → ℕ → ℕ → Notification → Sender Q → Type 0
Ends from to n t = (t.tf.cop_cfg.state ≡ to) ⊎ ((n ≡ undef_error) × (t.tf.cop_cfg.state ≡ from))

pub record Goes {Q : Type 0} (R : Sender Q → Type 0) (from to : ℕ) (m : Fop Q Notification)
    : Type 0 where
  pub apply :
      (s : Sender Q) → R s → s.tf.cop_cfg.state ≡ from → Leaves (Ends s.tf.cop_cfg.state to) (m s)

module _ {Q : Type 0} {R : Sender Q → Type 0} where
  pub stay-Goes : {n : ℕ} {m : Fop Q Notification} → Keeps R m → Goes R n n m
  stay-Goes {m} k = record {
    apply = λ s r e.
        Leaves-mono (λ _ t. Same s t × R t) (Ends s.tf.cop_cfg.state _) (m s)
          (λ n t kept. inl (kept.0.state ∙ e)) (k.apply s r);
  }

  pub bind-Goes :
      {A : Type 0} {from to : ℕ} {m : Fop Q A} {f : A → Fop Q Notification}
      → Keeps R m
      → ((a : A) → Goes R from to (f a))
      → Goes R from to (m >>= f)
  bind-Goes {from} {to} {m} {f} k g = record {
    apply = λ s r e.
        Leaves-bind (λ _ t. Same s t × R t) (Ends s.tf.cop_cfg.state to) m f s (k.apply s r)
          λ a t kept.
            let same : Same s t = kept.0 in
            Leaves-mono (Ends t.tf.cop_cfg.state to) (Ends s.tf.cop_cfg.state to) (f a t)
              (λ n u ends. ground arith) ((g a).apply t kept.1 (same.state ∙ e));
  }

  pub next-Goes :
      {from to : ℕ} {m : Fop Q (Unit {0})} {k : Fop Q Notification}
      → Keeps R m
      → Goes R from to k
      → Goes R from to (m >> k)
  unfolding ◌>>◌
  next-Goes k g = bind-Goes k (λ _. g)

  pub if-Goes :
      {from to : ℕ} (b : Bool) {m n : Fop Q Notification}
      → Goes R from to m
      → Goes R from to n
      → Goes R from to (if b then m else n)
  if-Goes true g k = g
  if-Goes false g k = k

  -- An error that is reported in the state before is an end of its own.
  pub error-Goes : {from : ℕ} (to : ℕ) → Goes R from to (signal_and_return undef_error)
  unfolding signal_and_return
  error-Goes to = record { apply = λ s r e. inr (refl, refl) }

  pub or_undef-Goes :
      {from to : ℕ} {m : Fop Q ℤ} {rest : Fop Q Notification}
      → Keeps R m
      → Goes R from to rest
      → Goes R from to (or_undef m rest)
  unfolding or_undef
  or_undef-Goes k g = bind-Goes k (λ r. if-Goes (is_neg r) (error-Goes _) g)

module _ {Q : Type 0} {Ok : Q → Type 0} {size : ℕ} where
  -- Once the state is set, the rest keeps it.
  pub set_state-Goes :
      (from to : ℕ) {m : Fop Q Notification}
      → Keeps (Ready Ok size) m
      → Goes (Ready Ok size) from to (set_state to >> m)
  unfolding ◌>>◌ ◌>>=◌ set_state set_fop
  set_state-Goes from to {m} k = record {
    apply = λ s r e.
        Leaves-mono (λ _ t. Same _ t × Ready Ok size t) (Ends s.tf.cop_cfg.state to) (m _)
          (λ n t kept. inl kept.0.state) (k.apply _ (set_fop-Ready s _ r));
  }

  pub alert_with-Goes :
      {h : Host Q} (serves : Serves h Ok size) (from : ℕ) (n : Notification)
      → Goes (Ready Ok size) from 5 (alert_with h n)
  unfolding alert_with
  alert_with-Goes serves from n =
      or_undef-Goes (alert-Keeps serves) (set_state-Goes from fop_state_init (signal-Keeps n))

-- The state after an event, given that for each of the six; no other state is left.
abbrev pub next_state : ℕ → ℕ → ℕ → ℕ → ℕ → ℕ → ℕ → ℕ
next_state a b c d e f n =
    if n == 0
    then a
    else if n == 1
    then b
    else if n == 2
    then c
    else if n == 3
    then d
    else if n == 4
    then e
    else if n == 5
    then f
    else n

pub record Follows {Q : Type 0} (R : Sender Q → Type 0) (table : ℕ → ℕ) (m : Fop Q Notification)
    : Type 0 where
  pub apply :
      (s : Sender Q) → R s → Leaves (Ends s.tf.cop_cfg.state (table s.tf.cop_cfg.state)) (m s)

-- One step down the switch and the table together
fork :
    {Q : Type 0} (s : Sender Q) (k to others : ℕ) (m o : Option (Notification × Sender Q))
    → let n = s.tf.cop_cfg.state in
      (n ≡ k → Leaves (Ends n to) m)
      → Leaves (Ends n others) o
      → Leaves (Ends n (if n == k then to else others)) (if n == k then m else o)
fork s k to others m o p q = choose (s.tf.cop_cfg.state == k) (λ e. p ((==_iff _ k).0 e))
  where
    choose :
        (b : Bool)
        → (b ≡ true → Leaves (Ends s.tf.cop_cfg.state to) m)
        → Leaves (Ends s.tf.cop_cfg.state (if b then to else others)) (if b then m else o)
    choose true r = r refl
    choose false r = q

pub by_fop_state-Follows :
    {Q : Type 0} {R : Sender Q → Type 0} {a b c d e f : ℕ} {m0 m1 m2 m3 m4 m5 : Fop Q Notification}
    → Goes R 0 a m0
    → Goes R 1 b m1
    → Goes R 2 c m2
    → Goes R 3 d m3
    → Goes R 4 e m4
    → Goes R 5 f m5
    → Follows R
        (next_state a b c d e f)
        (by_fop_state m0 m1 m2 m3 m4 m5 (signal_and_return undef_error))
unfolding by_fop_state signal_and_return
by_fop_state-Follows g0 g1 g2 g3 g4 g5 = record {
  apply = λ s r. fork s 0 _ _ _ _ (g0.apply s r) (
      fork s 1 _ _ _ _ (g1.apply s r) (
        fork s 2 _ _ _ _ (g2.apply s r) (
          fork s 3 _ _ _ _ (g3.apply s r)
            (fork s 4 _ _ _ _ (g4.apply s r) (fork s 5 _ _ _ _ (g5.apply s r) (inl refl))))));
}

pub ruleset goes =
    (keeps, alert_with-Goes, or_undef-Goes, set_state-Goes, stay-Goes, bind-Goes, next-Goes)
