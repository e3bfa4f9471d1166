-- ===== src/Cop/Keeps/Returns.antt =====
-- Actions that return and may change the state.
use osdlp.Common.{ℕ, ℤ, Bool, true, false, Option, if◌then◌else◌, is_neg}
use osdlp.Tc.Types.{FopConfig, Notification, undef_error}
use osdlp.Cop.Serves.{Fills, Ready}
use osdlp.Cop.Sender.{Sender, Fop, ◌>>=◌, ◌>>◌, set_fop, set_state, call_item, filled, by_fop_state}
use osdlp.Cop.Actions.{or_undef}
use osdlp.Cop.Keeps.{Same, Leaves, Leaves-bind, Leaves-mono, by_fop_state-Leaves, Keeps}
use osdlp.Cop.Keeps.Calls.{
  set_fop-Ready, queues-Ready, call-Keeps, call_item-Keeps, item-Leaves, item-returns, item-Keeps,
  signal-Keeps, conclude-Keeps, or_minus_one-Keeps, or_undef-Keeps, set_fop-Keeps, keeps,
}

-- From wherever `R` holds the run returns where it holds again, whatever else it changes.
pub record Returns {Q A : Type 0} (R : Sender Q → Type 0) (m : Fop Q A) : Type 0 where
  pub apply : (s : Sender Q) → R s → Leaves (λ _ t. R t) (m s)

module _ {Q : Type 0} {R : Sender Q → Type 0} where
  pub Keeps-Returns : {A : Type 0} {m : Fop Q A} → Keeps R m → Returns R m
  Keeps-Returns {m} k = record {
    apply = λ s r.
        Leaves-mono (λ _ t. Same s t × R t) (λ _ t. R t) (m s) (λ a t kept. kept.1) (k.apply s r);
  }

  pub bind-Returns :
      {A B : Type 0} {m : Fop Q A} {f : A → Fop Q B}
      → Returns R m
      → ((a : A) → Returns R (f a))
      → Returns R (m >>= f)
  bind-Returns {m} {f} hm hf = record {
    apply = λ s r.
        Leaves-bind (λ _ t. R t) (λ _ t. R t) m f s (hm.apply s r)
          (λ a t ready. (hf a).apply t ready);
  }

  pub next-Returns :
      {B : Type 0} {m : Fop Q (Unit {0})} {k : Fop Q B}
      → Returns R m
      → Returns R k
      → Returns R (m >> k)
  unfolding ◌>>◌
  next-Returns hm hk = bind-Returns hm (λ _. hk)

  pub if-Returns :
      {A : Type 0} (b : Bool) {m n : Fop Q A}
      → Returns R m
      → Returns R n
      → Returns R (if b then m else n)
  if-Returns true hm hn = hm
  if-Returns false hm hn = hn

  pub by_fop_state-Returns :
      {A : Type 0} {m0 m1 m2 m3 m4 m5 m6 : Fop Q A}
      → Returns R m0
      → Returns R m1
      → Returns R m2
      → Returns R m3
      → Returns R m4
      → Returns R m5
      → Returns R m6
      → Returns R (by_fop_state m0 m1 m2 m3 m4 m5 m6)
  by_fop_state-Returns k0 k1 k2 k3 k4 k5 k6 = record {
    apply = λ s r.
        by_fop_state-Leaves _ _ _ _ _ _ _ _ s (k0.apply s r) (k1.apply s r) (k2.apply s r)
          (k3.apply s r) (k4.apply s r) (k5.apply s r) (k6.apply s r);
  }

module _ {Q : Type 0} {Ok : Q → Type 0} {size : ℕ} where
  pub set_fop-Returns : (f : FopConfig → FopConfig) → Returns (Ready {Q = Q} Ok size) (set_fop f)
  unfolding set_fop
  set_fop-Returns f = record { apply = λ s r. set_fop-Ready s _ r }

  pub set_state-Returns : (n : ℕ) → Returns (Ready {Q = Q} Ok size) (set_state n)
  unfolding set_state
  set_state-Returns n = set_fop-Returns _

  pub or_undef-Returns :
      {m : Fop Q ℤ} {rest : Fop Q Notification}
      → Returns (Ready Ok size) m
      → Returns (Ready Ok size) rest
      → Returns (Ready Ok size) (or_undef m rest)
  unfolding or_undef
  or_undef-Returns hm hr =
      bind-Returns hm (λ r. if-Returns (is_neg r) (Keeps-Returns (signal-Keeps undef_error)) hr)

  pub item-Returns :
      {A B : Type 0} (f : ℕ → Q → ℤ × Option A × Q) {m : Fop Q B} {k : A → Fop Q B}
      → Fills Ok f
      → Returns (Ready Ok size) m
      → ((a : A) → Returns (Ready Ok size) (k a))
      → Returns (Ready Ok size) (call_item f >>= λ r. if is_neg r.0 then m else (filled r.1 >>= k))
  item-Returns f p hm hk = record {
    apply = λ s r.
        item-Leaves _ f _ _ s p r (λ same ready. hm.apply _ ready)
          (λ a e same ready. (hk a).apply _ ready);
  }

pub ruleset returns = (
  keeps, bind-Returns, next-Returns, if-Returns, by_fop_state-Returns, set_fop-Returns,
  set_state-Returns, or_undef-Returns, Keeps-Returns,
)
