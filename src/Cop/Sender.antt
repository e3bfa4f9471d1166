-- ===== src/Cop/Sender.antt =====
-- The state that the sender's functions work on, a channel and the application's queues, and the
-- monad of its functions. `none` is a fault: an access out of range of a buffer, or the use of an item
-- that the application has not filled in.
use osdlp.Common.{ℕ, ℤ, Bool, true, false, Option, none, some, ◌==◌, if◌then◌else◌}
use osdlp.Tc.Types.{TransferFrame, FopConfig, Notification, ignore}

-- `fop_state_t`
abbrev pub fop_state_active : ℕ
fop_state_active = 0

abbrev pub fop_state_rt_no_wait : ℕ
fop_state_rt_no_wait = 1

abbrev pub fop_state_rt_wait : ℕ
fop_state_rt_wait = 2

abbrev pub fop_state_init_no_bc : ℕ
fop_state_init_no_bc = 3

abbrev pub fop_state_init_bc : ℕ
fop_state_init_bc = 4

abbrev pub fop_state_init : ℕ
fop_state_init = 5

pub record Sender (Q : Type 0) : Type 0 where
  pub tf : TransferFrame FopConfig
  pub queues : Q

abbrev pub Fop : Type 0 → Type 0 → Type 0
Fop Q A = Sender Q → Option (A × Sender Q)

infixl 5 ◌>>=◌ ◌>>◌
unfoldable pub ◌>>=◌ : {Q A B : Type 0} → Fop Q A → (A → Fop Q B) → Fop Q B
◌>>=◌ m f s = elim (m s) [ none ↦ none | some (a, s') ↦ f a s' ]

unfoldable pub ◌>>◌ : {Q B : Type 0} → Fop Q (Unit {0}) → Fop Q B → Fop Q B
unfolding ◌>>=◌
m >> k = m >>= λ _. k

unfoldable pub pure : {Q A : Type 0} → A → Fop Q A
pure a s = some (a, s)

unfoldable pub fault : {Q A : Type 0} → Fop Q A
fault s = none

unfoldable pub get_tf : {Q : Type 0} → Fop Q (TransferFrame FopConfig)
get_tf s = some (s.tf, s)

unfoldable pub set_tf : {Q : Type 0} → TransferFrame FopConfig → Fop Q (Unit {0})
set_tf tf s = some (tt, record s { tf = tf })

unfoldable pub set_fop : {Q : Type 0} → (FopConfig → FopConfig) → Fop Q (Unit {0})
set_fop f s = some (tt, record s { tf = record (s.tf) { cop_cfg = f s.tf.cop_cfg } })

unfoldable pub set_state : {Q : Type 0} → ℕ → Fop Q (Unit {0})
unfolding set_fop
set_state n = set_fop (λ fop. record fop { state = n })

-- `fop.signal = n; return n`
unfoldable pub signal_and_return : {Q : Type 0} → Notification → Fop Q Notification
signal_and_return n s =
    some (n, record s { tf = record (s.tf) { cop_cfg = record (s.tf.cop_cfg) { signal = n } } })

-- Calls of the application: one that changes the queues, one that fills in an item, and a question.
unfoldable pub call : {Q : Type 0} → (ℕ → Q → ℤ × Q) → Fop Q ℤ
call f s = let r = f s.tf.primary_hdr.vcid s.queues in some (r.0, record s { queues = r.1 })

unfoldable pub call_item : {Q A : Type 0} → (ℕ → Q → ℤ × Option A × Q) → Fop Q (ℤ × Option A)
call_item f s =
    let r = f s.tf.primary_hdr.vcid s.queues in some ((r.0, r.1), record s { queues = r.2 })

unfoldable pub ask : {Q : Type 0} → (ℕ → Q → Bool) → Fop Q Bool
ask f s = some (f s.tf.primary_hdr.vcid s.queues, s)

-- The use of an item that the application was to fill in.
unfoldable pub filled : {Q A : Type 0} → Option A → Fop Q A
filled none s = none
filled (some a) s = some (a, s)

abbrev pub is_ignore : Notification → Bool
is_ignore ignore = true
is_ignore _ = false

-- `if (!(notif == IGNORE)) { fop.signal = notif; return notif; } else { return fop.signal; }`
unfoldable pub conclude : {Q : Type 0} → Notification → Fop Q Notification
unfolding signal_and_return
conclude n s = if is_ignore n then some (s.tf.cop_cfg.signal, s) else signal_and_return n s

-- `switch (fop.state)` with a case for each state and a default
unfoldable pub by_fop_state :
    {Q A : Type 0} → Fop Q A → Fop Q A → Fop Q A → Fop Q A → Fop Q A → Fop Q A → Fop Q A → Fop Q A
by_fop_state active rt_no_wait rt_wait init_no_bc init_bc init otherwise s =
    let n = s.tf.cop_cfg.state in
    if n == fop_state_active
    then active s
    else if n == fop_state_rt_no_wait
    then rt_no_wait s
    else if n == fop_state_rt_wait
    then rt_wait s
    else if n == fop_state_init_no_bc
    then init_no_bc s
    else if n == fop_state_init_bc
    then init_bc s
    else if n == fop_state_init
    then init s
    else otherwise s
