-- ===== src/Cop/Farm/Invariant.antt =====
-- The receiver's flags agree with its state, and only an unlock command ends a lockout.
use osdlp.Common.{
  ℕ, zero, suc, ◌≤◌, ◌<◌, ◌≡◌, ◌≢◌, refl, inl, inr, Bool, false, not, List, [], ◌∷◌, Option, none,
  some, arith, ◌↔◌, length, ◌==◌, All, Option-cases, if-elim, ==_iff, ◌⊎◌,
}
use osdlp.Common.Memory.{load}
use osdlp.Tc.Types.{
  FarmResult, cop_enq, cop_priority_enq, tc_data, TransferFrame, FarmConfig, type_b, tc_command,
}
use osdlp.Cop.Farm.{
  farm_state_open, farm_state_wait, farm_state_lockout, farm_e1, farm_e2, farm_e3, farm_e4, farm_e5,
  farm_e6, farm_e7, farm_e8, condition_farm_e3, condition_farm_e4, handle_farm_typea,
  handle_farm_typeb_cmd, farm_1, reset_wait,
}

-- The state is one of the three, each flag agrees with it, and the counters are in range.
pub record IsFarm (farm : FarmConfig) : Type 0 where
  pub known : farm.state ≤ 2
  pub locked : farm.state ≡ farm_state_lockout → farm.lockout ≡ 1
  pub unlocked : farm.state ≢ farm_state_lockout → farm.lockout ≡ 0
  pub waiting : farm.state ≡ farm_state_wait → farm.wait ≡ 1
  pub ready : farm.state ≡ farm_state_open → farm.wait ≡ 0
  pub asks : farm.state ≡ farm_state_wait → farm.retransmit ≡ 1
  pub retransmit_flag : farm.retransmit ≤ 1
  pub vr_byte : farm.vr < 256
  pub counter : farm.farmb_cnt < 4

-- A frame is made of bytes.
abbrev pub IsReceived : TransferFrame FarmConfig → Type 0
IsReceived tf = All (λ b. b < 256) tf.frame_data.bytes

load-lt : (bytes : List ℕ) (i b : ℕ) → All (λ x. x < 256) bytes → load bytes i ≡ some b → b < 256
load-lt [] i b k e = cc
load-lt (x ∷ xs) zero b k e = ground (arith, k.0)
load-lt (x ∷ xs) (suc i) b k e = load-lt xs i b k.1 e

module _ (farm : FarmConfig) (v : IsFarm farm) where
  e1-IsFarm : IsFarm (farm_e1 farm).1
  unfolding farm_e1
  e1-IsFarm = ground arith

  e2-IsFarm : IsFarm (farm_e2 farm).1
  unfolding farm_e2
  e2-IsFarm = ground arith

  e3-IsFarm : IsFarm (farm_e3 farm).1
  unfolding farm_e3
  e3-IsFarm = ground arith

  e4-IsFarm : IsFarm (farm_e4 farm).1
  unfolding farm_e4
  e4-IsFarm = ground arith

  e5-IsFarm : IsFarm (farm_e5 farm).1
  unfolding farm_e5
  e5-IsFarm = ground arith

  e6-IsFarm : IsFarm (farm_e6 farm).1
  unfolding farm_e6
  e6-IsFarm = ground arith

  e7-IsFarm : IsFarm (farm_e7 farm).1
  unfolding farm_e7
  e7-IsFarm = ground arith

-- What a call that may fault leaves in the FARM, where it returns.
abbrev pub After {ℓ} : (FarmConfig → Type ℓ) → Option (FarmResult × FarmConfig) → Type ℓ
After P none = Unit
After P (some (r, farm)) = P farm

pub typea_cases {ℓ} :
    (P : FarmResult × FarmConfig → Type ℓ) (full : Bool) (tf : TransferFrame FarmConfig)
    → (tf.primary_hdr.frame_seq_num ≡ tf.cop_cfg.vr → full ≡ false → P (farm_e1 tf.cop_cfg))
    → P (farm_e2 tf.cop_cfg)
    → P (farm_e3 tf.cop_cfg)
    → P (farm_e4 tf.cop_cfg)
    → P (farm_e5 tf.cop_cfg)
    → P (handle_farm_typea full tf)
unfolding handle_farm_typea
typea_cases P full tf p1 p2 p3 p4 p5 =
    let farm = tf.cop_cfg in
    let seq = tf.primary_hdr.frame_seq_num in
    if-elim P (seq == farm.vr)
      (λ here.
        if-elim P (not full) (λ room. p1 ((==_iff seq farm.vr).0 here) (ground arith)) (λ _. p2))
      (λ _.
        if-elim P (condition_farm_e3 farm seq) (λ _. p3)
          (λ _. if-elim P (condition_farm_e4 farm seq) (λ _. p4) (λ _. p5)))

typea-IsFarm :
    (full : Bool) (tf : TransferFrame FarmConfig)
    → IsFarm tf.cop_cfg
    → IsFarm (handle_farm_typea full tf).1
typea-IsFarm full tf v =
    let farm = tf.cop_cfg in
    typea_cases (λ r. IsFarm r.1) full tf (λ _ _. e1-IsFarm farm v) (e2-IsFarm farm v)
      (e3-IsFarm farm v) (e4-IsFarm farm v) (e5-IsFarm farm v)

e8-IsFarm :
    (tf : TransferFrame FarmConfig) → IsReceived tf → IsFarm tf.cop_cfg → After IsFarm (farm_e8 tf)
unfolding farm_e8
e8-IsFarm tf k v = elim (Option-cases (load tf.frame_data.bytes 2)) [
  | inl e ↦ rw e (ground arith)
  | inr (b, e) ↦ rw e (ground (arith, load-lt tf.frame_data.bytes 2 b k e))
]

cmd-IsFarm :
    (tf : TransferFrame FarmConfig)
    → IsReceived tf
    → IsFarm tf.cop_cfg
    → After IsFarm (handle_farm_typeb_cmd tf)
unfolding handle_farm_typeb_cmd
cmd-IsFarm tf k v = ground (arith, e7-IsFarm tf.cop_cfg v, e8-IsFarm tf k v)

farm_1-After :
    (full : Bool) (tf : TransferFrame FarmConfig)
    → IsReceived tf
    → IsFarm tf.cop_cfg
    → After IsFarm (farm_1 full tf)
unfolding farm_1
farm_1-After full tf k v =
    ground (arith, typea-IsFarm full tf v, e6-IsFarm tf.cop_cfg v, cmd-IsFarm tf k v)

three_loads :
    (bytes : List ℕ)
    → 3 ≤ length bytes
    → (a b c : ℕ) × (load bytes 0 ≡ some a) × (load bytes 1 ≡ some b) × (load bytes 2 ≡ some c)
three_loads (a ∷ b ∷ c ∷ rest) h = (a, b, c, refl, refl, refl)
three_loads bytes h = absurd (omega arith)

pub farm_1-ne-none :
    (full : Bool) (tf : TransferFrame FarmConfig)
    → 3 ≤ length tf.frame_data.bytes
    → farm_1 full tf ≢ none
unfolding farm_1 handle_farm_typeb_cmd farm_e8
farm_1-ne-none full tf h = ground (arith, three_loads tf.frame_data.bytes)

-- Whatever frame of bytes comes in, and whether or not the receiving queue is full, `osdlp_farm_1`
-- keeps the state, its flags and its counters consistent. It returns if at least three bytes, the
-- length of its longest command, stand behind the data pointer.
pub farm_1-IsFarm :
    (full : Bool) (tf : TransferFrame FarmConfig)
    → IsReceived tf
    → 3 ≤ length tf.frame_data.bytes
    → IsFarm tf.cop_cfg
    → (r : FarmResult) × (farm : FarmConfig) × (farm_1 full tf ≡ some (r, farm)) × IsFarm farm
farm_1-IsFarm full tf k h v = elim (Option-cases (farm_1 full tf)) [
  | inl e ↦ absurd (farm_1-ne-none full tf h e)
  | inr (r, e) ↦ (r.0, r.1, e, rw e at (farm_1-After full tf k v))
]

-- What becomes of a receiver in lockout.
abbrev pub LockedOut : TransferFrame FarmConfig → FarmResult → FarmConfig → Type 0
LockedOut tf r farm =
    (r ≢ cop_enq)
    × (r ≡ cop_priority_enq → (tf.primary_hdr.bypass ≡ type_b × tf.primary_hdr.ctrl_cmd ≡ tc_data))
    × (farm.vr ≡ tf.cop_cfg.vr)
    × ((farm.state ≡ farm_state_lockout)
        ⊎ ((tf.primary_hdr.bypass ≡ type_b)
            × (tf.primary_hdr.ctrl_cmd ≡ tc_command)
            × (load tf.frame_data.bytes 0 ≡ some 0)))

lockout_stays :
    (full : Bool) (tf : TransferFrame FarmConfig) (r : FarmResult) (farm : FarmConfig)
    → tf.cop_cfg.state ≡ farm_state_lockout
    → farm_1 full tf ≡ some (r, farm)
    → LockedOut tf r farm
unfolding farm_1 handle_farm_typeb_cmd handle_farm_typea farm_e1 farm_e2 farm_e3 farm_e4 farm_e5
    farm_e6 farm_e7 farm_e8
lockout_stays full tf r farm locked e = ground arith

-- In lockout `osdlp_farm_1` returns, with neither of the results that pass a frame on but for type-B
-- data, which it may pass on with priority, and keeps V(R). The state
-- stays lockout too, unless the frame is the unlock command: type B, a command, with a first byte 0.
-- Condition: at least three bytes stand behind the data pointer.
pub lockout_holds :
    (full : Bool) (tf : TransferFrame FarmConfig)
    → 3 ≤ length tf.frame_data.bytes
    → tf.cop_cfg.state ≡ farm_state_lockout
    → (r : FarmResult) × (farm : FarmConfig) × (farm_1 full tf ≡ some (r, farm))
      × LockedOut tf r farm
lockout_holds full tf h locked = elim (Option-cases (farm_1 full tf)) [
  | inl e ↦ absurd (farm_1-ne-none full tf h e)
  | inr (r, e) ↦ (r.0, r.1, e, lockout_stays full tf r.0 r.1 locked e)
]

-- `osdlp_reset_wait` keeps a consistent receiver consistent exactly when it is not in lockout: there it
-- sets the state to open and leaves the lockout flag up.
pub reset_wait-IsFarm_iff :
    (farm : FarmConfig)
    → IsFarm farm
    → (IsFarm (reset_wait farm) ↔ (farm.state ≢ farm_state_lockout))
      × (farm.state ≡ farm_state_lockout
          → ((reset_wait farm).state ≡ farm_state_open × (reset_wait farm).lockout ≡ 1))
unfolding reset_wait
reset_wait-IsFarm_iff farm v = (
  (
    λ after locked. absurd (omega (arith, v.locked locked, after.unlocked (omega arith))),
    λ free. ground arith,
  ),
  λ locked. (refl, v.locked locked),
)
