-- ===== src/Cop/Farm/Sequence.antt =====
-- The service that FARM-1 is there for: type-A frames are passed on in order, none twice and none
-- left out.
use osdlp.Common.{
  ℕ, zero, suc, ◌+◌, ◌%◌, ◌≤◌, ◌<◌, ◌≡◌, ◌≢◌, refl, ◌⊎◌, inl, inr, Bool, List, [], ◌∷◌, Option,
  true, false, ◌&&◌, ◌==◌, if◌then◌else◌, none, some, arith, All, Option-cases, length, ap,
}
use osdlp.Common.Memory.{◌>>=◌, load}
use osdlp.Tc.Types.{
  FarmResult, cop_enq, TransferFrame, FarmConfig, TcPrimaryHdr, TcFdf, type_b, tc_command,
  setvr_byte1, setvr_byte2, type_a, cop_priority_enq,
}
use osdlp.Cop.Farm.{
  farm_e1, farm_e2, farm_e3, farm_e4, farm_e5, farm_e6, farm_e7, handle_farm_typea,
  handle_farm_typeb_cmd, farm_1,
}
use osdlp.Cop.Farm.Invariant.{typea_cases, farm_1-ne-none}

-- A frame that arrives, and whether the receiving queue is full then.
pub record Arrival : Type 0 where
  pub rx_queue_full : Bool
  pub primary_hdr : TcPrimaryHdr
  pub frame_data : TcFdf

-- The channel when the frame has been unpacked into it.
abbrev pub arrive : TransferFrame FarmConfig → Arrival → TransferFrame FarmConfig
arrive tf a = record tf { primary_hdr = a.primary_hdr; frame_data = a.frame_data }

-- The results with which a frame goes to the application, in either of its queues
abbrev pub passes_on : FarmResult → Bool
passes_on cop_enq = true
passes_on cop_priority_enq = true
passes_on _ = false

-- The sequence number in front, if the frame is of type A and passed on.
abbrev passed : ℕ → FarmResult → ℕ → List ℕ → List ℕ
passed bypass r seq seqs = if (bypass == type_a) && passes_on r then seq ∷ seqs else seqs

-- The sequence numbers of the type-A frames that are passed on, in order, and the channel afterwards.
unfoldable pub receive_all :
    TransferFrame FarmConfig → List Arrival → Option (List ℕ × TransferFrame FarmConfig)
receive_all tf [] = some ([], tf)
receive_all tf (a ∷ arrivals) = farm_1 a.rx_queue_full (arrive tf a) >>= λ out.
    receive_all (record (arrive tf a) { cop_cfg = out.1 }) arrivals >>= λ rest.
    some (passed a.primary_hdr.bypass out.0 a.primary_hdr.frame_seq_num rest.0, rest.1)

-- `n` numbers from `first` on, modulo 256.
abbrev pub count_from : ℕ → ℕ → List ℕ
count_from first zero = []
count_from first (suc n) = first ∷ count_from ((first + 1) % 256) n

-- The frame is no command to set V(R).
abbrev pub IsNotSetVr : Arrival → Type 0
IsNotSetVr a =
    a.primary_hdr.bypass ≡ type_b
    → a.primary_hdr.ctrl_cmd ≡ tc_command
    → load a.frame_data.bytes 0 ≡ some setvr_byte1
    → load a.frame_data.bytes 1 ≢ some setvr_byte2

-- V(R) moves to the next number with a type-A frame that is passed on, which has the number V(R), and
-- stays otherwise.
abbrev Moves : ℕ → ℕ → ℕ → FarmResult → ℕ → Type 0
Moves bypass vr seq r vr' =
    ((((bypass == type_a) && passes_on r) ≡ true) × (seq ≡ vr) × (vr' ≡ (vr + 1) % 256))
    ⊎ ((((bypass == type_a) && passes_on r) ≡ false) × (vr' ≡ vr))

typea-Moves :
    (full : Bool) (tf : TransferFrame FarmConfig)
    → tf.primary_hdr.bypass ≡ type_a
    → let out = handle_farm_typea full tf in
      Moves tf.primary_hdr.bypass tf.cop_cfg.vr tf.primary_hdr.frame_seq_num out.0 out.1.vr
unfolding farm_e1 farm_e2 farm_e3 farm_e4 farm_e5
typea-Moves full tf type =
    typea_cases
      (λ out. Moves tf.primary_hdr.bypass tf.cop_cfg.vr tf.primary_hdr.frame_seq_num out.0 out.1.vr)
      full tf (λ here _. ground arith) (ground arith) (ground arith) (ground arith) (ground arith)

farm_1-Moves :
    (tf : TransferFrame FarmConfig) (a : Arrival) (r : FarmResult) (farm : FarmConfig)
    → IsNotSetVr a
    → farm_1 a.rx_queue_full (arrive tf a) ≡ some (r, farm)
    → Moves a.primary_hdr.bypass tf.cop_cfg.vr a.primary_hdr.frame_seq_num r farm.vr
unfolding farm_1 handle_farm_typeb_cmd farm_e6 farm_e7
farm_1-Moves tf a r farm n e = ground (arith, typea-Moves a.rx_queue_full (arrive tf a))

-- The run has returned, with the numbers in order and V(R) behind the last of them.
abbrev InOrder : ℕ → Option (List ℕ × TransferFrame FarmConfig) → Type 0
InOrder vr none = ⊥
InOrder vr (some (seqs, last)) =
    (seqs ≡ count_from vr (length seqs)) × (last.cop_cfg.vr ≡ (vr + length seqs) % 256)

InOrder-passed :
    (bypass vr seq vr' : ℕ) (r : FarmResult) (rest : Option (List ℕ × TransferFrame FarmConfig))
    → Moves bypass vr seq r vr'
    → InOrder vr' rest
    → InOrder vr (rest >>= λ out. some (passed bypass r seq out.0, out.1))
InOrder-passed bypass vr seq vr' r none m h = h
InOrder-passed bypass vr seq vr' r (some (seqs, last)) m h = ground (arith, ap (λ t. vr ∷ t) h.0)

receive_all-InOrder :
    (tf : TransferFrame FarmConfig) (arrivals : List Arrival)
    → tf.cop_cfg.vr < 256
    → All IsNotSetVr arrivals
    → All (λ a. 3 ≤ length a.frame_data.bytes) arrivals
    → InOrder tf.cop_cfg.vr (receive_all tf arrivals)
unfolding receive_all
receive_all-InOrder tf [] h n long = (refl, omega arith)
receive_all-InOrder tf (a ∷ arrivals) h n long =
    elim (Option-cases (farm_1 a.rx_queue_full (arrive tf a))) [
      | inl stuck ↦ absurd (farm_1-ne-none a.rx_queue_full (arrive tf a) long.0 stuck)
      | inr (out, step) ↦
          let moves = farm_1-Moves tf a out.0 out.1 n.0 step in
          rw step (
            InOrder-passed a.primary_hdr.bypass tf.cop_cfg.vr a.primary_hdr.frame_seq_num out.1.vr
              out.0 _ moves
              (receive_all-InOrder (record (arrive tf a) { cop_cfg = out.1 }) arrivals (omega arith)
                n.1 long.1))
    ]

InOrder-returns :
    (vr : ℕ) (o : Option (List ℕ × TransferFrame FarmConfig))
    → InOrder vr o
    → (seqs : List ℕ) × (last : TransferFrame FarmConfig) × (o ≡ some (seqs, last))
      × (seqs ≡ count_from vr (length seqs))
      × (last.cop_cfg.vr ≡ (vr + length seqs) % 256)
InOrder-returns vr none h = absurd h
InOrder-returns vr (some (seqs, last)) h = (seqs, last, refl, h.0, h.1)

-- In whatever order frames arrive, with whatever gaps and repetitions, and whenever the receiving
-- queue is full: `osdlp_farm_1` returns each time, the type-A frames that it passes on, with either of
-- the results that pass a frame on, bear the numbers V(R), V(R) + 1, ... modulo 256, with none left out
-- and none twice, and V(R) ends up behind the last of them. Conditions: V(R) is a byte, no frame is a
-- type-B command that starts with the two bytes 0x82, 0 of a command to set V(R), and at least three
-- bytes stand behind each frame's data pointer.
pub receive_all_in_order :
    (tf : TransferFrame FarmConfig) (arrivals : List Arrival)
    → tf.cop_cfg.vr < 256
    → All IsNotSetVr arrivals
    → All (λ a. 3 ≤ length a.frame_data.bytes) arrivals
    → (seqs : List ℕ) × (last : TransferFrame FarmConfig) × (receive_all tf arrivals
        ≡ some (seqs, last))
      × (seqs ≡ count_from tf.cop_cfg.vr (length seqs))
      × (last.cop_cfg.vr ≡ (tf.cop_cfg.vr + length seqs) % 256)
receive_all_in_order tf arrivals h n long =
    InOrder-returns tf.cop_cfg.vr (receive_all tf arrivals)
      (receive_all-InOrder tf arrivals h n long)
