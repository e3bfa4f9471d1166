-- ===== src/Tc/Setup/Report.antt =====
-- src/osdlp_tc.c, `osdlp_prepare_clcw`: the report word that leaves the receiver.
use osdlp.Common.{ℕ, ◌%◌, ◌<◌, ◌≡◌, List, ◌∷◌, some, arith}
use osdlp.Common.Memory.{◌>>=◌}
use osdlp.Clcw.{clcw_unpack}
use osdlp.Clcw.RoundTrip.{IsClcw, clcw_pack-eq-bytes, unpack-bytes}
use osdlp.Tc.Types.{TransferFrame, FarmConfig}
use osdlp.Tc.Setup.{report, prepare_clcw}

report-IsClcw :
    (tf : TransferFrame FarmConfig)
    → IsClcw tf.mission.clcw
    → tf.cop_cfg.vr < 256
    → IsClcw (report tf)
unfolding report
report-IsClcw tf v vr = ground (arith)

-- The word that `osdlp_prepare_clcw` writes into a buffer of at least four bytes is read back by `osdlp_clcw_unpack` as the receiver's report: V(R), its flags and the channel, and the members that the channel's word had before.
pub clcw_unpack-prepare_clcw :
    (tf : TransferFrame FarmConfig) (p q r s : ℕ) (rest : List ℕ)
    → IsClcw tf.mission.clcw
    → tf.cop_cfg.vr < 256
    → (prepare_clcw tf (p ∷ q ∷ r ∷ s ∷ rest) >>= λ done. clcw_unpack done.1)
      ≡ some (record (tf.mission.clcw) {
        ctrl_word_type = 0;
        cop_in_effect = 1;
        farm_b_counter = tf.cop_cfg.farmb_cnt % 4;
        lockout = tf.cop_cfg.lockout % 2;
        rt = tf.cop_cfg.retransmit % 2;
        wait = tf.cop_cfg.wait % 2;
        report_value = tf.cop_cfg.vr;
        vcid = tf.mission.vcid % 64;
        clcw_version_num = 0;
      })
unfolding prepare_clcw report
clcw_unpack-prepare_clcw tf p q r s rest v vr =
    let good : IsClcw (report tf) = report-IsClcw tf v vr in
    rw (clcw_pack-eq-bytes (report tf) p q r s rest good) (unpack-bytes (report tf) rest good)
