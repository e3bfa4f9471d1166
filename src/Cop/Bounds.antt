-- ===== src/Cop/Bounds.antt =====
-- src/osdlp_cop.c, `osdlp_handle_clcw`: the test that N(R) acknowledges a frame that is outstanding.
use osdlp.Common.{ℕ, ◌⊎◌, ◌+◌, ◌-◌, ◌%◌, ◌<◌, ◌≤◌, ◌≡◌, ◌↔◌, true, arith}
use osdlp.Tc.Types.{FopConfig}
use osdlp.Clcw.{ClcwFrame}
use osdlp.Cop.Dispatch.{report_in_bounds, report_event, e13}

-- N(R) is NN(R) or a number between NN(R) and V(S), counted modulo 256, and not V(S).
unfoldable pub IsOutstanding : ℕ → ℕ → ℕ → Type 0
IsOutstanding vs nnr nr = (nr + 256 - nnr) % 256 < (vs + 256 - nnr) % 256

module _ (fop : FopConfig) (nr : ℕ) (vs_lt : fop.vs < 256) (nnr_lt : fop.nnr < 256)
    (nr_lt : nr < 256) where
  -- While the numbers from NN(R) to V(S) do not wrap, no other N(R) is refused.
  in_bounds_unwrapped : ¬ (nr ≡ fop.vs) → fop.nnr ≤ fop.vs → report_in_bounds fop nr ≡ true
  unfolding report_in_bounds
  in_bounds_unwrapped ne le = ground arith

  in_bounds_wrapped :
      ¬ (nr ≡ fop.vs)
      → fop.vs < fop.nnr
      → (report_in_bounds fop nr ≡ true) ↔ (IsOutstanding fop.vs fop.nnr nr × ¬ (nr ≡ fop.nnr))
  unfolding report_in_bounds IsOutstanding
  in_bounds_wrapped ne gt = ground arith

-- A report word without the lockout flag, whose N(R) is a byte other than V(S), is answered as out of bounds (event E13) exactly if the numbers from NN(R) to V(S) wrap and N(R) is either NN(R) itself or no outstanding number. Where they do not wrap, any N(R) is accepted.
pub report_event-e13_iff :
    (fop : FopConfig) (clcw : ClcwFrame)
    → fop.vs < 256
    → fop.nnr < 256
    → clcw.report_value < 256
    → clcw.lockout ≡ 0
    → ¬ (clcw.report_value ≡ fop.vs)
    → (report_event fop clcw ≡ e13) ↔ (
        fop.vs < fop.nnr
        × ((clcw.report_value ≡ fop.nnr) ⊎ ¬ IsOutstanding fop.vs fop.nnr clcw.report_value))
unfolding report_event
report_event-e13_iff fop clcw vs_lt nnr_lt nr_lt unlocked ne = ground (
  arith,
  in_bounds_unwrapped fop clcw.report_value vs_lt nnr_lt nr_lt ne,
  in_bounds_wrapped fop clcw.report_value vs_lt nnr_lt nr_lt ne,
)
