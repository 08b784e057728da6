-- ===== src/Discovery/Selector/Examples.antt =====
-- The theorem on the label selector at a concrete input.
use pole.Prelude.{ℕ, false}
use pole.Discovery.Selector.{Comparisons}

abbrev no_comparisons : Comparisons
no_comparisons = record {
  Float = ℕ;
  Object = ℕ;
  Other = ℕ;
  float_lt = λ a b. false;
  float_eq = λ a b. false;
}
