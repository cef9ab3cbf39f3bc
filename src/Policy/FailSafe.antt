-- ===== src/Policy/FailSafe.antt =====
-- fail_safe.py: traffic that cannot be inspected.
use ohmydb_proxy.Prelude.{Text, lit, ◌++◌}

pub data FailSafeMode : Type 0 where
  strict : FailSafeMode
  balanced : FailSafeMode
  permissive : FailSafeMode

pub data ProtocolGapAction : Type 0 where
  allow_gap : ProtocolGapAction
  block_gap : ProtocolGapAction

pub record ProtocolGapDecision : Type 0 where
  pub action : ProtocolGapAction
  pub reason : Text

abbrev pub mode_value : FailSafeMode → Text
mode_value strict = lit "strict"
mode_value balanced = lit "balanced"
mode_value permissive = lit "permissive"

unfoldable pub evaluate_protocol_gap : FailSafeMode → Text → ProtocolGapDecision
evaluate_protocol_gap permissive reason = record {
  action = allow_gap;
  reason = reason ++ lit "; permissive fail-safe mode allows forwarding";
}
evaluate_protocol_gap mode reason = record {
  action = block_gap;
  reason =
      reason ++ (lit "; " ++ (mode_value mode ++ lit " fail-safe mode blocks uninspectable SQL"));
}
