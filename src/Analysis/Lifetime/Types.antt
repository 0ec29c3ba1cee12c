-- ===== src/Analysis/Lifetime/Types.antt =====
-- lifetime/types.go: the verdicts of the analysis.

pub data LifetimeState : Type 0 where
  safe unsafe unknown : LifetimeState

pub data ViolationType : Type 0 where
  escaped_return escaped_closure escaped_global escaped_interface escaped_channel escaped_map :
      ViolationType
  escaped_slice escaped_reflection escaped_unsafe unknown_call unknown_alias unknown_ownership :
      ViolationType
  unknown_region : ViolationType
