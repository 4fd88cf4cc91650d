-- ===== src/Policy.antt =====
-- The policy engine (src/server/modules/policy): rules that adjust an entitlement at issue.
pub mod Outcome
pub mod Condition
pub mod Values
pub mod Evaluator
pub mod Effect
pub mod Validate
pub mod Follows
pub mod Sound
pub mod Applied
pub mod Compiled
pub mod Checked
pub mod Resolve
pub mod Ranking
pub mod Winner
pub mod Authoring
pub mod Bounded
pub mod Asked
pub mod ContextFree
pub mod Stops
pub mod Limits
pub mod Overlap
pub mod Enforced
pub mod Context
pub mod Minimal
pub mod Sections
pub mod Rules
pub mod Selects
pub mod Evaluation
pub mod Decide
pub mod Decisions
pub mod Preview
pub mod Routes
pub mod Transition
pub mod OneLive
pub mod LiveVersion
pub mod LifeCycle
pub mod History
pub mod Edits
pub mod Immutable
pub mod Caps
pub mod Audit
pub mod Fired
pub mod Trail
