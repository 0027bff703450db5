-- ===== src/Merge.antt =====
-- src/commands/util.rs and src/state.rs: the state of a run, and how a state that is about to be
-- saved is merged with the one that was saved in the meantime. `Stable` merges two lists by keys,
-- `Items` reads a list by keys, and `View` is about what the merged list holds. `Contract` has the
-- checks of a run and of its delivery contract. The text of a JSON value (serde_json) is a parameter.
pub mod Stable
pub mod Items
pub mod View
pub mod Save
pub mod Kept
pub mod Contract
