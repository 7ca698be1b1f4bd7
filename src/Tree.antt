-- ===== src/Tree.antt =====
-- pybootchartgui/process_tree.py, class ProcessTree.
pub mod Forest
pub mod Prune
pub mod Times
pub mod Siblings
pub mod Merges
pub mod Runs
pub mod Logger
pub mod Exploders
pub mod Sort
pub mod Arrange
pub mod Build
pub mod Init
