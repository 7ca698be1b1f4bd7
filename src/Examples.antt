-- ===== src/Examples.antt =====
-- Runs of the model on small inputs, and the theorems at concrete inputs.
mod Tree
mod Init
mod Parse
mod Trace
mod Draw
mod Files
mod Graph
mod Pages
mod Charts
mod Main
mod Texts
