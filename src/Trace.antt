-- ===== src/Trace.antt =====
-- pybootchartgui/parsing.py, class Trace: what is made of the parsed logs before a tree is built.
pub mod Parents
pub mod Compile
pub mod Crop
pub mod Annotate
