-- ===== src/Draw.antt =====
-- draw.py: where the processes stand in the chart, and what of it is visible.
pub mod Sizes
pub mod Rows
pub mod Clip
pub mod Activity
pub mod Axis
pub mod Charts
pub mod Layout
pub mod Boxes
pub mod Curve
pub mod BarChart
pub mod Header
pub mod Cumulative
