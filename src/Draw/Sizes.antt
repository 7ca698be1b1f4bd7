-- ===== src/Draw/Sizes.antt =====
-- The sizes of draw.py, in pixels.
use bootchart.Prelude.{ℕ, ◌+◌, ◌*◌}

abbrev pub off_x : ℕ
off_x = 10

abbrev pub off_y : ℕ
off_y = 10

abbrev pub bar_h : ℕ
bar_h = 55

abbrev pub meminfo_bar_h : ℕ
meminfo_bar_h = 2 * bar_h

abbrev pub header_h : ℕ
header_h = 110 + 2 * (30 + bar_h) + 1 * (30 + meminfo_bar_h)

abbrev pub proc_h : ℕ
proc_h = 16

abbrev pub cuml_height : ℕ
cuml_height = 2000
