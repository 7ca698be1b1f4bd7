-- ===== src/Parse.antt =====
-- pybootchartgui/parsing.py: the parsers of the log files.
pub mod Blocks
pub mod Taskstats
pub mod ProcStat
pub mod Meminfo
pub mod ProcPs
pub mod Maps
pub mod Pacct
pub mod Dmesg
pub mod DiskStat
pub mod Files
