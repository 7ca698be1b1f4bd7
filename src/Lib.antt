-- ===== src/Lib.antt =====
-- A model of pybootchartgui, the part of bootchart that reads the logs of a boot and draws them as a
-- chart of processes over time, with theorems about it.
--
-- The program reads the logs into a Trace (pybootchartgui/parsing.py): one parser for each log, most of
-- them over timed blocks. Trace.compile then gives every process its command line, its parent and its
-- run, and Trace.crop ends the chart at an idle time. ProcessTree (pybootchartgui/process_tree.py)
-- builds the tree of the processes and makes it fit for reading by passes that prune, merge and sort
-- it. pybootchartgui/draw.py draws it, into an image or into the window of pybootchartgui/gui.py.
--
-- Files and code:
--   Prelude     Boolean tests, integers, sorting, results, Python's dict and string methods; str and '%d' in
--               Decimal
--   Samples     Process, CPUSample and ProcessSample of samples.py, with merge_processes
--     Stats     Process.calc_stats and Process.set_parent; Load: Process.calc_load
--   Parse       the parsers of parsing.py
--     Blocks    _parse_timed_blocks and _iter_parse_timed_blocks
--     Taskstats _parse_taskstats_log; ProcPs: _parse_proc_ps_log; ProcStat: _parse_proc_stat_log
--     Meminfo   _parse_proc_meminfo_log; DiskStat: _parse_proc_disk_stat_log
--     Maps      _parse_headers, get_num_cpus, _parse_paternity_log and _parse_cmdline_log
--     Dmesg     _parse_dmesg; Pacct: _parse_pacct
--     Files     _do_parse, parse_file, parse_paths and Trace.valid, with file names in Names
--   Trace       Trace.compile (Parents: find_parent_id_for; Compile), Trace.crop (Crop), and the start and the
--               end of Trace.__init__ (Annotate): the check of the logs, the annotations, the kernel tree
--   Tree        ProcessTree: Build (build, update_ppids_for_daemons), Forest (num_nodes, the times), one
--               file for each pass (Prune, Logger, Exploders, Siblings, Runs, Sort), Arrange, the passes
--               as __init__ calls them, and Init, the whole of __init__
--   Draw        extents and render (Layout), the charts of render_charts (Charts), draw_header (Header), the time axis (Axis), the
--               curves of draw_chart (Curve), clip_visible (Clip), and draw_cuml_graph
--     BarChart  draw_process_bar_chart, over the rows of the processes (Rows), their boxes, labels and
--               connections (Boxes) and their bars of activity (Activity)
--     Cumulative  the groups of processes; Layer: the layer of a group; Graph: all layers with labels and
--               legends
--   Gui         PyBootchartWidget of pybootchartgui/gui.py: its state (Widget), zoom and scroll adjustments
--               (Scroll), mouse and keys (Events), its transform, and the pages of the window (Window)
--   Batch       render of batch.py
--   Main        main and _get_filename of main.py.in; os.path and the reading of the logs are parameters
--   Examples    the theorems on concrete logs and trees
-- The files Laws, Totals, Reparents, Daemons, Bytes, RoundTrip, Fuel, Depth, Heights, Settle, Forests,
-- Counts, Complete, Permutes, Within, Returns, Idle, Select, Parenting, Chart and Splits below another
-- one hold its theorems.
--
-- How the code is modelled:
--   * A process is a record, and objects are told apart by their pid; `parent` holds the pid of the
--     parent. The child lists of ProcessTree are a forest: a list of processes, each with its list. The
--     step from the lists of Build to a forest is forest_of there.
--   * A method that changes the tree returns the new tree, with the number that the method returns.
--   * Times, durations and pids are integers in a unit in which all of them are whole. Floats are exact:
--     a quotient is a Ratio, a comparison with a constant such as 0.9 or 0.25 is multiplied out.
--   * The CPU shares of a sample have a type V: integers (nanoseconds) for the taskstats log and Ratio
--     for the others.
--   * Text is a list of code points, and a file is given decoded. The digits of `int` and `\d` are those of
--     ASCII.
--   * The kernel log has times in microseconds and pids in millionths. The accounting file is a list of
--     bytes, and Python's version is an argument, since `file.read` and `ord` differ. The file system of
--     parse_paths and the extents of a text and of a chart are arguments.
--   * A handler of the window takes the widget to a new one and a list of the signals that it emits, in
--     order. What GTK does about a signal is another call, also where GTK makes it at once.
--   * An exception is an error of Result, or none of an Option where there is one kind.
--   * The passes over a tree recurse on fuel. One more than the number of processes is enough, since
--     every call is on fewer processes; Arrange gives that fuel. find_parent_id_for recurses on its
--     depth, which is enough if it is above a rank that comes down with every step to a parent.
--   * Tree.Init recurses on the depth of the tree when it reads the forest off the child lists; the
--     number of processes is a bound of it, if the parents have no circle.
--   * Draw.Boxes divides nothing: a pixel has as many units as the chart has ticks of duration. The points
--     of Draw.Curve are numerators, over the range of the times and of the values. The header's
--     duration is a whole number of hundredths of a second.
--   * The loop over an accounting file has one round of fuel more than the file has bytes, and reads a
--     byte at least in every round. The depth of parse_paths bounds directories in directories: the
--     files of a directory are no directories, so that two levels are enough. Parse/Pacct/Fuel and
--     Parse/Files/Depth are about these two.
--
-- Not modelled: warnings and progress messages; the calls of compile, crop and ProcessTree one after the
-- other in Trace.__init__, since the model has them in different units (the sample period is a
-- quotient, the kernel log has microseconds); the calls of cairo, with colours, line widths and the
-- title line and grid of the cumulative graph; the toolbar and the windows around the widget of gui.py,
-- which are calls of GTK; the parser of the options in main.py.in, which is a call of optparse, with the
-- profiler and the Writer, which print; the collector, which is C.
pub mod Prelude
pub mod Samples
pub mod Tree
pub mod Parse
pub mod Trace
pub mod Draw
pub mod Gui
pub mod Batch
pub mod Main
pub mod Examples
