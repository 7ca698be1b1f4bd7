-- ===== src/Parse/Files.antt =====
-- _do_parse, parse_file and parse_paths: which parser reads which file, and what of a trace it sets.
-- The file system and the archives are parameters.
pub mod Names
pub mod Laws
mod Depth
use bootchart.Prelude.{
  ℕ, zero, suc, Bool, true, false, not, ◌&&◌, ◌||◌, Option, none, some, List, [], ◌∷◌, Text, codes,
  text_eq, if◌then◌else◌,
}
use bootchart.Prelude.Int.{ℤ}
use bootchart.Prelude.Ratio.{Ratio}
use bootchart.Prelude.Dict.{Dict}
use bootchart.Prelude.Results.{
  Result, ok, err, parse_error, attribute_error, recursion_error, fold_results, ◌>>=◌,
}
use bootchart.Samples.{CpuSample, Process}
use bootchart.Trace.Compile.{CmdLine}
use bootchart.Parse.Taskstats.{ProcessStats, parse_taskstats_log}
use bootchart.Parse.ProcPs.{parse_proc_ps_log}
use bootchart.Parse.ProcStat.{parse_proc_stat_log}
use bootchart.Parse.Meminfo.{MemSample, parse_proc_meminfo_log}
use bootchart.Parse.DiskStat.{DiskSample, parse_proc_disk_stat_log}
use bootchart.Parse.Maps.{parse_headers, get_num_cpus, parse_paternity_log, parse_cmdline_log}
use bootchart.Parse.Pacct.{Version, parse_pacct}
use bootchart.Parse.Dmesg.{parse_dmesg}
use bootchart.Parse.Files.Names.{extension_of, root_of, basename, join_path, sort_paths}

-- The names that _do_parse knows.
pub data Log : Type 0 where
  header : Log
  proc_diskstats : Log
  taskstats : Log
  proc_stat : Log
  proc_meminfo : Log
  dmesg : Log
  cmdline2 : Log
  paternity : Log
  proc_ps : Log
  kernel_pacct : Log

unfoldable pub log_of : Text → Option Log
log_of name =
    if text_eq name (codes "header")
    then some header
    else if text_eq name (codes "proc_diskstats.log")
    then some proc_diskstats
    else if text_eq name (codes "taskstats.log")
    then some taskstats
    else if text_eq name (codes "proc_stat.log")
    then some proc_stat
    else if text_eq name (codes "proc_meminfo.log")
    then some proc_meminfo
    else if text_eq name (codes "dmesg")
    then some dmesg
    else if text_eq name (codes "cmdline2.log")
    then some cmdline2
    else if text_eq name (codes "paternity.log")
    then some paternity
    else if text_eq name (codes "proc_ps.log")
    then some proc_ps
    else if text_eq name (codes "kernel_pacct")
    then some kernel_pacct
    else none

-- What can be read of an open file: decoded as one text, as its lines, or as text with replacements,
-- and its bytes.
pub record File : Type 0 where
  pub text : Text
  pub lines : List Text
  pub replaced : Text
  pub raw : List ℕ

-- The processes of one of the two logs, with their kind of CPU share.
pub data PsStats : Type 0 where
  of_taskstats : ProcessStats ℤ → PsStats
  of_proc_ps : ProcessStats Ratio → PsStats

-- The fields of Trace that the parsers set.
pub record TraceState : Type 0 where
  pub headers : Option (Dict Text Text)
  pub disk_stats : Option (List DiskSample)
  pub ps_stats : Option PsStats
  pub has_taskstats : Bool
  pub cpu_stats : Option (List (CpuSample Ratio))
  pub cmdline : Option (Dict ℤ CmdLine)
  pub kernel : Option (List (Process ℤ))
  pub filename : Option Text
  pub parent_map : Option (Dict ℤ ℤ)
  pub mem_stats : Option (List MemSample)

-- Trace.__init__
abbrev pub no_trace : TraceState
no_trace = record {
  headers = none;
  disk_stats = none;
  ps_stats = none;
  has_taskstats = false;
  cpu_stats = none;
  cmdline = none;
  kernel = none;
  filename = none;
  parent_map = none;
  mem_stats = none;
}

abbrev pub is_some {ℓ} : {A : Type ℓ} → Option A → Bool
is_some none = false
is_some (some a) = true

-- Trace.valid
unfoldable pub valid : TraceState → Bool
valid s = is_some s.headers && is_some s.disk_stats && is_some s.ps_stats && is_some s.cpu_stats

abbrev wrapped {ℓ} : {A : Type ℓ} → (A → PsStats) → Option A → Option PsStats
wrapped f none = none
wrapped f (some a) = some (f a)

-- The fuel of `parse_pacct` is always enough.
abbrev finished {ℓ} : {A : Type ℓ} → Option (Result A) → Result A
finished none = err recursion_error
finished (some r) = r

-- The branches of _do_parse.
unfoldable pub parse_log : Version → TraceState → Log → File → Result TraceState
parse_log v s header f = ok (record s { headers = some (parse_headers f.text) })
parse_log v s proc_diskstats f = do
  num_cpu ← get_num_cpus s.headers
  stats ← parse_proc_disk_stat_log num_cpu f.text
  ok (record s { disk_stats = some stats })
parse_log v s taskstats f = do
  stats ← parse_taskstats_log f.text
  ok (record s { ps_stats = wrapped of_taskstats stats; has_taskstats = true })
parse_log v s proc_stat f = do
  stats ← parse_proc_stat_log f.text
  ok (record s { cpu_stats = some stats })
parse_log v s proc_meminfo f = do
  stats ← parse_proc_meminfo_log f.text
  ok (record s { mem_stats = some stats })
parse_log v s dmesg f = ok (record s { kernel = some (parse_dmesg f.replaced) })
parse_log v s cmdline2 f = do
  cmdline ← parse_cmdline_log f.text
  ok (record s { cmdline = some cmdline })
parse_log v s paternity f = do
  parent_map ← parse_paternity_log f.text
  ok (record s { parent_map = some parent_map })
parse_log v s proc_ps f = do
  stats ← parse_proc_ps_log f.lines
  ok (record s { ps_stats = wrapped of_proc_ps stats })
parse_log v s kernel_pacct f = do
  parent_map ← finished (parse_pacct v f.raw)
  ok (record s { parent_map = parent_map })

-- A member of an archive that is no file gives None for `file`.
unfoldable pub parse_opened : Version → TraceState → Log → Option File → Result TraceState
unfolding parse_log
parse_opened v s log none = err attribute_error
parse_opened v s log (some f) = parse_log v s log f

-- A file of another name is passed over.
unfoldable pub do_parse : Version → TraceState → Text → Option File → Result TraceState
unfolding log_of parse_opened
do_parse v s name file = elim (log_of name) [ none ↦ ok s | some log ↦ parse_opened v s log file ]

-- The loop over the members of an archive.
unfoldable pub parse_members : Version → TraceState → List (Text × Option File) → Result TraceState
unfolding do_parse
parse_members v s [] = ok s
parse_members v s ((name, file) ∷ members) = do
  s' ← do_parse v s name file
  parse_members v s' members

-- The functions of os and tarfile; an archive that cannot be read is `none`.
pub record FileSystem : Type 0 where
  pub exists : Text → Bool
  pub is_dir : Text → Bool
  pub is_file : Text → Bool
  pub list_dir : Text → List Text
  pub open_file : Text → Result File
  pub open_tar : Text → Option (List (Text × Option File))

module _ (v : Version) (fs : FileSystem) where
  unfoldable pub parse_file : TraceState → Text → Result TraceState
  unfolding do_parse basename
  parse_file s filename = do
    file ← fs.open_file filename
    let named : TraceState = record s {
      filename = elim s.filename [ none ↦ some filename | some f ↦ some f ];
    }
    do_parse v named (basename filename) (some file)

  unfoldable pub is_archive : Text → Bool
  is_archive ext =
      text_eq ext (codes ".tar") || text_eq ext (codes ".tgz") || text_eq ext (codes ".gz")

  -- The files of a directory, in the order of their names.
  unfoldable pub files_of : Text → List Text → List Text
  unfolding join_path
  files_of path [] = []
  files_of path (f ∷ fs') =
      let rest = files_of path fs' in
      if fs.is_file (join_path path f) then join_path path f ∷ rest else rest

  unfoldable pub parse_tar : TraceState → Text → Result TraceState
  unfolding parse_members
  parse_tar s path = elim (fs.open_tar path) [
    | none ↦ err parse_error
    | some members ↦ parse_members v s members
  ]

  -- A path that is no directory; a zipped file that is no archive is passed over.
  unfoldable pub parse_path : TraceState → Text → Result TraceState
  unfolding parse_file is_archive parse_tar extension_of root_of
  parse_path s path =
      if is_archive (extension_of path)
      then (if text_eq (extension_of path) (codes ".gz")
            && not (text_eq (extension_of (root_of path)) (codes ".tar"))
          then ok s
          else parse_tar s path)
      else parse_file s path

  -- `depth` bounds the directories in directories: the files of a directory are no directories.
  unfoldable pub parse_paths : ℕ → TraceState → List Text → Result TraceState
  unfolding parse_path files_of sort_paths
  parse_paths zero s [] = ok s
  parse_paths zero s (path ∷ paths) = err recursion_error
  parse_paths (suc depth) s [] = ok s
  parse_paths (suc depth) s (path ∷ paths) =
      let missing : Result TraceState = parse_paths (suc depth) s paths in
      let here : TraceState = record s { filename = some path } in
      let found : Result TraceState = (do
        s' ← elim (fs.is_dir path) [
          | true ↦ parse_paths depth here (sort_paths (files_of path (fs.list_dir path)))
          | false ↦ parse_path here path
        ]
        parse_paths (suc depth) s' paths) in
      if fs.exists path then found else missing
