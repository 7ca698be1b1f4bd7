-- ===== src/Parse/Files/Laws.antt =====
-- What an archive has to hold for the trace of it to be valid.
use mathlib.Core.Path.{subst}
use bootchart.Prelude.{
  ◌≡◌, refl, ap, ◌∙◌, ◌⊎◌, inl, inr, Bool, true, ◌&&◌, Option, none, some, List, [], ◌∷◌, Text,
  Option-cases, arith,
}
use bootchart.Prelude.Results.{ok, >>=-eq-ok, ok-injective}
use bootchart.Parse.Pacct.{Version, parse_pacct}
use bootchart.Parse.Taskstats.{parse_taskstats_log}
use bootchart.Parse.ProcPs.{parse_proc_ps_log}
use bootchart.Parse.ProcStat.{parse_proc_stat_log}
use bootchart.Parse.Meminfo.{parse_proc_meminfo_log}
use bootchart.Parse.DiskStat.{parse_proc_disk_stat_log}
use bootchart.Parse.Maps.{get_num_cpus, parse_paternity_log, parse_cmdline_log}
use bootchart.Parse.Files.{
  Log, header, proc_diskstats, taskstats, proc_stat, proc_meminfo, dmesg, cmdline2, paternity,
  proc_ps, kernel_pacct, log_of, File, TraceState, no_trace, is_some, valid, finished, parse_log,
  parse_opened, do_parse, parse_members,
}

-- The four fields of `valid` are as they were, but for those that the log sets.
record SetsBy (log : Log) (s s' : TraceState) : Type 0 where
  headers : (s'.headers ≡ s.headers) ⊎ (log ≡ header)
  disk_stats : (s'.disk_stats ≡ s.disk_stats) ⊎ (log ≡ proc_diskstats)
  ps_stats : (s'.ps_stats ≡ s.ps_stats) ⊎ ((log ≡ taskstats) ⊎ (log ≡ proc_ps))
  cpu_stats : (s'.cpu_stats ≡ s.cpu_stats) ⊎ (log ≡ proc_stat)

-- A log that sets none of the four.
abbrev untouched :
    (log : Log) (s s' : TraceState)
    → s'.headers ≡ s.headers
    → s'.disk_stats ≡ s.disk_stats
    → s'.ps_stats ≡ s.ps_stats
    → s'.cpu_stats ≡ s.cpu_stats
    → SetsBy log s s'
untouched log s s' a b c d = record {
  headers = inl a;
  disk_stats = inl b;
  ps_stats = inl c;
  cpu_stats = inl d;
}

parse_log-SetsBy :
    (v : Version) (s : TraceState) (log : Log) (f : File) (s' : TraceState)
    → parse_log v s log f ≡ ok s'
    → SetsBy log s s'
unfolding parse_log
parse_log-SetsBy v s header f s' h = subst (SetsBy header s) (ok-injective h) (record {
  headers = inr refl;
  disk_stats = inl refl;
  ps_stats = inl refl;
  cpu_stats = inl refl;
})
parse_log-SetsBy v s proc_diskstats f s' h =
    let (x0, r0, h0) = >>=-eq-ok (get_num_cpus s.headers) _ h in
    let (x1, r1, h1) = >>=-eq-ok (parse_proc_disk_stat_log x0 f.text) _ h0 in
    subst (SetsBy proc_diskstats s) (ok-injective h1) (record {
      headers = inl refl;
      disk_stats = inr refl;
      ps_stats = inl refl;
      cpu_stats = inl refl;
    })
parse_log-SetsBy v s taskstats f s' h =
    let (x0, r0, h0) = >>=-eq-ok (parse_taskstats_log f.text) _ h in
    subst (SetsBy taskstats s) (ok-injective h0) (record {
      headers = inl refl;
      disk_stats = inl refl;
      ps_stats = inr (inl refl);
      cpu_stats = inl refl;
    })
parse_log-SetsBy v s proc_stat f s' h =
    let (x0, r0, h0) = >>=-eq-ok (parse_proc_stat_log f.text) _ h in
    subst (SetsBy proc_stat s) (ok-injective h0) (record {
      headers = inl refl;
      disk_stats = inl refl;
      ps_stats = inl refl;
      cpu_stats = inr refl;
    })
parse_log-SetsBy v s proc_meminfo f s' h =
    let (x0, r0, h0) = >>=-eq-ok (parse_proc_meminfo_log f.text) _ h in
    subst (SetsBy proc_meminfo s) (ok-injective h0) (untouched proc_meminfo s _ refl refl refl refl)
parse_log-SetsBy v s dmesg f s' h =
    subst (SetsBy dmesg s) (ok-injective h) (untouched dmesg s _ refl refl refl refl)
parse_log-SetsBy v s cmdline2 f s' h =
    let (x0, r0, h0) = >>=-eq-ok (parse_cmdline_log f.text) _ h in
    subst (SetsBy cmdline2 s) (ok-injective h0) (untouched cmdline2 s _ refl refl refl refl)
parse_log-SetsBy v s paternity f s' h =
    let (x0, r0, h0) = >>=-eq-ok (parse_paternity_log f.text) _ h in
    subst (SetsBy paternity s) (ok-injective h0) (untouched paternity s _ refl refl refl refl)
parse_log-SetsBy v s proc_ps f s' h =
    let (x0, r0, h0) = >>=-eq-ok (parse_proc_ps_log f.lines) _ h in
    subst (SetsBy proc_ps s) (ok-injective h0) (record {
      headers = inl refl;
      disk_stats = inl refl;
      ps_stats = inr (inr refl);
      cpu_stats = inl refl;
    })
parse_log-SetsBy v s kernel_pacct f s' h =
    let (x0, r0, h0) = >>=-eq-ok (finished (parse_pacct v f.raw)) _ h in
    subst (SetsBy kernel_pacct s) (ok-injective h0) (untouched kernel_pacct s _ refl refl refl refl)

-- A member of the archive has the name of the log.
abbrev pub HasMember : Log → List (Text × Option File) → Type 0
HasMember log [] = ⊥
HasMember log ((name, file) ∷ members) = (log_of name ≡ some log) ⊎ HasMember log members

-- What is in the trace was there before, or comes from a member.
pub record ComesFrom (members : List (Text × Option File)) (s s' : TraceState) : Type 0 where
  pub headers : (s'.headers ≡ s.headers) ⊎ HasMember header members
  pub disk_stats : (s'.disk_stats ≡ s.disk_stats) ⊎ HasMember proc_diskstats members
  pub ps_stats :
      (s'.ps_stats ≡ s.ps_stats) ⊎ (HasMember taskstats members ⊎ HasMember proc_ps members)
  pub cpu_stats : (s'.cpu_stats ≡ s.cpu_stats) ⊎ HasMember proc_stat members

or_later : {A X Y : Type 0} {a b c : A} → (b ≡ a) ⊎ X → (c ≡ b) ⊎ Y → (c ≡ a) ⊎ (X ⊎ Y)
or_later (inl e) (inl f) = inl (f ∙ e)
or_later (inr x) (inl f) = inr (inl x)
or_later x (inr y) = inr (inr y)

or_map : {X Y Z : Type 0} → (Y → Z) → X ⊎ Y → X ⊎ Z
or_map f (inl x) = inl x
or_map f (inr y) = inr (f y)

-- The members of two kinds, each first or later.
or_swap : {P Q R S : Type 0} → (P ⊎ Q) ⊎ (R ⊎ S) → (P ⊎ R) ⊎ (Q ⊎ S)
or_swap (inl (inl p)) = inl (inl p)
or_swap (inl (inr q)) = inr (inl q)
or_swap (inr (inl r)) = inl (inr r)
or_swap (inr (inr s)) = inr (inr s)

-- What one member sets, by its name.
record NameSets (name : Text) (s s' : TraceState) : Type 0 where
  headers : (s'.headers ≡ s.headers) ⊎ (log_of name ≡ some header)
  disk_stats : (s'.disk_stats ≡ s.disk_stats) ⊎ (log_of name ≡ some proc_diskstats)
  ps_stats :
      (s'.ps_stats ≡ s.ps_stats) ⊎ ((log_of name ≡ some taskstats) ⊎ (log_of name ≡ some proc_ps))
  cpu_stats : (s'.cpu_stats ≡ s.cpu_stats) ⊎ (log_of name ≡ some proc_stat)

SetsBy-NameSets :
    (name : Text) (log : Log) (s s' : TraceState)
    → log_of name ≡ some log
    → SetsBy log s s'
    → NameSets name s s'
SetsBy-NameSets name log s s' e h =
    let named = λ (l : Log) (x : log ≡ l). e ∙ ap some x in
    record {
      headers = or_map (named header) h.headers;
      disk_stats = or_map (named proc_diskstats) h.disk_stats;
      ps_stats =
          or_map (λ x. elim x [ inl a ↦ inl (named taskstats a) | inr b ↦ inr (named proc_ps b) ])
            h.ps_stats;
      cpu_stats = or_map (named proc_stat) h.cpu_stats;
    }

parse_opened-SetsBy :
    (v : Version) (s : TraceState) (log : Log) (file : Option File) (s' : TraceState)
    → parse_opened v s log file ≡ ok s'
    → SetsBy log s s'
unfolding parse_opened
parse_opened-SetsBy v s log none s' h = cc
parse_opened-SetsBy v s log (some f) s' h = parse_log-SetsBy v s log f s' h

do_parse-NameSets :
    (v : Version) (s : TraceState) (name : Text) (file : Option File) (s' : TraceState)
    → do_parse v s name file ≡ ok s'
    → NameSets name s s'
unfolding do_parse
do_parse-NameSets v s name file s' h = elim (Option-cases (log_of name)) [
  | inl e ↦ subst (NameSets name s) (ok-injective (rw (do_parse, e) at h)) (record {
    headers = inl refl;
    disk_stats = inl refl;
    ps_stats = inl refl;
    cpu_stats = inl refl;
  })
  | inr (log, e) ↦
      SetsBy-NameSets name log s s' e (parse_opened-SetsBy v s log file s' (rw (do_parse, e) at h))
]

parse_members-ComesFrom :
    (v : Version) (s : TraceState) (members : List (Text × Option File)) (s' : TraceState)
    → parse_members v s members ≡ ok s'
    → ComesFrom members s s'
unfolding parse_members
parse_members-ComesFrom v s [] s' h = subst (ComesFrom [] s) (ok-injective h) (record {
  headers = inl refl;
  disk_stats = inl refl;
  ps_stats = inl refl;
  cpu_stats = inl refl;
})
parse_members-ComesFrom v s ((name, file) ∷ members) s' h =
    let (t, first, later) = >>=-eq-ok (do_parse v s name file) (λ t. parse_members v t members) h in
    let a = do_parse-NameSets v s name file t first in
    let b = parse_members-ComesFrom v t members s' later in
    record {
      headers = or_later a.headers b.headers;
      disk_stats = or_later a.disk_stats b.disk_stats;
      ps_stats = or_map or_swap (or_later a.ps_stats b.ps_stats);
      cpu_stats = or_later a.cpu_stats b.cpu_stats;
    }

all_four :
    (a b c d : Bool) → (a && b && c && d) ≡ true → (a ≡ true) × (b ≡ true) × (c ≡ true) × (d ≡ true)
all_four a b c d h = (ground arith, ground arith, ground arith, ground arith)

from_members : {A X : Type 0} {o : Option A} → is_some o ≡ true → (o ≡ none) ⊎ X → X
from_members h (inl e) = cc (rw e at h)
from_members h (inr x) = x

-- If the members of an archive make a valid trace, then there are a header, disk statistics, CPU
-- statistics, and one of the two logs of processes among them.
pub parse_members-valid :
    (v : Version) (members : List (Text × Option File)) (s : TraceState)
    → parse_members v no_trace members ≡ ok s
    → valid s ≡ true
    → HasMember header members
      × HasMember proc_diskstats members
      × (HasMember taskstats members ⊎ HasMember proc_ps members)
      × HasMember proc_stat members
unfolding valid
parse_members-valid v members s h ok' =
    let c = parse_members-ComesFrom v no_trace members s h in
    let (a, b, d, e) =
      all_four (is_some s.headers) (is_some s.disk_stats) (is_some s.ps_stats) (is_some s.cpu_stats)
        ok' in
    (
      from_members a c.headers,
      from_members b c.disk_stats,
      from_members d c.ps_stats,
      from_members e c.cpu_stats,
    )
