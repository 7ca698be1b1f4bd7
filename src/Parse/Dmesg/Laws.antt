-- ===== src/Parse/Dmesg/Laws.antt =====
-- The pids of the processes that the kernel log yields.
use mathlib.Core.Path.{subst}
use bootchart.Prelude.{
  ℕ, suc, ◌≡◌, ◌≢◌, refl, inl, inr, Bool, true, false, ◌||◌, Option, none, some, List, [], ◌∷◌,
  Text, codes, text_eq, Bool-cases, Option-cases, if◌then◌else◌, arith,
}
use bootchart.Prelude.Int.{ℤ, pos, ◌+ℤ◌, ◌-ℤ◌, ◌≤ℤ◌, int_laws, parts_of_eq, max_ℤ}
use bootchart.Prelude.Dict.{
  Dict, text_key, get, put, AllEntries, AllEntries-put, AllEntries-get, AllEntries-weaken,
}
use bootchart.Prelude.Words.{starts_with}
use bootchart.Samples.{Process, new_process}
use bootchart.Parse.Dmesg.{
  DmesgState, initial, match_timestamp, match_split, is_base, since, name_of, caller_of, start_call,
  end_call, add_event, add_message, add_dmesg_line, add_dmesg_lines,
}

-- What the pid of a process adds to the pid of its parent.
abbrev pub number : Process ℤ → ℤ
number p = p.pid -ℤ p.ppid

-- An entry that is a process of its own, and not the kernel's, has a number up to `idx`.
abbrev pub IsNumbered : ℕ → Option (Process ℤ) → Type 0
IsNumbered idx none = Unit
IsNumbered idx (some p) = (pos 1 ≤ℤ number p) × (number p ≤ℤ pos idx)

-- Two entries do not have one number.
abbrev pub Apart : Option (Process ℤ) → Option (Process ℤ) → Type 0
Apart none e = Unit
Apart (some p) none = Unit
Apart (some p) (some q) = number p ≢ number q

abbrev pub AllApart : Dict Text (Option (Process ℤ)) → Type 0
AllApart [] = Unit
AllApart ((k, e) ∷ d) = AllEntries (λ j f. Apart e f) d × AllApart d

pub record HasNumbers (s : DmesgState) : Type 0 where
  pub numbered : AllEntries (λ k e. IsNumbered s.idx e) s.process_map
  pub apart : AllApart s.process_map

AllApart-put_new :
    (d : Dict Text (Option (Process ℤ))) (k : Text) (v : Option (Process ℤ))
    → AllEntries (λ j e. Apart e v × Apart v e) d
    → AllApart d
    → AllApart (put d k v)
unfolding put
AllApart-put_new [] k v h a = (tt, tt)
AllApart-put_new ((j, w) ∷ d) k v h a = elim (Bool-cases (text_eq j k)) [
  | inl e ↦ rw e (
    AllEntries-weaken (λ i f. Apart f v × Apart v f) (λ i f. Apart v f) d (λ i f x. x.1) h.1,
    a.1,
  )
  | inr e ↦ rw e (AllEntries-put (λ i f. Apart w f) d k v a.0 h.0.0, AllApart-put_new d k v h.1 a.1)
]

-- A process that takes the place of one of its number.
AllApart-put_same :
    (d : Dict Text (Option (Process ℤ))) (k : Text) (v v' : Option (Process ℤ))
    → get d k ≡ some v
    → ((e : Option (Process ℤ)) → Apart e v → Apart e v')
    → ((e : Option (Process ℤ)) → Apart v e → Apart v' e)
    → AllApart d
    → AllApart (put d k v')
unfolding put get
AllApart-put_same [] k v v' g l r a = (tt, tt)
AllApart-put_same ((j, w) ∷ d) k v v' g l r a = elim (Bool-cases (text_eq j k)) [
  | inl e ↦
      let same : w ≡ v = cc (rw e at g) in
      rw e (
        AllEntries-weaken (λ i f. Apart v f) (λ i f. Apart v' f) d (λ i f. r f)
            (subst (λ x. AllEntries (λ i f. Apart x f) d) same a.0),
        a.1,
      )
  | inr e ↦
      let found : get d k ≡ some v = rw e at g in
      rw e (
        AllEntries-put (λ i f. Apart w f) d k v' a.0
            (l w (AllEntries-get (λ i f. Apart w f) d k v a.0 found)),
        AllApart-put_same d k v v' found l r a.1,
      )
]

IsNumbered-suc : (idx : ℕ) (e : Option (Process ℤ)) → IsNumbered idx e → IsNumbered (suc idx) e
IsNumbered-suc idx none h = tt
IsNumbered-suc idx (some p) h = (h.0, omega (arith, h.1))

-- A number above all others.
Apart-above :
    (idx : ℕ) (e : Option (Process ℤ)) (p : Process ℤ)
    → number p ≡ pos (suc idx)
    → IsNumbered idx e
    → Apart e (some p) × Apart (some p) e
Apart-above idx none p n h = (tt, tt)
Apart-above idx (some q) p n h = (
  (λ s. omega (arith, parts_of_eq s, parts_of_eq n, h.1)),
  (λ s. omega (arith, parts_of_eq s, parts_of_eq n, h.1)),
)

added : (a : ℤ) (n : ℕ) → (a +ℤ pos n) -ℤ a ≡ pos n
added a n = omega int_laws

Apart-later :
    (p : Process ℤ) (d : ℤ) (e : Option (Process ℤ))
    → Apart e (some p)
    → Apart e (some (record p { duration = d }))
Apart-later p d none h = tt
Apart-later p d (some q) h = h

Apart-earlier :
    (p : Process ℤ) (d : ℤ) (e : Option (Process ℤ))
    → Apart (some p) e
    → Apart (some (record p { duration = d })) e
Apart-earlier p d none h = tt
Apart-earlier p d (some q) h = h

start_call-HasNumbers :
    (s : DmesgState) (time : ℤ) (func rest : Text)
    → HasNumbers s
    → HasNumbers (start_call s time func rest)
unfolding start_call new_process
start_call-HasNumbers s time func rest h =
    let ppid : ℤ = caller_of s rest in
    let p : Process ℤ = new_process (ppid +ℤ pos (suc s.idx)) (name_of func) ppid time in
    let n : number p ≡ pos (suc s.idx) = added ppid (suc s.idx) in
    record {
      numbered =
          AllEntries-put (λ k e. IsNumbered (suc s.idx) e) s.process_map func (some p)
            (AllEntries-weaken (λ k e. IsNumbered s.idx e) _ s.process_map
              (λ k. IsNumbered-suc s.idx) h.numbered)
            (omega (arith, parts_of_eq n), omega (arith, parts_of_eq n));
      apart =
          AllApart-put_new s.process_map func (some p)
            (AllEntries-weaken (λ k e. IsNumbered s.idx e) _ s.process_map
              (λ k e. Apart-above s.idx e p n) h.numbered)
            h.apart;
    }

end_call-HasNumbers :
    (s : DmesgState) (time : ℤ) (func : Text) (entry : Option (Option (Process ℤ)))
    → get s.process_map func ≡ entry
    → HasNumbers s
    → HasNumbers (end_call s time func entry)
unfolding end_call
end_call-HasNumbers s time func none g h = h
end_call-HasNumbers s time func (some none) g h = record { numbered = h.numbered; apart = h.apart }
end_call-HasNumbers s time func (some (some p)) g h = record {
  numbered =
      AllEntries-put (λ k e. IsNumbered s.idx e) s.process_map func
        (some (record p { duration = time -ℤ p.start_time })) h.numbered
        (AllEntries-get (λ k e. IsNumbered s.idx e) s.process_map func (some p) h.numbered g);
  apart =
      AllApart-put_same s.process_map func (some p)
        (some (record p { duration = time -ℤ p.start_time })) g
        (Apart-later p (time -ℤ p.start_time)) (Apart-earlier p (time -ℤ p.start_time)) h.apart;
}

HasNumbers-if :
    (b : Bool) (s t : DmesgState) → HasNumbers s → HasNumbers t → HasNumbers (if b then s else t)
HasNumbers-if true s t h k = h
HasNumbers-if false s t h k = k

add_event-HasNumbers :
    (s : DmesgState) (time : ℤ) (message : Text) (event : Text × Text × Text)
    → HasNumbers s
    → HasNumbers (add_event s time message event)
unfolding add_event
add_event-HasNumbers s time message (type', func, rest) h =
    let ended = record s { kernel = record s.kernel { duration = time } } in
    let called = start_call s time func rest in
    let returned = end_call s time func (get s.process_map func) in
    let known = if text_eq type' (codes "initcall") then returned else s in
    HasNumbers-if
      (starts_with message (codes "Write protecting the")
        || starts_with message (codes "Freeing unused kernel memory"))
      ended (if text_eq type' (codes "calling") then called else known)
      (record { numbered = h.numbered; apart = h.apart })
      (HasNumbers-if (text_eq type' (codes "calling")) called known
        (start_call-HasNumbers s time func rest h)
        (HasNumbers-if (text_eq type' (codes "initcall")) returned s
          (end_call-HasNumbers s time func (get s.process_map func) refl h) h))

add_message-HasNumbers :
    (s : DmesgState) (time : ℤ) (message : Text)
    → HasNumbers s
    → HasNumbers (add_message s time message)
unfolding add_message
add_message-HasNumbers s time message h =
    let s' : DmesgState = record s { max_ts = max_ℤ time s.max_ts } in
    let h' : HasNumbers s' = record { numbered = h.numbered; apart = h.apart } in
    elim (Option-cases (match_split message)) [
      | inl e ↦ rw (add_message, e) h'
      | inr (event, e) ↦
          rw (add_message, e) (add_event-HasNumbers s' (since s.base_ts time) message event h')
    ]

add_dmesg_line-HasNumbers :
    (s : DmesgState) (line : Text) → HasNumbers s → HasNumbers (add_dmesg_line s line)
unfolding add_dmesg_line
add_dmesg_line-HasNumbers s line h = elim (Option-cases (match_timestamp line)) [
  | inl e ↦ rw (add_dmesg_line, e) h
  | inr ((time, message), e) ↦
      rw (add_dmesg_line, e)
        (HasNumbers-if (is_base s time) (record s { base_ts = some time })
          (add_message s time message) (record { numbered = h.numbered; apart = h.apart })
          (add_message-HasNumbers s time message h))
]

-- Call a process's pid less its parent's its number. If the numbers of the processes lie between 1 and
-- the counter of calls and no two are equal, as at the start where there is no process but the kernel's,
-- then this holds after any lines of the kernel log.
pub add_dmesg_lines-HasNumbers :
    (s : DmesgState) (lines : List Text) → HasNumbers s → HasNumbers (add_dmesg_lines s lines)
unfolding add_dmesg_lines
add_dmesg_lines-HasNumbers s [] h = h
add_dmesg_lines-HasNumbers s (line ∷ lines) h =
    add_dmesg_lines-HasNumbers (add_dmesg_line s line) lines (add_dmesg_line-HasNumbers s line h)

pub initial-HasNumbers : HasNumbers initial
unfolding initial
initial-HasNumbers = record { numbered = (tt, tt); apart = (tt, tt) }
