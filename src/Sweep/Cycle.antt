-- ===== src/Sweep/Cycle.antt =====
-- core/parseallcycle.go: the cycle of a sweep and the state of its pages.
-- Fail counts are numbers from 0 on, as every write leaves them.
use jacred_go.Base.{
  ℕ, suc, ◌+◌, Bool, true, false, not, ◌&&◌, List, [], ◌∷◌, Option, none, some, Str, equal, ltb,
  ◌==◌, if◌then◌else◌, length,
}
use jacred_go.Base.Trim.{trim_space, is_empty}

-- `ParseAllFailBudget`
abbrev pub fail_budget : ℕ
fail_budget = 3

-- `ParseAllCycle`
pub record Cycle : Type 0 where
  pub cycle_id : Str
  pub started_at : Str
  pub fingerprint : Str
  pub map_count : ℕ

-- `CycleFields`: one page of a task map, as the cycle logic sees it.
pub record Slot : Type 0 where
  pub cycle_id : Str
  pub fail_count : ℕ

-- `NewParseAllCycle`; the clock gives the id and the stamp.
pub record Stamp : Type 0 where
  pub id : Str
  pub at : Str

abbrev pub new_cycle : Stamp → Str → ℕ → Cycle
new_cycle now fingerprint map_count = record {
  cycle_id = now.id;
  started_at = now.at;
  fingerprint = fingerprint;
  map_count = map_count;
}

abbrev pub is_blank : Str → Bool
is_blank s = is_empty (trim_space s)

-- `LoadParseAllCycle`, from what the file decodes to, if it does.
unfoldable pub load_cycle : Option Cycle → Option Cycle
load_cycle none = none
load_cycle (some c) = if is_blank c.cycle_id then none else some c

-- `SaveParseAllCycle`: the file behind it, where each of its steps may fail.
unfoldable pub save_cycle : Bool → Cycle → Option Cycle → Option Cycle
save_cycle true c old = some c
save_cycle false c old = old

-- `PendingInCycle`
unfoldable pub pending_in_cycle : Option Cycle → Slot → Bool
pending_in_cycle none s = true
pending_in_cycle (some c) s =
    if is_blank c.cycle_id then true else not (equal s.cycle_id c.cycle_id)

-- `CountPendingInCycle`
unfoldable pub count_pending : Option Cycle → List Slot → ℕ
unfolding pending_in_cycle
count_pending c [] = 0
count_pending c (s ∷ ss) =
    if pending_in_cycle c s then suc (count_pending c ss) else count_pending c ss

-- The page is done for the cycle.
abbrev pub settled : Cycle → Slot → Slot
settled c s = record { cycle_id = c.cycle_id; fail_count = 0 }

-- `NoteParseAllAttempt`: the page behind it, and whether it is done.
unfoldable pub note_attempt : Option Cycle → Bool → Slot → Slot × Bool
note_attempt none good s = (s, good)
note_attempt (some c) true s = (settled c s, true)
note_attempt (some c) false s =
    if ltb (s.fail_count + 1) fail_budget
    then (record s { fail_count = s.fail_count + 1 }, false)
    else (settled c s, true)

-- The pages that were visited on the day, put into the first cycle; `i` is the next page's index.
unfoldable pub stamp_today : (ℕ → Bool) → Str → ℕ → List Slot → List Slot
stamp_today today id i [] = []
stamp_today today id i (s ∷ ss) =
    (if today i then record s { cycle_id = id } else s) ∷ stamp_today today id (i + 1) ss

abbrev pub stamp_if : Option (ℕ → Bool) → Str → List Slot → List Slot
stamp_if none id slots = slots
stamp_if (some today) id slots = stamp_today today id 0 slots

-- What `BeginParseAllCycle` returns, with the pages and the file behind it.
pub record Begun : Type 0 where
  pub cycle : Cycle
  pub pending : ℕ
  pub slots : List Slot
  pub file : Option Cycle

abbrev pub joined : Cycle → Str → List Slot → Cycle
joined c fingerprint slots = record c { fingerprint = fingerprint; map_count = length slots }

abbrev begin_first : Bool → Stamp → Str → List Slot → Option (ℕ → Bool) → Option Cycle → Begun
begin_first saves now fingerprint slots today file =
    let c = new_cycle now fingerprint (length slots) in
    let stamped = stamp_if today c.cycle_id slots in
    record {
      cycle = c;
      pending = count_pending (some c) stamped;
      slots = stamped;
      file = save_cycle saves c file;
    }

-- `rotateIfComplete && pending == 0 && len(slots) > 0`
abbrev pub rotates : Bool → Cycle → List Slot → Bool
rotates rotate c slots = rotate && count_pending (some c) slots == 0 && ltb 0 (length slots)

abbrev begin_next : Bool → Stamp → Str → List Slot → Bool → Cycle → Option Cycle → Begun
begin_next saves now fingerprint slots rotate c file =
    let old = joined c fingerprint slots in
    let new = new_cycle now fingerprint (length slots) in
    if rotates rotate old slots
    then record {
      cycle = new;
      pending = length slots;
      slots = slots;
      file = save_cycle saves new file;
    }
    else record {
      cycle = old;
      pending = count_pending (some old) slots;
      slots = slots;
      file = save_cycle saves old file;
    }

-- The rest of `BeginParseAllCycle`, from the checkpoint that was read.
abbrev pub begin_from :
    Bool → Stamp → Option Cycle → Str → List Slot → Option (ℕ → Bool) → Bool → Option Cycle → Begun
begin_from saves now file fingerprint slots today rotate none =
    begin_first saves now fingerprint slots today file
begin_from saves now file fingerprint slots today rotate (some c) =
    begin_next saves now fingerprint slots rotate c file

-- `BeginParseAllCycle`; `saves` is whether the write succeeds, which nothing reads.
unfoldable pub begin_cycle :
    Bool → Stamp → Option Cycle → Str → List Slot → Option (ℕ → Bool) → Bool → Begun
unfolding load_cycle save_cycle count_pending stamp_today
begin_cycle saves now file fingerprint slots today rotate =
    begin_from saves now file fingerprint slots today rotate (load_cycle file)
