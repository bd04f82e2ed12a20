-- ===== src/Sweep/Tests.antt =====
-- core/parseallcycle.go and core/taskpages.go on small maps.
use jacred_go.Base.{ℕ, ◌*◌, ◌≤◌, ◌≡◌, refl, true, false, List, [], ◌∷◌, none, some, Str, codes}
use jacred_go.Base.Atoi.{pos}
use jacred_go.Base.Trim.{trim_space, trim_left, trim_right}
use jacred_go.Sweep.Cycle.{
  Cycle, Slot, Stamp, fail_budget, pending_in_cycle, count_pending, note_attempt, begin_cycle,
}
use jacred_go.Sweep.Owed.{attempt, Attempts, none_yet, one_more, Attempts-le}
use jacred_go.Sweep.Begin.{begin_cycle-pending, begin_cycle-resumes}
use jacred_go.Sweep.Pages.{Pruned, prune_task_pages_if_read, prune_task_pages_if_read-Pruned}
use jacred_go.Sweep.Slots.{
  cycle_slots_from_slice, IsByPage, on_page, cycle_slots_from_slice-IsByPage,
}
use jacred_go.Bencode.Decimal.{to_decimal}
use jacred_go.Base.{map}

abbrev cycle_a : Cycle
cycle_a = record {
  cycle_id = codes "a";
  started_at = codes "t";
  fingerprint = codes "f";
  map_count = 2;
}

abbrev page : Str → ℕ → Slot
page id n = record { cycle_id = id; fail_count = n }

abbrev pages : List Slot
pages = page (codes "a") 0 ∷ page [] 2 ∷ []

abbrev now : Stamp
now = record { id = codes "b"; at = codes "u" }

abbrev later : Stamp
later = record { id = codes "c"; at = codes "w" }

one_failure : Attempts cycle_a pages 1 (page (codes "a") 0 ∷ page (codes "a") 0 ∷ [])
unfolding note_attempt pending_in_cycle trim_space trim_left trim_right
one_failure = one_more none_yet (attempt false (page (codes "a") 0 ∷ []) [] (page [] 2) refl)

Attempts-le_example : 1 ≤ fail_budget * count_pending (some cycle_a) pages
unfolding trim_space trim_left trim_right
Attempts-le_example = Attempts-le cycle_a pages refl one_failure

begin_cycle-pending_example :
    let b = begin_cycle false now none (codes "f") pages none true in
    b.pending ≡ count_pending (some b.cycle) b.slots
unfolding trim_space trim_left trim_right
begin_cycle-pending_example =
    begin_cycle-pending false now none (codes "f") pages none true refl (refl, (refl, tt))

begin_cycle-resumes_example :
    let b = begin_cycle true now none (codes "f") pages none true in
    let d = begin_cycle false later b.file (codes "g") pages none false in
    (d.cycle.cycle_id ≡ b.cycle.cycle_id)
    × (d.slots ≡ pages)
    × (d.pending ≡ count_pending (some b.cycle) pages)
unfolding trim_space trim_left trim_right
begin_cycle-resumes_example =
    begin_cycle-resumes now none (codes "f") pages none true false later (codes "g") pages none refl

prune_task_pages_if_read-Pruned_example :
    Pruned pos
      (pos 2)
      true
      (1 ∷ 3 ∷ 2 ∷ [])
      (prune_task_pages_if_read (1 ∷ 3 ∷ 2 ∷ []) pos (pos 2) true)
prune_task_pages_if_read-Pruned_example =
    prune_task_pages_if_read-Pruned (1 ∷ 3 ∷ 2 ∷ []) pos (pos 2) true

cycle_slots_from_slice-IsByPage_example :
    let r = cycle_slots_from_slice (λ (n : ℕ). n) (3 ∷ 1 ∷ 2 ∷ []) in
    IsByPage (λ (n : ℕ). n) r.0
    × ((n : ℕ) → on_page (λ (m : ℕ). m) n r.0 ≡ on_page (λ (m : ℕ). m) n (3 ∷ 1 ∷ 2 ∷ []))
    × (r.1 ≡ map (λ t. to_decimal t) r.0)
cycle_slots_from_slice-IsByPage_example =
    cycle_slots_from_slice-IsByPage (λ (n : ℕ). n) (3 ∷ 1 ∷ 2 ∷ [])
