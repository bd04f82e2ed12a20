-- ===== src/Sweep/Begin.antt =====
-- core/parseallcycle.go: what a run of a sweep is told when it begins.
use jacred_go.Base.{
  ℕ, suc, ◌<◌, ◌≡◌, refl, Bool, true, false, List, [], ◌∷◌, Option, none, some, Str, equal, length,
  arith, Bool-cases, Option-cases, inl, inr, ap, sym, All, ◌⊎◌,
}
use jacred_go.Sweep.Cycle.{
  Cycle, Slot, Stamp, is_blank, pending_in_cycle, count_pending, load_cycle, save_cycle, joined,
  new_cycle, rotates, begin_cycle,
}

-- No page holds the identifier.
abbrev pub IsFresh : Str → List Slot → Type 0
IsFresh id slots = All (λ s. equal s.cycle_id id ≡ false) slots

count_pending-fresh :
    (c : Cycle) (ss : List Slot)
    → is_blank c.cycle_id ≡ false
    → IsFresh c.cycle_id ss
    → count_pending (some c) ss ≡ length ss
unfolding count_pending pending_in_cycle
count_pending-fresh c [] b h = refl
count_pending-fresh c (s ∷ ss) b h = rw (b, h.0) (ap suc (count_pending-fresh c ss b h.1))

pub count_pending-joined :
    (c : Cycle) (fingerprint : Str) (slots ss : List Slot)
    → count_pending (some (joined c fingerprint slots)) ss ≡ count_pending (some c) ss
unfolding count_pending pending_in_cycle
count_pending-joined c fingerprint slots [] = refl
count_pending-joined c fingerprint slots (s ∷ ss) =
    rw (count_pending-joined c fingerprint slots ss) refl

-- With a fresh identifier, the number that a run is told is the number of pages pending in the
-- cycle that it is told, whether the cycle is a first one, is joined or is rotated to.
pub begin_cycle-pending :
    (saves : Bool) (now : Stamp) (file : Option Cycle) (fingerprint : Str) (slots : List Slot)
    (today : Option (ℕ → Bool)) (rotate : Bool)
    → is_blank now.id ≡ false
    → IsFresh now.id slots
    → let b = begin_cycle saves now file fingerprint slots today rotate in
      b.pending ≡ count_pending (some b.cycle) b.slots
unfolding begin_cycle
begin_cycle-pending saves now file fingerprint slots today rotate b h =
    elim (Option-cases (load_cycle file)) [
      | inl n ↦ rw n refl
      | inr (c, e) ↦ elim (Bool-cases (rotates rotate (joined c fingerprint slots) slots)) [
        | inl r ↦
            rw (e, r)
              (sym (count_pending-fresh (new_cycle now fingerprint (length slots)) slots b h))
        | inr k ↦ rw (e, k) refl
      ]
    ]

rotates-pending :
    (rotate : Bool) (c : Cycle) (slots : List Slot)
    → (rotate ≡ false) ⊎ (0 < count_pending (some c) slots)
    → rotates rotate c slots ≡ false
rotates-pending rotate c slots (inl n) = rw n refl
rotates-pending false c slots (inr p) = refl
rotates-pending true c slots (inr p) = ground arith

-- A run that may not rotate, or that finds a page pending, joins the cycle on file: it keeps the
-- cycle's identifier, leaves every page as it is, and is told how many are pending in that cycle.
pub begin_cycle-joins :
    (saves : Bool) (now : Stamp) (file : Option Cycle) (c : Cycle) (fingerprint : Str)
    (slots : List Slot) (today : Option (ℕ → Bool)) (rotate : Bool)
    → load_cycle file ≡ some c
    → (rotate ≡ false) ⊎ (0 < count_pending (some c) slots)
    → let b = begin_cycle saves now file fingerprint slots today rotate in
      (b.cycle.cycle_id ≡ c.cycle_id)
      × (b.slots ≡ slots)
      × (b.pending ≡ count_pending (some c) slots)
unfolding begin_cycle
begin_cycle-joins saves now file c fingerprint slots today rotate e h =
    rw
      (
        e,
        rotates-pending rotate (joined c fingerprint slots) slots
            (rw (count_pending-joined c fingerprint slots slots) h),
      )
      (refl, refl, count_pending-joined c fingerprint slots slots)

load_cycle-nonblank :
    (file : Option Cycle) (c : Cycle) → load_cycle file ≡ some c → is_blank c.cycle_id ≡ false
unfolding load_cycle
load_cycle-nonblank none c e = ground arith
load_cycle-nonblank (some d) c e = elim (Bool-cases (is_blank d.cycle_id)) [
  | inl b ↦ ground arith
  | inr n ↦ ground arith
]

load_cycle-some : (c : Cycle) → is_blank c.cycle_id ≡ false → load_cycle (some c) ≡ some c
unfolding load_cycle
load_cycle-some c b = rw b refl

-- What a run was told is on file, if the write succeeds.
begin_cycle-file :
    (now : Stamp) (file : Option Cycle) (fingerprint : Str) (slots : List Slot)
    (today : Option (ℕ → Bool)) (rotate : Bool)
    → is_blank now.id ≡ false
    → let b = begin_cycle true now file fingerprint slots today rotate in
      load_cycle b.file ≡ some b.cycle
unfolding begin_cycle save_cycle
begin_cycle-file now file fingerprint slots today rotate b = elim (Option-cases (load_cycle file)) [
  | inl n ↦ rw n (load_cycle-some _ b)
  | inr (c, e) ↦ elim (Bool-cases (rotates rotate (joined c fingerprint slots) slots)) [
    | inl r ↦ rw (e, r) (load_cycle-some _ b)
    | inr k ↦ rw (e, k) (load_cycle-some _ (load_cycle-nonblank file c e))
  ]
]

-- After a run whose checkpoint was written, a later run that may not rotate, at whatever time and
-- over whatever pages, resumes the same cycle: it has the same identifier, no page is touched, and
-- the pages it is told of are those pending in the cycle of the first run.
pub begin_cycle-resumes :
    (now : Stamp) (file : Option Cycle) (fingerprint : Str) (slots : List Slot)
    (today : Option (ℕ → Bool)) (rotate : Bool) (saves : Bool) (later : Stamp) (other : Str)
    (ss : List Slot) (today2 : Option (ℕ → Bool))
    → is_blank now.id ≡ false
    → let b = begin_cycle true now file fingerprint slots today rotate in
      let d = begin_cycle saves later b.file other ss today2 false in
      (d.cycle.cycle_id ≡ b.cycle.cycle_id)
      × (d.slots ≡ ss)
      × (d.pending ≡ count_pending (some b.cycle) ss)
begin_cycle-resumes now file fingerprint slots today rotate saves later other ss today2 b =
    begin_cycle-joins saves later _ _ other ss today2 false
      (begin_cycle-file now file fingerprint slots today rotate b) (inl refl)
