-- ===== src/Sweep/Pages.antt =====
-- core/taskpages.go: pages past the end of a section are dropped from a map.
use jacred_go.Base.{
  ℕ, suc, ◌-◌, ◌≤◌, ◌≡◌, refl, Bool, true, false, List, [], ◌∷◌, if◌then◌else◌, length, keep, arith,
  ◌⊎◌, Bool-cases, inl, inr, leb, length-keep-le,
}
use jacred_go.Base.Atoi.{ℤ, pos, negsuc}

-- Go's `<=` on `int`.
abbrev pub leb_int : ℤ → ℤ → Bool
leb_int (pos a) (pos b) = leb a b
leb_int (pos a) (negsuc b) = false
leb_int (negsuc a) (pos b) = true
leb_int (negsuc a) (negsuc b) = leb b a

suc-sub : (n k : ℕ) → k ≤ n → suc n - k ≡ suc (n - k)
suc-sub n k h = omega arith

suc-sub-suc : (n k : ℕ) → suc n - suc k ≡ n - k
suc-sub-suc n k = omega arith

module _ {ℓ} {A : Type ℓ} where
  abbrev is_nil : List A → Bool
  is_nil [] = true
  is_nil (x ∷ xs) = false

  -- `PruneTaskPages`
  unfoldable pub prune_task_pages : List A → (A → ℤ) → ℤ → List A × ℕ
  prune_task_pages tasks page_of max_page =
      if leb_int max_page (pos 0)
      then (tasks, 0)
      else if is_nil tasks
      then (tasks, 0)
      else let kept = keep (λ t. leb_int (page_of t) max_page) tasks in
        (kept, length tasks - length kept)

  -- `PruneTaskPagesIfRead`
  unfoldable pub prune_task_pages_if_read : List A → (A → ℤ) → ℤ → Bool → List A × ℕ
  unfolding prune_task_pages
  prune_task_pages_if_read tasks page_of max_page false = (tasks, 0)
  prune_task_pages_if_read tasks page_of max_page true =
      if leb_int max_page (pos 0) then (tasks, 0) else prune_task_pages tasks page_of max_page

  -- The tasks that a map keeps, and those that go, when it is trimmed to the pages up to a bound.
  pub data Trims (page_of : A → ℤ) (bound : ℤ) : List A → List A → ℕ → Type ℓ where
    nothing_left : Trims page_of bound [] [] 0
    stays :
        {t : A} {ts us : List A} {n : ℕ}
        → leb_int (page_of t) bound ≡ true
        → Trims page_of bound ts us n
        → Trims page_of bound (t ∷ ts) (t ∷ us) n
    goes :
        {t : A} {ts us : List A} {n : ℕ}
        → leb_int (page_of t) bound ≡ false
        → Trims page_of bound ts us n
        → Trims page_of bound (t ∷ ts) us (suc n)

  -- A map after a call: as it was without a page that was read and a bound from 1 on, or trimmed.
  pub data Pruned (page_of : A → ℤ) (bound : ℤ) (read : Bool) (tasks : List A)
      : List A × ℕ → Type ℓ where
    untouched :
        (read ≡ false) ⊎ (leb_int bound (pos 0) ≡ true) → Pruned page_of bound read tasks (tasks, 0)
    trimmed :
        {kept : List A} {gone : ℕ}
        → read ≡ true
        → leb_int bound (pos 0) ≡ false
        → Trims page_of bound tasks kept gone
        → Pruned page_of bound read tasks (kept, gone)

  keep-Trims :
      (page_of : A → ℤ) (bound : ℤ) (ts : List A)
      → let kept = keep (λ t. leb_int (page_of t) bound) ts in
        Trims page_of bound ts kept (length ts - length kept)
  keep-Trims page_of bound [] = nothing_left
  keep-Trims page_of bound (t ∷ ts) = elim (Bool-cases (leb_int (page_of t) bound)) [
    | inl y ↦ rw y (rw (suc-sub-suc (length ts) _) (stays y (keep-Trims page_of bound ts)))
    | inr n ↦ rw n (
        rw (suc-sub (length ts) _ (length-keep-le (λ t. leb_int (page_of t) bound) ts))
          (goes n (keep-Trims page_of bound ts)))
  ]

  trimmed_or_nil :
      (page_of : A → ℤ) (bound : ℤ) (ts : List A)
      → leb_int bound (pos 0) ≡ false
      → let kept = keep (λ t. leb_int (page_of t) bound) ts in
        Pruned page_of bound true ts
          (if is_nil ts then (ts, 0) else (kept, length ts - length kept))
  trimmed_or_nil page_of bound [] n = trimmed refl n nothing_left
  trimmed_or_nil page_of bound (t ∷ ts) n = trimmed refl n (keep-Trims page_of bound (t ∷ ts))

  -- Every call leaves the map untouched when the page was not a listing or the bound is not positive;
  -- otherwise the map keeps exactly the tasks whose page is within the bound, in their order, and the
  -- number returned is how many went.
  pub prune_task_pages_if_read-Pruned :
      (tasks : List A) (page_of : A → ℤ) (bound : ℤ) (read : Bool)
      → Pruned page_of bound read tasks (prune_task_pages_if_read tasks page_of bound read)
  unfolding prune_task_pages_if_read prune_task_pages
  prune_task_pages_if_read-Pruned tasks page_of bound false = untouched (inl refl)
  prune_task_pages_if_read-Pruned tasks page_of bound true =
      elim (Bool-cases (leb_int bound (pos 0))) [
        | inl y ↦ rw y (untouched (inr y))
        | inr n ↦ rw n (trimmed_or_nil page_of bound tasks n)
      ]
