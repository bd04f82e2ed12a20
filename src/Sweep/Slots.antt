-- ===== src/Sweep/Slots.antt =====
-- core/parseallcycle.go: the pages of a task map in order, with the keys that its fingerprint is taken over.
-- A task embeds its slot, so a slot is given as its task; page numbers are not negative.
use jacred_go.Base.{
  ℕ, ◌≡◌, refl, ◌∙◌, ap, false, List, [], ◌∷◌, ◌++◌, map, Str, equal, leb, ◌==◌, if◌then◌else◌,
  keep, Bool-cases, inl, inr, arith, ◌≤◌, All, leb→le,
}
use jacred_go.Base.Sort.{sort_strings}
use jacred_go.Bencode.Decimal.{to_decimal}

module _ {ℓ} {T : Type ℓ} (page_of : T → ℕ) where
  unfoldable pub insert_page : T → List T → List T
  insert_page t [] = t ∷ []
  insert_page t (u ∷ us) =
      let rest = insert_page t us in if leb (page_of t) (page_of u) then t ∷ u ∷ us else u ∷ rest

  -- `sort.SliceStable` by page.
  unfoldable pub by_page : List T → List T
  unfolding insert_page
  by_page [] = []
  by_page (t ∷ ts) = insert_page t (by_page ts)

  -- `CycleSlotsFromSlice`
  unfoldable pub cycle_slots_from_slice : List T → List T × List Str
  unfolding by_page to_decimal
  cycle_slots_from_slice list = (by_page list, map (λ t. to_decimal (page_of t)) (by_page list))

  -- `m[cat]`, and no task on a missing key.
  abbrev pub tasks_at {κ} : {A : Type κ} → A → Str → List (Str × A) → A
  tasks_at d k [] = d
  tasks_at d k ((j, v) ∷ m) = if equal j k then v else tasks_at d k m

  abbrev pub prefixed : Str → List Str → List Str
  prefixed cat keys = map (λ k. cat ++ (b'/' ∷ k)) keys

  abbrev categories {κ} : {A : Type κ} → List (Str × A) → List Str
  categories m = sort_strings (map (λ e. e.0) m)

  abbrev from_categories : List (Str × List T) → List Str → List T × List Str
  from_categories m [] = ([], [])
  from_categories m (cat ∷ cats) =
      let (slots, keys) = cycle_slots_from_slice (tasks_at [] cat m) in
      let (more, others) = from_categories m cats in (slots ++ more, prefixed cat keys ++ others)

  -- `CycleSlotsFromMap`, on the entries of the map in the order of an iteration.
  unfoldable pub cycle_slots_from_map : List (Str × List T) → List T × List Str
  unfolding sort_strings cycle_slots_from_slice
  cycle_slots_from_map m = from_categories m (categories m)

  abbrev from_outer : List (Str × List (Str × List T)) → List Str → List T × List Str
  from_outer m [] = ([], [])
  from_outer m (cat ∷ cats) =
      let (slots, keys) = cycle_slots_from_map (tasks_at [] cat m) in
      let (more, others) = from_outer m cats in (slots ++ more, prefixed cat keys ++ others)

  -- `CycleSlotsFromNestedMap`
  unfoldable pub cycle_slots_from_nested_map : List (Str × List (Str × List T)) → List T × List Str
  unfolding sort_strings cycle_slots_from_map
  cycle_slots_from_nested_map m = from_outer m (categories m)

  -- The tasks of one page, in order.
  abbrev pub on_page : ℕ → List T → List T
  on_page n ts = keep (λ t. page_of t == n) ts

  -- No page stands behind a later one.
  abbrev pub IsByPage : List T → Type 0
  IsByPage [] = Unit
  IsByPage (t ∷ ts) = All (λ u. page_of t ≤ page_of u) ts × IsByPage ts

  on_page-insert_page :
      (n : ℕ) (t : T) (us : List T) → on_page n (insert_page t us) ≡ on_page n (t ∷ us)
  unfolding insert_page
  on_page-insert_page n t [] = refl
  on_page-insert_page n t (u ∷ us) = elim (Bool-cases (leb (page_of t) (page_of u))) [
    | inl y ↦ rw y refl
    | inr d ↦ rw d (behind d (on_page-insert_page n t us))
  ]
    where
      behind :
          leb (page_of t) (page_of u) ≡ false
          → on_page n (insert_page t us) ≡ on_page n (t ∷ us)
          → on_page n (u ∷ insert_page t us) ≡ on_page n (t ∷ u ∷ us)
      behind d g = elim (Bool-cases (page_of u == n)) [
        | inl y ↦
            let z : (page_of t == n) ≡ false = ground arith in
            rw (y, z) (ap (◌∷◌ u) (g ∙ rw z refl))
        | inr k ↦ rw k g
      ]

  All-insert_page :
      (n : ℕ) (t : T) (us : List T)
      → n ≤ page_of t
      → All (λ u. n ≤ page_of u) us
      → All (λ u. n ≤ page_of u) (insert_page t us)
  unfolding insert_page
  All-insert_page n t [] h a = (h, tt)
  All-insert_page n t (u ∷ us) h a = elim (Bool-cases (leb (page_of t) (page_of u))) [
    | inl y ↦ rw y (h, a)
    | inr d ↦ rw d (a.0, All-insert_page n t us h a.1)
  ]

  All-le :
      (n k : ℕ) (us : List T) → n ≤ k → All (λ u. k ≤ page_of u) us → All (λ u. n ≤ page_of u) us
  All-le n k [] h a = tt
  All-le n k (u ∷ us) h a = (omega (arith, h, a.0), All-le n k us h a.1)

  insert_page-IsByPage : (t : T) (us : List T) → IsByPage us → IsByPage (insert_page t us)
  unfolding insert_page
  insert_page-IsByPage t [] b = (tt, tt)
  insert_page-IsByPage t (u ∷ us) b = elim (Bool-cases (leb (page_of t) (page_of u))) [
    | inl y ↦
        let h = leb→le (page_of t) (page_of u) y in
        rw y ((h, All-le (page_of t) (page_of u) us h b.0), b)
    | inr d ↦
        rw d (All-insert_page (page_of u) t us (ground arith) b.0, insert_page-IsByPage t us b.1)
  ]

  by_page-IsByPage : (ts : List T) → IsByPage (by_page ts)
  unfolding by_page
  by_page-IsByPage [] = tt
  by_page-IsByPage (t ∷ ts) = insert_page-IsByPage t (by_page ts) (by_page-IsByPage ts)

  on_page-by_page : (n : ℕ) (ts : List T) → on_page n (by_page ts) ≡ on_page n ts
  unfolding by_page
  on_page-by_page n [] = refl
  on_page-by_page n (t ∷ ts) =
      on_page-insert_page n t (by_page ts)
      ∙ ap (λ us. if page_of t == n then t ∷ us else us) (on_page-by_page n ts)

  -- The slots of a list stand by page, the tasks of each page are all there in the order that they had,
  -- and the keys are the numbers of the slots' pages, slot by slot.
  pub cycle_slots_from_slice-IsByPage :
      (list : List T)
      → let r = cycle_slots_from_slice list in
        IsByPage r.0
        × ((n : ℕ) → on_page n r.0 ≡ on_page n list)
        × (r.1 ≡ map (λ t. to_decimal (page_of t)) r.0)
  unfolding cycle_slots_from_slice
  cycle_slots_from_slice-IsByPage list = (by_page-IsByPage list, λ n. on_page-by_page n list, refl)
