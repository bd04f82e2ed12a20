-- ===== src/Cron/Elements.antt =====
-- What a field of a cron schedule selects, and that `fillField` sets exactly that.
use mathlib.Core.Path.{subst}
use jacred_go.Base.{
  ℕ, ◌+◌, ◌-◌, ◌≤◌, ◌<◌, ◌≡◌, refl, ◌∙◌, Bool, false, ◌||◌, List, [], ◌∷◌, Str, Option, none, some,
  arith, length, Bool-cases, inl, inr, ◌⊎◌, equal, codes,
}
use jacred_go.Base.Atoi.{max_int_suc, ℤ, pos, negsuc, atoi}
use jacred_go.Base.Trim.{trim_space, is_empty}
use jacred_go.Base.Split.{split_at}
use jacred_go.Cron.Field.{
  Result, done, fail, panic, out_of_fuel, ◌>>=◌, bit, Element, check_range, take_step, ends_of,
  range_ends, value_ends, cut, parse_part, mark, fill_parts, fill_field,
}
use jacred_go.Cron.Marks.{on, Marks, mark-Marks}

pub record IsWithin (base size : ℕ) (e : Element) : Type 0 where
  pub low : base ≤ e.lo
  pub ordered : e.lo ≤ e.hi
  pub top : e.hi < base + size
  pub positive : 0 < e.step

abbrev WithinIfDone : ℕ → ℕ → Result Element → Type 0
WithinIfDone base size (done e) = IsWithin base size e
WithinIfDone base size (fail x) = Unit
WithinIfDone base size _ = ⊥

check_range-IsWithin :
    (base size step : ℕ) (lo hi : ℤ)
    → 0 < step
    → WithinIfDone base size (check_range base size step lo hi)
check_range-IsWithin base size step (pos l) (pos h) p = ground arith
check_range-IsWithin base size step (pos l) (negsuc h) p = tt
check_range-IsWithin base size step (negsuc l) (pos h) p = tt
check_range-IsWithin base size step (negsuc l) (negsuc h) p = tt

abbrev PositiveIfDone : Result (Str × ℕ) → Type 0
PositiveIfDone (done p) = 0 < p.1
PositiveIfDone (fail x) = Unit
PositiveIfDone _ = ⊥

take_step_pos : (part : Str) → PositiveIfDone (take_step part)
unfolding take_step
take_step_pos part = ground arith

abbrev EndsIfAny : Result (ℤ × ℤ) → Type 0
EndsIfAny (done e) = Unit
EndsIfAny (fail x) = Unit
EndsIfAny _ = ⊥

range_ends_any : (a b : Option ℤ) → EndsIfAny (range_ends a b)
range_ends_any none b = tt
range_ends_any (some a) none = tt
range_ends_any (some a) (some b) = tt

value_ends_any : (base size step : ℕ) (n : Option ℤ) → EndsIfAny (value_ends base size step n)
value_ends_any base size step none = tt
value_ends_any base size step (some n) = tt

ends_of_any : (base size : ℕ) (part : Str) (step : ℕ) → EndsIfAny (ends_of base size part step)
unfolding ends_of
ends_of_any base size part step = elim (Bool-cases (equal part (codes "*"))) [
  | inl star ↦ rw star tt
  | inr other ↦ rw other (at_dash (cut b'-' part))
]
  where
    at_dash :
        (o : Option (Str × Str))
        → EndsIfAny (elim o [
          | some (a, b) ↦ range_ends (atoi (trim_space a)) (atoi (trim_space b))
          | none ↦ value_ends base size step (atoi part)
        ])
    at_dash none = value_ends_any base size step (atoi part)
    at_dash (some (a, b)) = range_ends_any (atoi (trim_space a)) (atoi (trim_space b))

checked-IsWithin :
    (base size step : ℕ) (r : Result (ℤ × ℤ))
    → 0 < step
    → EndsIfAny r
    → WithinIfDone base size (r >>= λ e. check_range base size step e.0 e.1)
checked-IsWithin base size step (done e) p h = check_range-IsWithin base size step e.0 e.1 p
checked-IsWithin base size step (fail x) p h = tt
checked-IsWithin base size step panic p h = h
checked-IsWithin base size step out_of_fuel p h = h

stepped-IsWithin :
    (base size : ℕ) (r : Result (Str × ℕ))
    → PositiveIfDone r
    → WithinIfDone base size
        (r >>= λ p. ends_of base size p.0 p.1 >>= λ e. check_range base size p.1 e.0 e.1)
stepped-IsWithin base size (done p) h =
    checked-IsWithin base size p.1 (ends_of base size p.0 p.1) h (ends_of_any base size p.0 p.1)
stepped-IsWithin base size (fail x) h = tt
stepped-IsWithin base size panic h = h
stepped-IsWithin base size out_of_fuel h = h

-- An element that a part gives lies inside the field's range, and has a positive step.
pub parse_part-IsWithin :
    (base size : ℕ) (raw : Str) → WithinIfDone base size (parse_part base size raw)
unfolding parse_part
parse_part-IsWithin base size raw = elim (Bool-cases (is_empty (trim_space raw))) [
  | inl e ↦ rw e tt
  | inr n ↦
      rw n
        (stepped-IsWithin base size (take_step (trim_space raw)) (take_step_pos (trim_space raw)))
]

-- The elements of a field, or the first error.
pub elements : ℕ → ℕ → List Str → Result (List Element)
elements base size [] = done []
elements base size (part ∷ rest) =
    parse_part base size part >>= λ e. elements base size rest >>= λ es. done (e ∷ es)

-- Some element has the value.
abbrev pub selected : List Element → ℕ → Bool
selected [] x = false
selected (e ∷ es) x = on e.lo e.hi e.step x || selected es x

-- Some part has a step that takes the loop's variable past the largest `int`.
abbrev pub HasOversizedStep : ℕ → ℕ → List Str → Type 0
HasOversizedStep base size [] = ⊥
HasOversizedStep base size (part ∷ rest) =
    ((e : Element) × (parse_part base size part ≡ done e) × (max_int_suc ≤ e.hi + e.step))
    ⊎ HasOversizedStep base size rest

-- What `fillField` may return for the parts of a field, over `bits`.
abbrev pub Fills : ℕ → List Bool → List Str → Result (List Bool) → Type 0
Fills base bits parts (done bits') =
    (es : List Element) × (elements base (length bits) parts ≡ done es)
    × (length bits' ≡ length bits)
    × ((k : ℕ) → k < length bits → bit bits' k ≡ bit bits k || selected es (base + k))
Fills base bits parts (fail x) = elements base (length bits) parts ≡ fail x
Fills base bits parts panic = HasOversizedStep base (length bits) parts
Fills base bits parts out_of_fuel = ⊥

-- Behind one part: its element, its bits, then the rest.
Fills-cons :
    (base : ℕ) (bits bits' : List Bool) (part : Str) (rest : List Str) (e : Element)
    (r : Result (List Bool))
    → parse_part base (length bits) part ≡ done e
    → length bits' ≡ length bits
    → ((k : ℕ) → k < length bits → bit bits' k ≡ bit bits k || on e.lo e.hi e.step (base + k))
    → Fills base bits' rest r
    → Fills base bits (part ∷ rest) r
unfolding elements
Fills-cons base bits bits' part rest e (done b) p n h (es, q, m, g) =
    (e ∷ es, rw p (rw (rw n at q)), m ∙ n, λ k inside. ground (arith, g k, h k))
Fills-cons base bits bits' part rest e (fail x) p n h f = rw p (rw (rw n at f))
Fills-cons base bits bits' part rest e panic p n h f =
    inr (subst (λ s. HasOversizedStep base s rest) n f)
Fills-cons base bits bits' part rest e out_of_fuel p n h f = f

-- One part whose element is known.
fill_part-Fills :
    (base : ℕ) (bits : List Bool) (part : Str) (rest : List Str) (e : Element)
    (m : Result (List Bool))
    → parse_part base (length bits) part ≡ done e
    → Marks base e.lo e.hi e.step bits m
    → ((bits' : List Bool) → Fills base bits' rest (fill_parts base rest bits'))
    → Fills base bits (part ∷ rest) (m >>= fill_parts base rest)
fill_part-Fills base bits part rest e (done bits') p marks ih =
    Fills-cons base bits bits' part rest e (fill_parts base rest bits') p marks.0 marks.1 (ih bits')
fill_part-Fills base bits part rest e (fail x) p marks ih = absurd marks
fill_part-Fills base bits part rest e panic p marks ih = inl (e, p, marks)
fill_part-Fills base bits part rest e out_of_fuel p marks ih = absurd marks

fill_parts-Fills :
    (base : ℕ) (parts : List Str) (bits : List Bool)
    → Fills base bits parts (fill_parts base parts bits)
unfolding fill_parts elements
fill_parts-Fills base [] bits = ([], refl, refl, λ k inside. ground arith)
fill_parts-Fills base (part ∷ rest) bits =
    go (parse_part base (length bits) part) refl (parse_part-IsWithin base (length bits) part)
      (fill_parts-Fills base rest)
  where
    go :
        (r : Result Element)
        → parse_part base (length bits) part ≡ r
        → WithinIfDone base (length bits) r
        → ((bits' : List Bool) → Fills base bits' rest (fill_parts base rest bits'))
        → Fills base bits (part ∷ rest) (
            r >>= λ e.
            mark (e.hi - e.lo + 2) base e e.lo bits >>= λ bits'. fill_parts base rest bits')
    go (done e) p w ih =
        fill_part-Fills base bits part rest e (mark (e.hi - e.lo + 2) base e e.lo bits) p
          (mark-Marks (e.hi - e.lo + 2) base e e.lo bits w.positive w.low w.top (omega arith)
            (omega arith))
          ih
    go (fail x) p w ih = rw p
    go panic p w ih = absurd w
    go out_of_fuel p w ih = absurd w

-- `fillField` on the parts of a field. It ends; its result has the old bits and exactly those that the
-- field's elements select; an error is that of the first part with one; and it panics only where
-- some part has an oversized step.
pub fill_field-Fills :
    (base : ℕ) (field : Str) (bits : List Bool)
    → Fills base bits (split_at b',' field) (fill_field base field bits)
unfolding fill_field
fill_field-Fills base field bits = fill_parts-Fills base (split_at b',' field) bits
