-- ===== src/Cron/Field.antt =====
-- background/scheduler.go: `fillField`, which reads one field of a cron schedule into bits.
use jacred_go.Base.{◌≡◌, refl}
use jacred_go.Base.{
  ℕ, zero, suc, ◌+◌, ◌-◌, Bool, true, false, ◌||◌, List, [], ◌∷◌, Option, none, some, Str, codes,
  equal, ltb, leb, ◌==◌, if◌then◌else◌, length,
}
use jacred_go.Base.Split.{split_at}
use jacred_go.Base.Trim.{trim_space, is_empty}
use jacred_go.Base.Atoi.{ℤ, pos, negsuc, atoi, max_int_suc}

pub data FieldError : Type 0 where
  empty_element bad_step bad_range bad_value out_of_range wrong_count : FieldError

-- `panic` is an index of Go out of range; `out_of_fuel` is the model's alone.
pub data Result {ℓ} (A : Type ℓ) : Type ℓ where
  done : A → Result A
  fail : FieldError → Result A
  panic out_of_fuel : Result A

infixl 5 ◌>>=◌
abbrev pub ◌>>=◌ {ℓ κ} : {A : Type ℓ} {B : Type κ} → Result A → (A → Result B) → Result B
done a >>= f = f a
fail e >>= f = fail e
panic >>= f = panic
out_of_fuel >>= f = out_of_fuel

pub done-injective {ℓ} : {A : Type ℓ} (a b : A) → done a ≡ done b → a ≡ b
done-injective a b h = cc

-- A field of a bit array, and a write; out of range neither is reached.
abbrev pub bit : List Bool → ℕ → Bool
bit [] i = false
bit (b ∷ bs) zero = b
bit (b ∷ bs) (suc i) = bit bs i

abbrev pub set_bit : List Bool → ℕ → List Bool
set_bit [] i = []
set_bit (b ∷ bs) zero = true ∷ bs
set_bit (b ∷ bs) (suc i) = b ∷ set_bit bs i

-- What stands before and behind the first `sep`: `strings.Index` and the two slices at it.
unfoldable pub cut : ℕ → Str → Option (Str × Str)
cut sep [] = none
cut sep (c ∷ s) =
    let rest = cut sep s in
    if c == sep then some ([], s) else elim rest [ none ↦ none | some (a, b) ↦ some (c ∷ a, b) ]

-- One element of a field: the values from `lo` on to `hi`, each `step`th of them.
pub record Element : Type 0 where
  pub lo : ℕ
  pub hi : ℕ
  pub step : ℕ

-- A step is a positive number.
abbrev pub step_of : Option ℤ → Option ℕ
step_of none = none
step_of (some (pos zero)) = none
step_of (some (pos (suc n))) = some (suc n)
step_of (some (negsuc n)) = none

-- The part without its step, and the step.
unfoldable pub take_step : Str → Result (Str × ℕ)
unfolding cut atoi
take_step part = elim (cut b'/' part) [
  | none ↦ done (part, 1)
  | some (head, text) ↦ elim (step_of (atoi text)) [
    | none ↦ fail bad_step
    | some n ↦ done (head, n)
  ]
]

-- `lo < base || hi > base+len(bits)-1 || lo > hi`
abbrev pub check_range : ℕ → ℕ → ℕ → ℤ → ℤ → Result Element
check_range base size step (pos lo) (pos hi) =
    if ltb lo base || leb (base + size) hi || ltb hi lo
    then fail out_of_range
    else done (record { lo = lo; hi = hi; step = step })
check_range base size step _ _ = fail out_of_range

-- The bounds of a part that is no "*".
abbrev pub range_ends : Option ℤ → Option ℤ → Result (ℤ × ℤ)
range_ends (some a) (some b) = done (a, b)
range_ends _ _ = fail bad_range

-- A bare value ends at itself, or at the field's end if it has a step other than 1.
abbrev pub value_ends : ℕ → ℕ → ℕ → Option ℤ → Result (ℤ × ℤ)
value_ends base size step none = fail bad_value
value_ends base size step (some n) = done (n, if step == 1 then n else pos (base + size - 1))

unfoldable pub ends_of : ℕ → ℕ → Str → ℕ → Result (ℤ × ℤ)
unfolding cut atoi trim_space
ends_of base size part step =
    if equal part (codes "*")
    then done (pos base, pos (base + size - 1))
    else elim (cut b'-' part) [
      | some (a, b) ↦ range_ends (atoi (trim_space a)) (atoi (trim_space b))
      | none ↦ value_ends base size step (atoi part)
    ]

-- One turn of the loop over the parts, up to the bits that it sets.
unfoldable pub parse_part : ℕ → ℕ → Str → Result Element
unfolding trim_space take_step ends_of
parse_part base size raw =
    let part = trim_space raw in
    if is_empty part
    then fail empty_element
    else take_step part >>= λ p.
        ends_of base size p.0 p.1 >>= λ e. check_range base size p.1 e.0 e.1

-- `for v := lo; v <= hi; v += step { bits[v-base] = true }`. Where `v += step` wraps, `v` is negative:
-- the loop goes on, and the next index is out of range.
unfoldable pub mark : ℕ → ℕ → Element → ℕ → List Bool → Result (List Bool)
mark zero base e v bits = out_of_fuel
mark (suc f) base e v bits = elim (leb v e.hi) [
  | false ↦ done bits
  | true ↦ elim (leb max_int_suc (v + e.step)) [
    | true ↦ panic
    | false ↦ mark f base e (v + e.step) (set_bit bits (v - base))
  ]
]

-- The loop over the parts; each turn counts at least one value on, so `hi - lo + 2` turns are enough.
unfoldable pub fill_parts : ℕ → List Str → List Bool → Result (List Bool)
unfolding parse_part mark
fill_parts base [] bits = done bits
fill_parts base (part ∷ rest) bits = parse_part base (length bits) part >>= λ e.
    mark (e.hi - e.lo + 2) base e e.lo bits >>= λ bits'. fill_parts base rest bits'

unfoldable pub fill_field : ℕ → Str → List Bool → Result (List Bool)
unfolding fill_parts split_at
fill_field base field bits = fill_parts base (split_at b',' field) bits

-- Inversion of a successful bind.
pub >>=-eq-done {ℓ κ} :
    {A : Type ℓ} {B : Type κ} (m : Result A) (f : A → Result B) {b : B}
    → (m >>= f) ≡ done b
    → (a : A) × (m ≡ done a) × (f a ≡ done b)
>>=-eq-done (done a) f h = (a, refl, h)
>>=-eq-done (fail e) f h = cc
>>=-eq-done panic f h = cc
>>=-eq-done out_of_fuel f h = cc
