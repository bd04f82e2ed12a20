-- ===== src/Cron/Marks.antt =====
-- The loop of `fillField` sets exactly the bits of its arithmetic progression.
use native.Mathlib.Nat.{mod-eq_of_lt, zero-mod, sub-add-eq}
use jacred_go.Base.{
  ℕ, zero, suc, ◌+◌, ◌-◌, ◌%◌, ◌≤◌, ◌<◌, ◌≡◌, refl, ap, ◌∙◌, Bool, ◌&&◌, ◌||◌, List, [], ◌∷◌, arith,
  leb, ◌==◌, length, leb→le, le→leb, Bool-cases, inl, inr,
}
use jacred_go.Base.Atoi.{max_int_suc}
use jacred_go.Cron.Field.{Result, done, fail, panic, out_of_fuel, bit, set_bit, Element, mark}

-- `x` is reached from `v` in steps, no further than `hi`.
abbrev pub on : ℕ → ℕ → ℕ → ℕ → Bool
on v hi step x = leb v x && leb x hi && (x - v) % step == 0

pub length-set_bit : (bits : List Bool) (i : ℕ) → length (set_bit bits i) ≡ length bits
length-set_bit [] i = refl
length-set_bit (b ∷ bs) zero = refl
length-set_bit (b ∷ bs) (suc i) = ap suc (length-set_bit bs i)

bit-set_bit :
    (bits : List Bool) (i k : ℕ) → i < length bits → bit (set_bit bits i) k ≡ bit bits k || i == k
bit-set_bit [] i k h = absurd (omega arith)
bit-set_bit (b ∷ bs) zero zero h = ground arith
bit-set_bit (b ∷ bs) zero (suc k) h = ground arith
bit-set_bit (b ∷ bs) (suc i) zero h = ground arith
bit-set_bit (b ∷ bs) (suc i) (suc k) h = ground (arith, bit-set_bit bs i k)

-- A multiple of the step further on.
mod-sub_step : (d step : ℕ) → step ≤ d → d % step ≡ (d - step) % step
mod-sub_step d step h = grind arith

on_step :
    (v hi step x : ℕ) → 0 < step → v ≤ hi → on v hi step x ≡ (v == x) || on (v + step) hi step x
on_step v hi step x pos h = ground (
  arith,
  zero-mod step,
  mod-eq_of_lt {n = x - v} {m = step},
  mod-sub_step (x - v) step,
  sub-add-eq x v step,
)

-- A result has the old bits and those of the progression, and as many as before; and the loop
-- panics only where its variable may wrap.
abbrev pub Marks : ℕ → ℕ → ℕ → ℕ → List Bool → Result (List Bool) → Type 0
Marks base v hi step bits (done bits') =
    (length bits' ≡ length bits)
    × ((k : ℕ) → k < length bits → bit bits' k ≡ bit bits k || on v hi step (base + k))
Marks base v hi step bits panic = max_int_suc ≤ hi + step
Marks base v hi step bits _ = ⊥

-- The progression from `v` on is `v` and the progression from its next value on.
Marks-step :
    (base v hi step : ℕ) (bits : List Bool) (r : Result (List Bool))
    → 0 < step
    → base ≤ v
    → v ≤ hi
    → hi < base + length bits
    → Marks base (v + step) hi step (set_bit bits (v - base)) r
    → Marks base v hi step bits r
Marks-step base v hi step bits (done bits') pos low h top m = (
  m.0 ∙ length-set_bit bits (v - base),
  λ k inside. m.1 k (omega (arith, length-set_bit bits (v - base))) ∙ bit_turn k,
)
  where
    bit_turn :
        (k : ℕ)
        → bit (set_bit bits (v - base)) k || on (v + step) hi step (base + k)
          ≡ bit bits k || on v hi step (base + k)
    bit_turn k = ground (arith, bit-set_bit bits (v - base) k, on_step v hi step (base + k))
Marks-step base v hi step bits (fail x) pos low h top m = m
Marks-step base v hi step bits panic pos low h top m = m
Marks-step base v hi step bits out_of_fuel pos low h top m = m

pub mark-Marks :
    (f base : ℕ) (e : Element) (v : ℕ) (bits : List Bool)
    → 0 < e.step
    → base ≤ v
    → e.hi < base + length bits
    → e.hi + 2 ≤ v + f
    → 0 < f
    → Marks base v e.hi e.step bits (mark f base e v bits)
unfolding mark
mark-Marks zero base e v bits pos low top fuel some_fuel = absurd (omega arith)
mark-Marks (suc f) base e v bits pos low top fuel some_fuel = elim (Bool-cases (leb v e.hi)) [
  | inr past ↦ rw (past, mark) (refl, λ k h. ground arith)
  | inl inside ↦
      rw (inside, mark)
        (elim (Bool-cases (leb max_int_suc (v + e.step))) [
          | inl wraps ↦ rw wraps (ground arith)
          | inr fits ↦ rw fits (
              Marks-step base v e.hi e.step bits
                (mark f base e (v + e.step) (set_bit bits (v - base))) pos low (leb→le _ _ inside)
                top
                (mark-Marks f base e (v + e.step) (set_bit bits (v - base)) pos (omega arith)
                  (omega (arith, length-set_bit bits (v - base))) (ground arith) (ground arith)))
        ])
]

-- On an element whose first value is not past its last, a step that takes the loop's variable past the
-- largest `int` makes the marking of bits panic, with fuel for one turn.
pub mark_wraps :
    (f base : ℕ) (e : Element) (bits : List Bool)
    → e.lo ≤ e.hi
    → max_int_suc ≤ e.lo + e.step
    → mark (suc f) base e e.lo bits ≡ panic
unfolding mark
mark_wraps f base e bits h k =
    rw (le→leb e.lo e.hi h, mark) (rw (le→leb max_int_suc (e.lo + e.step) k))
