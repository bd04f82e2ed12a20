-- ===== src/Bencode/MetaTotal.antt =====
-- The loops of `parseTorrentMeta` end within their fuel on any input.
use jacred_go.Base.{
  ℕ, zero, suc, ◌<◌, ◌≡◌, ◌≢◌, Bool, true, false, [], ◌∷◌, ◌++◌, Str, arith, ◌==◌, length, List,
  Bool-cases, equal, codes, inl, inr,
}
use jacred_go.Bencode.Cursor.{
  Outcome, done, fail, panic, out_of_fuel, ◌>>=◌, Cursor, parse_bytes, at_close, peek, advance,
}
use jacred_go.Bencode.Skip.{token, Token, skip_value, close}
use jacred_go.Bencode.Total.{
  Ahead, EndsAhead, EndsAhead-bind, EndsAhead-weaken, parse_bytes-EndsAhead, close-EndsAhead,
  advance-Ahead, skip_value-EndsAhead,
}
use jacred_go.Bencode.Meta.{
  read_tier, read_tiers, parse_announce_list, under_key, find_name, read_root, Gathered, RootKey,
  announce, announce_list, info, other, root_key, read_entry, finish, parse_torrent_meta,
  name_from_info,
}

-- Behind a loop the result is paired with the cursor.
closed {ℓ} :
    {A : Type ℓ} (a : A) (c : Cursor) (o : Outcome Cursor)
    → EndsAhead (λ d. d) c o
    → EndsAhead (λ (r : A × Cursor). r.1) c (o >>= λ d. done (a, d))
closed a c (done d) h = h
closed a c (fail e) h = tt
closed a c panic h = tt
closed a c out_of_fuel h = h

read_tier-EndsAhead :
    (f : ℕ) (out : List Str) (c : Cursor)
    → length c.rest < f
    → EndsAhead (λ r. r.1) c (read_tier f out c)
unfolding read_tier
read_tier-EndsAhead zero out c h = absurd (omega arith)
read_tier-EndsAhead (suc f) out c h = elim (Bool-cases (at_close c.rest)) [
  | inl e ↦ rw (e, read_tier) (closed out c (close _ c) (close-EndsAhead _ c))
  | inr ne ↦
      rw (ne, read_tier)
        (EndsAhead-bind (λ r. r.1) (λ r. r.1) c (parse_bytes c)
          (λ r. read_tier f (out ++ r.0 ∷ []) r.1) (parse_bytes-EndsAhead c)
          (λ r a. read_tier-EndsAhead f _ r.1 (omega arith)))
]

list_not_at_end : (s : Str) → (peek s == b'l') ≡ true → token s ≢ Token.eof
list_not_at_end [] h = cc
list_not_at_end (b ∷ s) h = ground arith

read_tiers-EndsAhead :
    (f : ℕ) (out : List Str) (c : Cursor)
    → length c.rest < f
    → EndsAhead (λ r. r.1) c (read_tiers f out c)
unfolding read_tiers
read_tiers-EndsAhead zero out c h = absurd (omega arith)
read_tiers-EndsAhead (suc f) out c h = elim (Bool-cases (at_close c.rest)) [
  | inl e ↦ rw (e, read_tiers) (closed out c (close _ c) (close-EndsAhead _ c))
  | inr ne ↦ elim (Bool-cases (peek c.rest == b'l')) [
    | inl l ↦
        let a = advance-Ahead c (list_not_at_end c.rest l) in
        rw (ne, read_tiers)
          (rw l (
            EndsAhead-weaken _ (read_tier (suc f) out (advance c) >>= λ r. read_tiers f r.0 r.1) a (
              EndsAhead-bind (λ r. r.1) (λ r. r.1) (advance c) (read_tier (suc f) out (advance c))
                (λ r. read_tiers f r.0 r.1)
                (read_tier-EndsAhead (suc f) out (advance c) (omega arith))
                (λ r b. read_tiers-EndsAhead f _ r.1 (omega arith)))))
    | inr nl ↦
        rw (ne, read_tiers)
          (rw nl (
            EndsAhead-bind (λ r. r.1) (λ r. r.1) c (parse_bytes c)
              (λ r. read_tiers f (out ++ r.0 ∷ []) r.1) (parse_bytes-EndsAhead c)
              (λ r a. read_tiers-EndsAhead f _ r.1 (omega arith))))
  ]
]

parse_announce_list-EndsAhead : (c : Cursor) → EndsAhead (λ r. r.1) c (parse_announce_list c)
unfolding parse_announce_list
parse_announce_list-EndsAhead c = elim (Bool-cases (peek c.rest == b'l')) [
  | inl l ↦
      let a = advance-Ahead c (list_not_at_end c.rest l) in
      rw l (
        EndsAhead-weaken _ (read_tiers (suc (length c.rest)) [] (advance c)) a
          (read_tiers-EndsAhead (suc (length c.rest)) [] (advance c) (omega arith)))
  | inr nl ↦ rw nl (closed [] c (skip_value c) (skip_value-EndsAhead c))
]

-- Sequencing, where the result holds no cursor.
Ends-bind {ℓ κ} :
    {A : Type ℓ} {B : Type κ} (at : A → Cursor) (c : Cursor) (m : Outcome A) (k : A → Outcome B)
    → EndsAhead at c m
    → ((a : A) → Ahead c (at a) → k a ≢ out_of_fuel)
    → (m >>= k) ≢ out_of_fuel
Ends-bind at c (done a) k h g = g a h
Ends-bind at c (fail e) k h g = cc
Ends-bind at c panic k h g = cc
Ends-bind at c out_of_fuel k h g = absurd h

under_key-ne-out_of_fuel :
    (b : Bool) (next : Cursor → Outcome Str) (c : Cursor)
    → ((d : Cursor) → Ahead c d → next d ≢ out_of_fuel)
    → under_key b next c ≢ out_of_fuel
unfolding under_key
under_key-ne-out_of_fuel true next c h =
    Ends-bind (λ r. r.1) c (parse_bytes c) (λ v. done v.0) (parse_bytes-EndsAhead c) (λ v a. cc)
under_key-ne-out_of_fuel false next c h =
    Ends-bind (λ d. d) c (skip_value c) next (skip_value-EndsAhead c) h

find_name-ne-out_of_fuel : (f : ℕ) (c : Cursor) → length c.rest < f → find_name f c ≢ out_of_fuel
unfolding find_name
find_name-ne-out_of_fuel zero c h = absurd (omega arith)
find_name-ne-out_of_fuel (suc f) c h = elim (Bool-cases (at_close c.rest)) [
  | inl e ↦ rw (e, find_name) (cc)
  | inr ne ↦
      rw (ne, find_name)
        (Ends-bind (λ r. r.1) c (parse_bytes c)
          (λ r. under_key (equal r.0 (codes "name")) (find_name f) r.1) (parse_bytes-EndsAhead c)
          (λ r a.
            under_key-ne-out_of_fuel (equal r.0 (codes "name")) (find_name f) r.1
              (λ d b. find_name-ne-out_of_fuel f d (omega arith))))
]

name_from_info-ne-out_of_fuel : (s : Str) → name_from_info s ≢ out_of_fuel
unfolding name_from_info
name_from_info-ne-out_of_fuel [] = cc
name_from_info-ne-out_of_fuel (b ∷ s) =
    ground (arith, find_name-ne-out_of_fuel (suc (length (b ∷ s))) (record { i = 1; rest = s }))

-- The switch on a key, where the further turns end.
read_entry-EndsAhead :
    (next : Gathered → Cursor → Outcome (Gathered × Cursor)) (g : Gathered) (t : RootKey)
    (c : Cursor)
    → ((g' : Gathered) (d : Cursor) → Ahead c d → EndsAhead (λ r. r.1) d (next g' d))
    → EndsAhead (λ r. r.1) c (read_entry next g t c)
unfolding read_entry
read_entry-EndsAhead next g announce c ih =
    EndsAhead-bind (λ v. v.1) (λ r. r.1) c (parse_bytes c) (λ v. next _ v.1)
      (parse_bytes-EndsAhead c) (λ v. ih _ v.1)
read_entry-EndsAhead next g announce_list c ih =
    EndsAhead-bind (λ v. v.1) (λ r. r.1) c (parse_announce_list c) (λ v. next _ v.1)
      (parse_announce_list-EndsAhead c) (λ v. ih _ v.1)
read_entry-EndsAhead next g info c ih =
    EndsAhead-bind (λ d. d) (λ r. r.1) c (skip_value c) (λ d. next _ d) (skip_value-EndsAhead c)
      (λ d. ih _ d)
read_entry-EndsAhead next g other c ih =
    EndsAhead-bind (λ d. d) (λ r. r.1) c (skip_value c) (λ d. next g d) (skip_value-EndsAhead c)
      (λ d. ih g d)

read_root-EndsAhead :
    (f : ℕ) (g : Gathered) (c : Cursor)
    → length c.rest < f
    → EndsAhead (λ r. r.1) c (read_root f g c)
unfolding read_root
read_root-EndsAhead zero g c h = absurd (omega arith)
read_root-EndsAhead (suc f) g c h = elim (Bool-cases (at_close c.rest)) [
  | inl e ↦ rw (e, read_root) (closed g c (close _ c) (close-EndsAhead _ c))
  | inr ne ↦
      rw (ne, read_root)
        (EndsAhead-bind (λ r. r.1) (λ r. r.1) c (parse_bytes c)
          (λ k. read_entry (read_root f) g (root_key k.0) k.1) (parse_bytes-EndsAhead c)
          (λ k a.
            read_entry-EndsAhead (read_root f) g (root_key k.0) k.1
              (λ g' d b. read_root-EndsAhead f g' d (omega arith))))
]

finish-ne-out_of_fuel : (g : Gathered) → finish g ≢ out_of_fuel
unfolding finish
finish-ne-out_of_fuel g = ground (arith, name_from_info-ne-out_of_fuel g.info_raw)

-- `parseTorrentMeta` returns on every input: metadata, an error, or the panic of a slice.
pub parse_torrent_meta-ne-out_of_fuel : (s : Str) → parse_torrent_meta s ≢ out_of_fuel
unfolding parse_torrent_meta
parse_torrent_meta-ne-out_of_fuel [] = cc
parse_torrent_meta-ne-out_of_fuel (b ∷ s) = elim (Bool-cases (b == b'd')) [
  | inl d ↦ rw d (
      Ends-bind (λ r. r.1) (record { i = 1; rest = s }) (read_root (suc (length (b ∷ s))) _ _)
        (λ r. finish r.0)
        (read_root-EndsAhead (suc (length (b ∷ s))) _ (record { i = 1; rest = s }) (omega arith))
        (λ r a. finish-ne-out_of_fuel r.0))
  | inr n ↦ rw n (cc)
]
