-- ===== src/Db/Index.antt =====
-- filedb: the index of names, `fastdb`, against the keys of `masterDb`.
use jacred_go.Base.{
  Bool, true, false, not, ◌&&◌, ◌||◌, List, [], ◌∷◌, ◌++◌, Str, equal, equal_iff, contains, ◌≡◌,
  ◌⊎◌, refl, ap, sym, ◌∙◌, inl, inr, arith, if◌then◌else◌, Bool-cases, Option-cases, length, ◌==◌,
}
use jacred_go.Base.Dict.{is_some, find, put, has, find-put, IsMap, put-IsMap, has_cons}
use jacred_go.Base.Sort.{contains-sort_strings}
use jacred_go.Base.Unique.{contains-concat}
use jacred_go.Db.Writes.{keys_at, with_key, index_part, index_parts, without_key, unindex}

abbrev pub Index : Type 0
Index = List (Str × List Str)

-- Whether the index has a key under a part.
abbrev pub indexed : Str → Str → Index → Bool
indexed part key fast = contains (keys_at part fast) key

contains-with_key :
    (key : Str) (ks : List Str) (k : Str)
    → contains (with_key key ks) k ≡ contains ks k || equal key k
contains-with_key key ks k = contains-sort_strings (ks ++ key ∷ []) k ∙ contains-concat ks key k

-- A part's keys grown by one, wherever that is looked at.
pub indexed-put :
    (part key : Str) (ks : List Str) (fast : Index) (p k : Str)
    → ((j : Str) → contains ks j ≡ contains (keys_at part fast) j || equal key j)
    → indexed p k (put part ks fast) ≡ indexed p k fast || (equal key k && equal part p)
unfolding find
indexed-put part key ks fast p k h = elim (Bool-cases (equal part p)) [
  | inl y ↦
      rw (find-put part p ks fast, y)
        (h k ∙ rw ((equal_iff part p).0 y) (either (contains (keys_at p fast) k) (equal key k)))
  | inr n ↦ rw (find-put part p ks fast, n) (neither (indexed p k fast) (equal key k))
]
  where
    either : (a b : Bool) → a || b ≡ a || (b && true)
    either a b = ground arith

    neither : (a b : Bool) → a ≡ a || (b && false)
    neither a b = ground arith

indexed-index_part :
    (key part : Str) (fast : Index) (p k : Str)
    → indexed p k (index_part key part fast) ≡ indexed p k fast || (equal key k && equal part p)
unfolding find
indexed-index_part key part fast p k = elim (Bool-cases (contains (keys_at part fast) key)) [
  | inl y ↦ rw y (known y (Bool-cases (equal key k)) (Bool-cases (equal part p)))
  | inr n ↦ rw n (
      indexed-put part key (with_key key (keys_at part fast)) fast p k
        (λ j. contains-with_key key (keys_at part fast) j))
]
  where
    known :
        contains (keys_at part fast) key ≡ true
        → (equal key k ≡ true) ⊎ (equal key k ≡ false)
        → (equal part p ≡ true) ⊎ (equal part p ≡ false)
        → indexed p k fast ≡ indexed p k fast || (equal key k && equal part p)
    known y (inl e) (inl f) = rw (← (equal_iff key k).0 e, ← (equal_iff part p).0 f) ground arith
    known y (inr e) f = ground arith
    known y (inl e) (inr f) = ground arith

pub indexed-index_parts :
    (key : Str) (ps : List Str) (fast : Index) (p k : Str)
    → indexed p k (index_parts key ps fast) ≡ indexed p k fast || (equal key k && contains ps p)
unfolding index_parts
indexed-index_parts key [] fast p k = ground arith
indexed-index_parts key (q ∷ ps) fast p k = ground (
  arith,
  indexed-index_parts key ps (index_part key q fast) p k,
  indexed-index_part key q fast p k,
)

pub index_parts-IsMap :
    (key : Str) (ps : List Str) (fast : Index) → IsMap fast → IsMap (index_parts key ps fast)
unfolding index_parts
index_parts-IsMap key [] fast h = h
index_parts-IsMap key (q ∷ ps) fast h =
    index_parts-IsMap key ps (index_part key q fast) (one (contains (keys_at q fast) key))
  where
    one : (b : Bool) → IsMap (if b then fast else put q (with_key key (keys_at q fast)) fast)
    one true = h
    one false = put-IsMap q (with_key key (keys_at q fast)) fast h

contains-without_key :
    (key : Str) (ks : List Str) (k : Str)
    → contains (without_key key ks) k ≡ contains ks k && not (equal key k)
contains-without_key key [] k = ground arith
contains-without_key key (j ∷ ks) k = elim (Bool-cases (equal j key)) [
  | inl y ↦ rw y (
      contains-without_key key ks k
      ∙ rw ((equal_iff j key).0 y) (gone (contains ks k) (equal key k)))
  | inr n ↦ elim (Bool-cases (equal j k)) [
    | inl y ↦
        let d : equal key k ≡ false =
          ground (arith, equal_iff key k, equal_iff j k, equal_iff j key) in
        rw (n, y, d) refl
    | inr d ↦ rw (n, d) (contains-without_key key ks k)
  ]
]
  where
    gone : (a b : Bool) → a && not b ≡ (b || a) && not b
    gone a b = ground arith

contains-empty : (ks : List Str) (k : Str) → (length ks == 0) ≡ true → contains ks k ≡ false
contains-empty [] k h = refl
contains-empty (j ∷ ks) k h = ground arith

-- A part that is still there has been there.
has-unindex :
    (key : Str) (fast : Index) (p : Str) → has p fast ≡ false → has p (unindex key fast) ≡ false
unfolding find unindex
has-unindex key [] p h = refl
has-unindex key ((q, ks) ∷ fast) p h =
    let n : equal q p ≡ false = ground (arith, has_cons q p ks fast) in
    let rest : has p fast ≡ false = ground (arith, has_cons q p ks fast) in
    elim (Bool-cases (length (without_key key ks) == 0)) [
      | inl e ↦ rw e (has-unindex key fast p rest)
      | inr e ↦ rw (e, n) (has-unindex key fast p rest)
    ]

indexed-absent : (p k : Str) (fast : Index) → has p fast ≡ false → indexed p k fast ≡ false
indexed-absent p k fast h = elim (Option-cases (find p fast)) [
  | inl e ↦ rw e refl
  | inr (ks, e) ↦ absurd (clash (ap is_some e ∙ refl))
]
  where
    clash : has p fast ≡ true → ⊥
    clash y = ground arith

pub unindex-IsMap : (key : Str) (fast : Index) → IsMap fast → IsMap (unindex key fast)
unfolding unindex
unindex-IsMap key [] h = h
unindex-IsMap key ((q, ks) ∷ fast) (h, hs) = elim (Bool-cases (length (without_key key ks) == 0)) [
  | inl e ↦ rw e (unindex-IsMap key fast hs)
  | inr e ↦ rw e (has-unindex key fast q h, unindex-IsMap key fast hs)
]

-- What a key that is taken out leaves of the index.
pub indexed-unindex :
    (key : Str) (fast : Index)
    → IsMap fast
    → (p k : Str) → indexed p k (unindex key fast) ≡ indexed p k fast && not (equal key k)
unfolding find unindex
indexed-unindex key [] h p k = refl
indexed-unindex key ((q, ks) ∷ fast) (h, hs) p k = elim (Bool-cases (equal q p)) [
  | inl y ↦ elim (Bool-cases (length (without_key key ks) == 0)) [
    | inl e ↦
        rw (e, y)
          (indexed-absent p k (unindex key fast)
              (has-unindex key fast p (rw (← (equal_iff q p).0 y) h))
            ∙ sym (contains-empty (without_key key ks) k e)
            ∙ contains-without_key key ks k)
    | inr e ↦ rw (e, y) (contains-without_key key ks k)
  ]
  | inr n ↦ elim (Bool-cases (length (without_key key ks) == 0)) [
    | inl e ↦ rw (e, n) (indexed-unindex key fast hs p k)
    | inr e ↦ rw (e, n) (indexed-unindex key fast hs p k)
  ]
]
