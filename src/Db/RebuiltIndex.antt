-- ===== src/Db/RebuiltIndex.antt =====
-- filedb/filedb.go: the index of names that `RebuildIndexes` makes.
use jacred_go.Base.{
  Bool, ◌&&◌, ◌||◌, List, [], ◌∷◌, ◌++◌, Str, equal, equal_iff, contains, ◌≡◌, refl, ◌∙◌, inl, inr,
  arith, Bool-cases, map,
}
use jacred_go.Base.Dict.{find, put, has, IsMap, put-IsMap, has_cons}
use jacred_go.Base.Sort.{contains-sort_strings}
use jacred_go.Base.Unique.{contains-concat}
use jacred_go.Db.State.{TorrentInfo, raw_parts}
use jacred_go.Db.Writes.{keys_at}
use jacred_go.Db.Rebuild.{append_parts, append_keys, sorted_entry, index_of_master}
use jacred_go.Db.Index.{Index, indexed, indexed-put}

indexed-append_parts :
    (key : Str) (ps : List Str) (fast : Index) (p k : Str)
    → indexed p k (append_parts key ps fast) ≡ indexed p k fast || (equal key k && contains ps p)
unfolding append_parts
indexed-append_parts key [] fast p k = ground arith
indexed-append_parts key (q ∷ ps) fast p k =
    let grown : List Str = keys_at q fast ++ key ∷ [] in
    ground (
      arith,
      indexed-append_parts key ps (put q grown fast) p k,
      indexed-put q key grown fast p k (λ j. contains-concat (keys_at q fast) key j),
    )

append_parts-IsMap :
    (key : Str) (ps : List Str) (fast : Index) → IsMap fast → IsMap (append_parts key ps fast)
unfolding append_parts
append_parts-IsMap key [] fast h = h
append_parts-IsMap key (q ∷ ps) fast h =
    let grown : List Str = keys_at q fast ++ key ∷ [] in
    append_parts-IsMap key ps (put q grown fast) (put-IsMap q grown fast h)

append_keys-IsMap :
    (m : List (Str × TorrentInfo)) (fast : Index) → IsMap fast → IsMap (append_keys m fast)
unfolding append_keys
append_keys-IsMap [] fast h = h
append_keys-IsMap ((key, i) ∷ m) fast h =
    append_keys-IsMap m (append_parts key (raw_parts key) fast)
      (append_parts-IsMap key (raw_parts key) fast h)

-- The parts of one key among others.
either_key :
    (key : Str) (m : List (Str × TorrentInfo)) (i : TorrentInfo) (p k : Str) (a : Bool)
    → (a || (equal key k && contains (raw_parts key) p)) || (has k m && contains (raw_parts k) p)
      ≡ a || (has k ((key, i) ∷ m) && contains (raw_parts k) p)
either_key key m i p k a = elim (Bool-cases (equal key k)) [
  | inl y ↦ rw (has_cons key k i m, y, (equal_iff key k).0 y) ground arith
  | inr n ↦ rw (has_cons key k i m, n) ground arith
]

indexed-append_keys :
    (m : List (Str × TorrentInfo)) (fast : Index) (p k : Str)
    → indexed p k (append_keys m fast) ≡ indexed p k fast || (has k m && contains (raw_parts k) p)
unfolding append_keys find
indexed-append_keys [] fast p k = ground arith
indexed-append_keys ((key, i) ∷ m) fast p k =
    indexed-append_keys m (append_parts key (raw_parts key) fast) p k
    ∙ rw (indexed-append_parts key (raw_parts key) fast p k)
        (either_key key m i p k (indexed p k fast))

find-sorted : (fast : Index) (p k : Str) → indexed p k (map sorted_entry fast) ≡ indexed p k fast
unfolding find
find-sorted [] p k = refl
find-sorted ((q, ks) ∷ fast) p k = elim (Bool-cases (equal q p)) [
  | inl y ↦ rw y (contains-sort_strings ks k)
  | inr n ↦ rw n (find-sorted fast p k)
]

has-sorted : (fast : Index) (p : Str) → has p (map sorted_entry fast) ≡ has p fast
unfolding find
has-sorted [] p = refl
has-sorted ((q, ks) ∷ fast) p = elim (Bool-cases (equal q p)) [
  | inl y ↦ rw y refl
  | inr n ↦ rw n (has-sorted fast p)
]

sorted-IsMap : (fast : Index) → IsMap fast → IsMap (map sorted_entry fast)
sorted-IsMap [] h = h
sorted-IsMap ((q, ks) ∷ fast) (h, hs) = (has-sorted fast q ∙ h, sorted-IsMap fast hs)

pub index_of_master-IsMap : (m : List (Str × TorrentInfo)) → IsMap (index_of_master m)
unfolding index_of_master
index_of_master-IsMap m = sorted-IsMap (append_keys m []) (append_keys-IsMap m [] tt)

pub indexed-index_of_master :
    (m : List (Str × TorrentInfo)) (p k : Str)
    → indexed p k (index_of_master m) ≡ has k m && contains (raw_parts k) p
unfolding index_of_master find
indexed-index_of_master m p k = find-sorted (append_keys m []) p k ∙ indexed-append_keys m [] p k
