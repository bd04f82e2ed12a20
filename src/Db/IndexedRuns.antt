-- ===== src/Db/IndexedRuns.antt =====
-- filedb: the index of names through the operations of a run, and against a rebuilt one.
use jacred_go.Base.{◌&&◌, List, Str, contains, ◌≡◌}
use jacred_go.Base.Dict.{has, IsMap}
use jacred_go.Db.State.{TorrentInfo, key_parts}
use jacred_go.Db.Index.{Index, indexed}

-- The index has a key under its parts while the key is in the master table, and nothing else.
abbrev pub Indexes : List (Str × TorrentInfo) → Index → Type 0
Indexes master fast =
    IsMap fast × ((p k : Str) → indexed p k fast ≡ has k master && contains (key_parts k) p)
