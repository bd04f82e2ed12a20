-- ===== src/Store/Computed.antt =====
-- filedb/merge.go: the computed fields of a torrent whose full details are due.
use jacred_go.Base.{◌≡◌, Str, codes}
use jacred_go.Store.Details.{scalar, null, Conversions, Details, get}
use jacred_go.Store.Names.{Texts}

module _ {O : Type 0} (go : Conversions O) (txt : Texts) (now : Str) where
  -- The fields that the update of the full details computes, all nil.
  pub record HasNoComputed (m : Details O) : Type 0 where
    pub quality : get (codes "quality") m ≡ scalar null
    pub videotype : get (codes "videotype") m ≡ scalar null
    pub voices : get (codes "voices") m ≡ scalar null
    pub languages : get (codes "languages") m ≡ scalar null
    pub seasons : get (codes "seasons") m ≡ scalar null
    pub size : get (codes "size") m ≡ scalar null
