-- ===== src/Store/Stamps.antt =====
-- filedb/merge.go: when a merge stamps the stored torrent with the time.
use jacred_go.Base.{◌≡◌, Bool, true, false, not, ◌||◌, Str, codes, if◌then◌else◌}
use jacred_go.Store.Details.{scalar, text, Conversions, Details, get}
use jacred_go.Store.Merge.{Merging}
use jacred_go.Store.Names.{Texts}

pub if-keeps {ℓ κ} :
    {A : Type ℓ} (P : A → Type κ) (b : Bool) {x y : A} → P x → P y → P (if b then x else y)
if-keeps P true h k = h
if-keeps P false h k = k

abbrev update_time : Str
update_time = codes "updateTime"

module _ {O : Type 0} (go : Conversions O) (txt : Texts) (now : Str) (t : Details O) where
  -- The stamp is the time of the merge or the old one, as the flags say.
  pub record IsStamped (st : Merging O) : Type 0 where
    pub stamp :
        get update_time st.torrent ≡ (if st.timed then scalar (text now) else get update_time t)
    pub timed_changes : (not st.timed || st.changed) ≡ true
    pub full_stamps : (not st.full || st.timed) ≡ true
