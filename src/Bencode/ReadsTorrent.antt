-- ===== src/Bencode/ReadsTorrent.antt =====
-- `parseTorrentMeta` reads back what the writer of a .torrent file meant.
use mathlib.Core.List.{append_assoc, append-nil}
use jacred_go.Base.{
  ℕ, zero, suc, ◌+◌, ◌<◌, ◌≤◌, ◌≡◌, refl, false, List, [], ◌∷◌, ◌++◌, Str, arith, ◌==◌, length,
  length-append, take, take-append, ap, ◌∙◌, All,
}
use jacred_go.Bencode.Cursor.{int_limit, Outcome, done, Cursor, peek}
use jacred_go.Bencode.Encode.{encode_bytes, encode}
use jacred_go.Bencode.ByteStrings.{at, parse_bytes-encode_bytes, length-encode_bytes}
use jacred_go.Bencode.SkipEncoded.{skip_value-encode, at_close-encode_bytes, token-encode_bytes}
use jacred_go.Bencode.Skip.{Token, token}
use jacred_go.Bencode.Meta.{
  read_tier, read_tiers, parse_announce_list, name_from_info, Gathered, read_entry, root_key,
  read_root, nothing_gathered, name_from_info, finish, parse_torrent_meta,
}
use jacred_go.Bencode.ReadsName.{name_from_info-encode}
use jacred_go.Bencode.Torrent.{
  Tier, single, tier, Field, Field.announce, Field.announce_list, Field.info, Field.other,
  encode_strs, encode_tiers, key, encode_field, encode_fields, encode_torrent, IsPlain, trackers,
  gather, gather_all, name_of, info_name, describe,
}

-- The same result, written another way.
landed {ℓ} :
    {A : Type ℓ} {a b : A} {i j : ℕ} (rest : Str)
    → a ≡ b
    → i ≡ j
    → ◌≡◌ {A = Outcome (A × Cursor)} (done (a, at i rest)) (done (b, at j rest))
landed rest p q = λ k. done (p k, at (q k) rest)

read_tier-encode_strs :
    (urls : List Str) (f i : ℕ) (out : List Str) (rest : Str)
    → length (encode_strs urls) ≤ f
    → i + length (encode_strs urls) < int_limit
    → read_tier f out (at i (encode_strs urls ++ rest))
      ≡ done (out ++ urls, at (i + length (encode_strs urls)) rest)
unfolding encode_strs read_tier
read_tier-encode_strs [] zero i out rest h lim = absurd (omega arith)
read_tier-encode_strs (a ∷ urls) zero i out rest h lim =
    absurd (omega (arith, length-append (encode_bytes a) (encode_strs urls), length-encode_bytes a))
read_tier-encode_strs [] (suc f) i out rest h lim = rw (append-nil out)
read_tier-encode_strs (a ∷ urls) (suc f) i out rest h lim =
    let n = length-append (encode_bytes a) (encode_strs urls) in
    let m = length-encode_bytes a in
    rw (append_assoc (encode_bytes a) (encode_strs urls) rest) (
      rw (at_close-encode_bytes a (encode_strs urls ++ rest), read_tier)
        (rw (parse_bytes-encode_bytes i a (encode_strs urls ++ rest) (omega arith)) (
          read_tier-encode_strs urls f (i + length (encode_bytes a)) (out ++ a ∷ []) rest
            (omega arith) (omega arith)
          ∙ landed rest (append_assoc out (a ∷ []) urls) (omega arith))))

length-encode_strs_pos : (urls : List Str) → 0 < length (encode_strs urls)
unfolding encode_strs
length-encode_strs_pos [] = omega arith
length-encode_strs_pos (a ∷ urls) =
    omega (arith, length-append (encode_bytes a) (encode_strs urls), length-encode_bytes a)

peek-encode_bytes : (v rest : Str) → (peek (encode_bytes v ++ rest) == b'l') ≡ false
peek-encode_bytes v rest = go (encode_bytes v ++ rest) (token-encode_bytes v rest)
  where
    go : (s : Str) → token s ≡ Token.bytes → (peek s == b'l') ≡ false
    go [] e = cc
    go (b ∷ s) e = ground arith

read_tiers-encode_tiers :
    (ts : List Tier) (f i : ℕ) (out : List Str) (rest : Str)
    → length (encode_tiers ts) ≤ f
    → i + length (encode_tiers ts) < int_limit
    → read_tiers f out (at i (encode_tiers ts ++ rest))
      ≡ done (out ++ trackers ts, at (i + length (encode_tiers ts)) rest)
unfolding encode_tiers read_tiers
read_tiers-encode_tiers [] zero i out rest h lim = absurd (omega arith)
read_tiers-encode_tiers [] (suc f) i out rest h lim = rw (append-nil out)
read_tiers-encode_tiers (single a ∷ ts) zero i out rest h lim =
    absurd (omega (arith, length-append (encode_bytes a) (encode_tiers ts), length-encode_bytes a))
read_tiers-encode_tiers (single a ∷ ts) (suc f) i out rest h lim =
    let n = length-append (encode_bytes a) (encode_tiers ts) in
    let m = length-encode_bytes a in
    rw (append_assoc (encode_bytes a) (encode_tiers ts) rest) (
      rw (at_close-encode_bytes a (encode_tiers ts ++ rest), read_tiers)
        (rw (peek-encode_bytes a (encode_tiers ts ++ rest)) (
          rw (parse_bytes-encode_bytes i a (encode_tiers ts ++ rest) (omega arith)) (
            read_tiers-encode_tiers ts f (i + length (encode_bytes a)) (out ++ a ∷ []) rest
              (omega arith) (omega arith)
            ∙ landed rest (append_assoc out (a ∷ []) (trackers ts)) (omega arith)))))
read_tiers-encode_tiers (tier urls ∷ ts) zero i out rest h lim = absurd (omega arith)
read_tiers-encode_tiers (tier urls ∷ ts) (suc f) i out rest h lim =
    let n = length-append (encode_strs urls) (encode_tiers ts) in
    rw (append_assoc (encode_strs urls) (encode_tiers ts) rest) (
      rw
        (read_tier-encode_strs urls (suc f) (i + 1) out (encode_tiers ts ++ rest) (omega arith)
          (omega arith))
        (read_tiers-encode_tiers ts f (i + 1 + length (encode_strs urls)) (out ++ urls) rest
            (omega (arith, length-encode_strs_pos urls)) (omega arith)
          ∙ landed rest (append_assoc out urls (trackers ts)) (omega arith)))

parse_announce_list-encode :
    (ts : List Tier) (i : ℕ) (rest : Str)
    → i + 1 + length (encode_tiers ts) < int_limit
    → parse_announce_list (at i (b'l' ∷ (encode_tiers ts ++ rest)))
      ≡ done (trackers ts, at (i + 1 + length (encode_tiers ts)) rest)
unfolding parse_announce_list
parse_announce_list-encode ts i rest lim =
    read_tiers-encode_tiers ts (suc (suc (length (encode_tiers ts ++ rest)))) (i + 1) [] rest
      (omega (arith, length-append (encode_tiers ts) rest)) lim

-- The switch on a field's key, with what the loop does from there on.
read_entry-encode :
    (next : Gathered → Cursor → Outcome (Gathered × Cursor)) (g : Gathered) (x : Field) (i : ℕ)
    (rest : Str)
    → IsPlain x
    → i + length (encode_field x) < int_limit
    → read_entry next g (root_key (key x)) (at i (encode_field x ++ rest))
      ≡ next (gather g x) (at (i + length (encode_field x)) rest)
unfolding read_entry encode_field
read_entry-encode next g (announce a) i rest p lim = rw (parse_bytes-encode_bytes i a rest lim)
read_entry-encode next g (announce_list ts) i rest p lim =
    rw (parse_announce_list-encode ts i rest (omega arith))
      (ap (λ k. next (gather g (announce_list ts)) (at k rest)) (omega arith))
read_entry-encode next g (info v) i rest p lim = rw (skip_value-encode v i rest lim) (
    ap (λ raw. next (record g { info_raw = raw }) (at (i + length (encode v)) rest))
      (ap (λ k. take k (encode v ++ rest)) (omega arith) ∙ take-append (encode v) rest))
read_entry-encode next g (other k v) i rest p lim = rw (p, skip_value-encode v i rest lim)

read_root-encode :
    (fs : List Field) (f i : ℕ) (g : Gathered) (rest : Str)
    → All IsPlain fs
    → length (encode_fields fs) ≤ f
    → i + length (encode_fields fs) < int_limit
    → read_root f g (at i (encode_fields fs ++ rest))
      ≡ done (gather_all g fs, at (i + length (encode_fields fs)) rest)
unfolding encode_fields read_root
read_root-encode [] zero i g rest p h lim = absurd (omega arith)
read_root-encode [] (suc f) i g rest p h lim = refl
read_root-encode (x ∷ fs) zero i g rest p h lim = absurd (
    omega (
      arith,
      length-append (encode_bytes (key x)) (encode_field x ++ encode_fields fs),
      length-encode_bytes (key x),
    ))
read_root-encode (x ∷ fs) (suc f) i g rest p h lim =
    let n = length-append (encode_bytes (key x)) (encode_field x ++ encode_fields fs) in
    let m = length-append (encode_field x) (encode_fields fs) in
    let some_k = length-encode_bytes (key x) in
    let j = i + length (encode_bytes (key x)) in
    rw (append_assoc (encode_bytes (key x)) (encode_field x ++ encode_fields fs) rest) (
      rw (append_assoc (encode_field x) (encode_fields fs) rest) (
        rw (at_close-encode_bytes (key x) (encode_field x ++ (encode_fields fs ++ rest)), read_root)
          (rw
            (parse_bytes-encode_bytes i (key x) (encode_field x ++ (encode_fields fs ++ rest))
              (omega arith))
            (read_entry-encode (read_root f) g x j (encode_fields fs ++ rest) p.0 (omega arith)
              ∙ read_root-encode fs f (j + length (encode_field x)) (gather g x) rest p.1
                  (omega arith) (omega arith)
              ∙ landed rest refl (omega arith)))))

shorter :
    (x : Field) (fs : List Field)
    → length (encode_fields (x ∷ fs)) < int_limit
    → length (encode_fields fs) < int_limit
unfolding encode_fields
shorter x fs h = omega (
  arith,
  length-append (encode_bytes (key x)) (encode_field x ++ encode_fields fs),
  length-append (encode_field x) (encode_fields fs),
)

-- The name goes with the info value that counts.
name_of_gathered :
    (fs : List Field) (g : Gathered) (n : Str)
    → length (encode_fields fs) < int_limit
    → name_from_info g.info_raw ≡ done n
    → name_from_info (gather_all g fs).info_raw ≡ done (info_name n fs)
unfolding encode_fields encode_field
name_of_gathered [] g n h e = e
name_of_gathered (info v ∷ fs) g n h e =
    let split = length-append (encode_bytes (key (info v))) (encode v ++ encode_fields fs) in
    let split_v = length-append (encode v) (encode_fields fs) in
    name_of_gathered fs (gather g (info v)) (name_of v) (omega arith)
      (name_from_info-encode v (omega arith))
name_of_gathered (announce a ∷ fs) g n h e =
    name_of_gathered fs (gather g (announce a)) n (shorter (announce a) fs h) e
name_of_gathered (announce_list ts ∷ fs) g n h e =
    name_of_gathered fs (gather g (announce_list ts)) n (shorter (announce_list ts) fs h) e
name_of_gathered (other k v ∷ fs) g n h e = name_of_gathered fs g n (shorter (other k v) fs h) e

-- On a written .torrent file of less than 2^63 bytes, in which no other field has the key of a named
-- one, whatever bytes stand behind it, `parseTorrentMeta` returns the exact bytes of the last info value,
-- its name, and the trackers in order.
pub parse_torrent_meta-encode_torrent :
    (fs : List Field) (rest : Str)
    → All IsPlain fs
    → length (encode_torrent fs) < int_limit
    → parse_torrent_meta (encode_torrent fs ++ rest) ≡ done (describe fs)
unfolding parse_torrent_meta encode_torrent
parse_torrent_meta-encode_torrent fs rest p lim =
    rw
      (read_root-encode fs (suc (length (encode_torrent fs ++ rest))) 1 nothing_gathered rest p
        (omega (arith, length-append (encode_fields fs) rest)) (omega arith))
      (unfold finish in
        rw (name_of_gathered fs nothing_gathered [] (omega arith) (unfold name_from_info in refl)))
