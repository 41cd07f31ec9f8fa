-- ===== src/Index/Snapshot.antt =====
-- How `Save` and `Load` of index/flat.go and index/ivf_flat.go keep a snapshot of an index in a file of
-- a store. The JSON form of a snapshot is a parameter.
use golance_db.Prelude.{
  ◌≡◌, refl, Bool, true, false, Option, none, some, Result, ok, err, length, if◌then◌else◌,
  canceled,
}
use golance_db.Prelude.Int.{pos}
use golance_db.Prelude.Stateful.{Io, lift, ◌>>=◌, ◌>>◌, ran_look}
use golance_db.Prelude
use golance_db.Bytes.{Bytes}
use golance_db.Text.{FilePath}
use golance_db.Storage.Store.{Store, StoreLaws}

-- `json.Marshal` and `json.Unmarshal` of a snapshot; what is marshalled is unmarshalled again.
pub record SnapshotJson (S : Type 0) : Type 0 where
  pub marshal : S → Result Bytes
  pub unmarshal : Bytes → Result S
  pub unmarshal-marshal : (s : S) (b : Bytes) → marshal s ≡ ok b → unmarshal b ≡ ok s

module _ {W S : Type 0} (json : SnapshotJson S) (store : Store W) where
  unfoldable pub save_snapshot : Bool → FilePath → S → Io W (Unit {0})
  save_snapshot stopped path s w =
      (do
        lift (if stopped then err canceled else ok tt)
        bytes ← lift (json.marshal s)
        store.write path bytes)
        w

  unfoldable pub load_snapshot : Bool → FilePath → W → Result S
  load_snapshot stopped path w =
      if stopped
      then err canceled
      else Prelude.◌>>=◌ (store.size path w)
          (λ n. Prelude.◌>>=◌ (store.read path (pos 0) n w) (λ bytes. json.unmarshal bytes))

  pub load_snapshot-save_snapshot :
      (content : FilePath → W → Option Bytes)
      → StoreLaws store content
      → (path : FilePath) (s : S) (stopped : Bool) (w w' : W)
      → save_snapshot stopped path s w ≡ (ok tt, w')
      → load_snapshot false path w' ≡ ok s
  unfolding save_snapshot load_snapshot
  load_snapshot-save_snapshot content laws path s stopped w w' h =
      let (u, alive, h1) = ran_look (λ _. if stopped then err canceled else ok tt) _ w h in
      let (bytes, made, wrote) = ran_look (λ _. json.marshal s) (store.write path) w h1 in
      let there = laws.written path bytes w w' wrote in
      rw (laws.size_lem path w' bytes there, laws.read_lem path w' bytes there)
        (json.unmarshal-marshal s bytes made)
