-- ===== src/Segment/Ready.antt =====
-- `stage_put` keeps the maps of a store in agreement.
use shard_vault.Base.{
  ℕ, ◌+◌, ◌≡◌, ◌<◌, ◌≤◌, ◌^◌, refl, ap, ◌∙◌, Bool, true, false, Bool-cases, inl, inr, some, [], ◌∷◌,
  ◌++◌, All, All-imp, ◌==◌, ==_iff, add64, Text, Map, Key, lookup, insert, lookup-insert,
  lookup-All, insert-IsMap, Text-Key, ℕ-Key, Result, ok, arith,
}
use shard_vault.Block.Layer.{BlockLayer}
use shard_vault.Wal.Record.{Record, segment_seal}
use shard_vault.Wal.Log.{Entries}
use shard_vault.Segment.State.{Inner, PutLoc}
use shard_vault.Segment.Exec.{wal_append, >>=-eq-ok}
use shard_vault.Segment.Write.{seal_active_record, seal_when, place_value}
use shard_vault.Segment.Copied.{held_bytes}
use shard_vault.Segment.CompactSettled.{Consistent}
use shard_vault.Segment.ReadUpto.{append_next}

-- The maps agree, the log is ahead of every put, and the active segment has an id that was given.
pub record Ready (s : Inner) : Type 0 where
  pub maps : Consistent s
  pub logged : All (λ p. p.0 < s.wal.next_lsn) s.put_locations
  pub active : s.active_id < s.next_free_id

module _ {ℓ} {K V : Type 0} ⦃key : Key K⦄ (P : K × V → Type ℓ) where
  All-insert : (k : K) (v : V) (m : Map K V) → P (k, v) → All P m → All P (insert k v m)
  unfolding insert
  All-insert k v [] p hs = (p, hs)
  All-insert k v ((j, w) ∷ m) p (h, hs) = elim (Bool-cases (key.same j k)) [
    | inl same ↦ rw same (p, hs)
    | inr other ↦ rw other (h, All-insert k v m p hs)
  ]

-- A put location at an LSN above all others is one more.
held_bytes-insert :
    (lsn : ℕ) (loc : PutLoc) (m : Map ℕ PutLoc)
    → All (λ p. p.0 < lsn) m
    → held_bytes (insert lsn loc m) ≡ loc.len + held_bytes m
unfolding insert
held_bytes-insert lsn loc [] below = refl
held_bytes-insert lsn loc ((j, w) ∷ m) (b, below) =
    let other : (j == lsn) ≡ false = ground arith in
    let rest = held_bytes-insert lsn loc m below in rw other (omega arith)

lookup-insert_below :
    (lsn n : ℕ) (loc : PutLoc) (m : Map ℕ PutLoc)
    → n < lsn
    → lookup n (insert lsn loc m) ≡ lookup n m
lookup-insert_below lsn n loc m below =
    let other : (lsn == n) ≡ false = ground arith in rw (lookup-insert lsn n loc m, other) refl

lookup-insert_same :
    (lsn : ℕ) (loc : PutLoc) (m : Map ℕ PutLoc) → lookup lsn (insert lsn loc m) ≡ some loc
lookup-insert_same lsn loc m =
    let same : (lsn == lsn) ≡ true = (==_iff lsn lsn).1 refl in
    rw (lookup-insert lsn lsn loc m, same) refl

-- What `place_value` needs of the state in which a put's records are logged.
pub record Placing (put_lsn : ℕ) (s : Inner) : Type 0 where
  pub maps : Consistent s
  pub below : All (λ p. p.0 < put_lsn) s.put_locations
  pub logged : put_lsn < s.wal.next_lsn
  pub active : s.active_id < s.next_free_id

pub place_value-Ready :
    (key : Text) (len lsn : ℕ) (s : Inner)
    → Placing lsn s
    → held_bytes s.put_locations + len < 2 ^ 64
    → Ready (place_value key len lsn s)
unfolding place_value
place_value-Ready key len lsn s p small =
    let loc : PutLoc = record {
      key = key;
      seg = s.active_id;
      offset = s.active_offset;
      len = len;
    } in
    let logged = p.logged in
    let size = held_bytes-insert lsn loc s.put_locations p.below in
    record {
      maps = record {
        one_place = insert-IsMap key _ s.index p.maps.one_place;
        one_put = insert-IsMap lsn loc s.put_locations p.maps.one_put;
        placed = All-insert _ key _ s.index (lookup-insert_same lsn loc s.put_locations) (
            All-imp _ _
              (λ e found.
                let below = lookup-All _ e.1.lsn s.put_locations p.below found in
                lookup-insert_below lsn e.1.lsn loc s.put_locations below ∙ found)
              s.index p.maps.placed);
        given = All-insert _ lsn loc s.put_locations p.active p.maps.given;
        held = omega arith;
      };
      logged =
          All-insert _ lsn loc s.put_locations p.logged
            (All-imp _ _ (λ e below. omega arith) s.put_locations p.below);
      active = p.active;
    }

-- What a step that places nothing changes.
pub record Onward (s t : Inner) : Type 0 where
  pub index : t.index ≡ s.index
  pub put_locations : t.put_locations ≡ s.put_locations
  pub next_lsn : s.wal.next_lsn ≤ t.wal.next_lsn
  pub next_free_id : s.next_free_id ≤ t.next_free_id

pub Consistent-Onward : (s t : Inner) → Onward s t → Consistent s → Consistent t
Consistent-Onward s t o c =
    let ids = o.next_free_id in
    record {
      one_place = rw (o.index) c.one_place;
      one_put = rw (o.put_locations) c.one_put;
      placed = rw (o.index, o.put_locations) c.placed;
      given = rw (o.put_locations) (All-imp _ _ (λ e below. omega arith) s.put_locations c.given);
      held = rw (o.put_locations) c.held;
    }

Ready-Onward : (s t : Inner) → Onward s t → t.active_id < t.next_free_id → Ready s → Ready t
Ready-Onward s t o active r =
    let up = o.next_lsn in
    record {
      maps = Consistent-Onward s t o r.maps;
      logged = rw (o.put_locations) (All-imp _ _ (λ e below. omega arith) s.put_locations r.logged);
      active = active;
    }

module _ (layer : BlockLayer) where
  append-same :
      (rec : Record) (s : Inner) {lsn : ℕ} {s' : Inner}
      → wal_append layer rec s ≡ (ok lsn, s')
      → (s'.put_locations ≡ s.put_locations)
        × (s'.active_id ≡ s.active_id)
        × (s'.next_free_id ≡ s.next_free_id)
  unfolding wal_append
  append-same rec s h = (ground arith, ground arith, ground arith)

  pub append-Onward :
      (rec : Record) (s : Inner) {lsn : ℕ} {s' : Inner}
      → wal_append layer rec s ≡ (ok lsn, s')
      → Onward s s' × (s'.active_id ≡ s.active_id) × (s'.next_free_id ≡ s.next_free_id)
  append-Onward rec s h =
      let (first, next, index) = append_next layer rec s h in
      let (puts, active, ids) = append-same rec s h in
      (
        record {
          index = index;
          put_locations = puts;
          next_lsn = omega arith;
          next_free_id = omega arith;
        },
        active,
        ids,
      )

  pub seal_when-Ready :
      (b : Bool) (recs : Entries) (s : Inner) {after : Entries} {s' : Inner}
      → s.next_free_id + 1 < 2 ^ 64
      → Ready s
      → seal_when layer b recs s ≡ (ok after, s')
      → Ready s' × (s'.next_free_id ≤ s.next_free_id + 1) × (s'.put_locations ≡ s.put_locations)
  unfolding seal_when seal_active_record
  seal_when-Ready false recs s {s' = s'} small r h =
      let same : s ≡ s' = ap (λ (q : Result Entries × Inner). q.1) h in
      rw (← same) (r, omega arith, refl)
  seal_when-Ready true recs s {s' = s'} small r h =
      let start : Inner = record s { next_free_id = add64 s.next_free_id 1 } in
      let rec = segment_seal s.active_id s.next_free_id in
      let (p, t, sealed, h0) = >>=-eq-ok (seal_active_record layer) _ s h in
      let (lsn, u, logged, h1) = >>=-eq-ok (wal_append layer rec) _ start sealed in
      let same : t ≡ s' = ap (λ (q : Result Entries × Inner). q.1) h0 in
      let (o, active, ids) = append-Onward rec start logged in
      let up = o.next_lsn in
      let final : Inner = record u {
        pending = true;
        sealed = u.sealed ++ u.active_id ∷ [];
        active_id = s.next_free_id;
        active_offset = 0;
      } in
      let there : final ≡ t = ap (λ (q : Result (ℕ × Record) × Inner). q.1) h1 in
      let onward : Onward s final = record {
        index = o.index;
        put_locations = o.put_locations;
        next_lsn = up;
        next_free_id = omega arith;
      } in
      rw (← (there ∙ same))
        (Ready-Onward s final onward (omega arith) r, omega arith, o.put_locations)
