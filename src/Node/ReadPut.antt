-- ===== src/Node/ReadPut.antt =====
-- A client that was answered `PutOk` reads its value.
use shard_vault.Base.{
  ℕ, ◌+◌, ◌-◌, ◌≡◌, ◌<◌, ◌^◌, refl, sym, ap, ◌∙◌, some, List, Text, Result, ok, err, StoreError,
}
use shard_vault.Block.Layer.{BlockLayer}
use shard_vault.Wal.Log.{Entries}
use shard_vault.Segment.State.{Inner, Store}
use shard_vault.Segment.Write.{stage_put}
use shard_vault.Segment.Publish.{sync_wal, commit_store}
use shard_vault.Segment.Read.{get_upto}
use shard_vault.Segment.ReadUpto.{get_upto_synced}
use shard_vault.Node.Frame.{get_req, get_ok}
use shard_vault.Node.Leader.{
  Leader, send_staged, send_committed, process_put_stage, process_put_commit,
}
use shard_vault.Node.Client.{sent, get_answer, serve}

send_staged-ok :
    (r : Result (ℕ × Entries)) (s : Inner) (value : List ℕ) (l : Leader) {end : ℕ} {l1 : Leader}
    → send_staged r s value l ≡ (ok end, l1)
    → (id : ℕ) × (recs : Entries) × (r ≡ ok (id, recs))
      × (l1.store ≡ record l.store { inner = sync_wal s })
send_staged-ok (err e) s value l h = absurd (cc)
send_staged-ok (ok (id, recs)) s value l h =
    (id, recs, refl, sym (ap (λ (q : Result ℕ × Leader). q.1.store) h))

send_committed-ok :
    (r : Result (Unit {0})) (store : Store) (end : ℕ) (l : Leader) {l2 : Leader}
    → send_committed r store end l ≡ (ok tt, l2)
    → (r ≡ ok tt) × (l2.store ≡ store) × (l2.commit_index ≡ store.inner.wal.next_lsn - 1)
send_committed-ok (err e) store end l h = absurd (cc)
send_committed-ok (ok done) store end l h = (
  refl,
  sym (ap (λ (q : Result (Unit {0}) × Leader). q.1.store) h),
  sym (ap (λ (q : Result (Unit {0}) × Leader). q.1.commit_index) h),
)

module _ (layer : BlockLayer) (message : StoreError → Text) (lost : Text) where
  -- Where both steps of a put return, at an LSN below 2 ^ 64 - 2 and with the store at the second as
  -- the first left it, the leader answers a `GetReq` of the key with the value that was put.
  pub serve-process_put :
      (key : Text) (value : List ℕ) (l l1 l1' l2 : Leader) (end id fuel probes : ℕ)
      → l.store.inner.wal.next_lsn + 2 < 2 ^ 64
      → process_put_stage layer key value l ≡ (ok end, l1)
      → l1'.store ≡ l1.store
      → process_put_commit layer end l1' ≡ (ok tt, l2)
      → serve layer message lost fuel probes (get_req id key) l2 ≡ sent (get_ok id (some value)) l2
  unfolding process_put_stage process_put_commit serve
  serve-process_put key value l l1 l1' l2 end id fuel probes small first waited second =
      let run = stage_put layer key value l.store.inner in
      let (put_id, recs, staged, start) = send_staged-ok run.0 run.1 value l first in
      let commit_run = commit_store layer end l1'.store in
      let (done, finish, index) = send_committed-ok commit_run.0 commit_run.1 end l1' second in
      let store_is : l1'.store ≡ record l.store { inner = sync_wal run.1 } = waited ∙ start in
      let committed : commit_store layer end (record l.store { inner = sync_wal run.1 })
          ≡ (ok tt, commit_run.1) =
        sym (ap (commit_store layer end) store_is) ∙ ap (λ r. (r, commit_run.1)) done in
      let read =
        get_upto_synced layer key value l.store put_id recs run.1 end commit_run.1 small
          (ap (λ r. (r, run.1)) staged) committed in
      ap (λ r. sent (get_answer id r) l2)
        (ap (λ n. get_upto key n l2.store) index
          ∙ ap (get_upto key (commit_run.1.inner.wal.next_lsn - 1)) finish
          ∙ read)
