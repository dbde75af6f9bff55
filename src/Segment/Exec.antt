-- ===== src/Segment/Exec.antt =====
-- Methods that change `Inner` and may return an error. What they changed before the error stays.
use shard_vault.Base.{◌≡◌, refl, ap, Result, ok, err, StoreError, ℕ}
use shard_vault.Block.Layer.{BlockLayer}
use shard_vault.Wal.Record.{Record}
use shard_vault.Wal.Log.{append, append_at, sync}
use shard_vault.Segment.State.{Inner}

abbrev pub Exec : Type 0 → Type 0
Exec A = Inner → Result A × Inner

-- What a bind does with the outcome of its first action.
abbrev pub continue : {A B : Type 0} → Result A → (A → Exec B) → Exec B
continue (ok a) f s = f a s
continue (err e) f s = (err e, s)

infixl 5 ◌>>=◌ ◌>>◌
abbrev pub ◌>>=◌ : {A B : Type 0} → Exec A → (A → Exec B) → Exec B
◌>>=◌ m f s = let (r, s') = m s in continue r f s'

abbrev pub ◌>>◌ : {B : Type 0} → Exec (Unit {0}) → Exec B → Exec B
m >> k = m >>= λ _. k

abbrev pub pure : {A : Type 0} → A → Exec A
pure a s = (ok a, s)

abbrev pub raise : {A : Type 0} → StoreError → Exec A
raise e s = (err e, s)

abbrev pub gets : {A : Type 0} → (Inner → A) → Exec A
gets f s = (ok (f s), s)

abbrev pub modify : (Inner → Inner) → Exec (Unit {0})
modify f s = (ok tt, f s)

abbrev pub lift : {A : Type 0} → Result A → Exec A
lift r s = (r, s)

module _ (layer : BlockLayer) where
  -- `inner.wal.append(&rec)?`, with the LSN that the record gets.
  unfoldable pub wal_append : Record → Exec ℕ
  wal_append rec s = elim (append layer rec s.wal) [
    | ok (lsn, w) ↦ (ok lsn, record s { wal = w })
    | err e ↦ (err e, s)
  ]

  -- `inner.wal.append_at(rec, lsn)?`
  unfoldable pub wal_append_at : Record → ℕ → Exec (Unit {0})
  wal_append_at rec lsn s = elim (append_at layer rec lsn s.wal) [
    | ok w ↦ (ok tt, record s { wal = w })
    | err e ↦ (err e, s)
  ]

-- `inner.wal.sync()?`
abbrev pub wal_sync : Exec (Unit {0})
wal_sync s = (ok tt, record s { wal = sync s.wal })

continue-eq-ok :
    {A B : Type 0} (r : Result A) (f : A → Exec B) (u : Inner) {b : B} {s' : Inner}
    → continue r f u ≡ (ok b, s')
    → (a : A) × (r ≡ ok a) × (f a u ≡ (ok b, s'))
continue-eq-ok (ok a) f u h = (a, refl, h)
continue-eq-ok (err e) f u h = absurd (cc)

-- A bind that returns has a first action that returns, and goes on from its state.
pub >>=-eq-ok :
    {A B : Type 0} (m : Exec A) (f : A → Exec B) (s : Inner) {b : B} {s' : Inner}
    → (m >>= f) s ≡ (ok b, s')
    → (a : A) × (u : Inner) × (m s ≡ (ok a, u)) × (f a u ≡ (ok b, s'))
>>=-eq-ok m f s h =
    let (a, e, k) = continue-eq-ok (m s).0 f (m s).1 h in (a, (m s).1, ap (λ r. (r, (m s).1)) e, k)
