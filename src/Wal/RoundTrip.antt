-- ===== src/Wal/RoundTrip.antt =====
-- `decode_record` reads back what `encode_record` wrote.
use shard_vault.Base.{
  ℕ, ◌<◌, ◌≡◌, sym, List, [], ◌∷◌, ◌++◌, All, length, get_or, arith, le_bytes, Text, ok, err,
  record_too_large, if◌then◌else◌, >>=-eq-ok, ok-injective, ltb,
}
use shard_vault.Rollup.Entry.{AggDeltaEntry}
use shard_vault.Block.Layer.{payload_max}
use shard_vault.Wal.Record.{
  Record, RemapEntry, put, commit, segment_seal, agg_delta, segment_swap, segment_remap, tag_put,
  tag_commit, tag_seal, tag_agg, tag_swap, tag_remap, IsText, IsDelta, IsEntry, IsRecord,
}
use shard_vault.Wal.Encode.{
  u16_try_from, delta_bytes, entry_bytes, encode_deltas, encode_entries, encode_fields,
  encode_record,
}
use shard_vault.Wal.Reader.{
  Reader, ◌>>=◌, pure, take_u16, take_utf8, Reads, Reads-bind, Reads-last, Reads-pure,
  Reads-take_bytes, Reads-take_u64, Reads-take_u32, Reads-take_u16, Reads-take_utf8,
}
use shard_vault.Wal.Decode.{
  decode_delta, decode_deltas, decode_entry, decode_entries, decode_put, decode_commit, decode_seal,
  decode_agg, decode_swap, decode_remap, decode_fields, decode_record,
}

u16_try_from-eq-ok : (n : ℕ) {k : ℕ} → u16_try_from n ≡ ok k → (n < 65536) × (k ≡ n)
u16_try_from-eq-ok n h = ground arith

-- A text behind its length, and what follows.
Reads-sized :
    {A : Type 0} (s : Text) (f : Text → Reader A) {k : ℕ} {bs : List ℕ} {a : A}
    → IsText s
    → u16_try_from (length s) ≡ ok k
    → Reads (f s) bs a
    → Reads (take_u16 >>= λ n. take_utf8 n >>= f) (le_bytes 2 k ++ (s ++ bs)) a
Reads-sized s f h e r =
    let (small, same) = u16_try_from-eq-ok (length s) e in
    rw same
      (Reads-bind _ (Reads-take_u16 (length s) small) (Reads-bind f (Reads-take_utf8 s h.valid) r))

Reads-text :
    {A : Type 0} (s : Text) (g : Text → A) {k : ℕ}
    → IsText s
    → u16_try_from (length s) ≡ ok k
    → Reads (take_u16 >>= λ n. take_utf8 n >>= λ x. pure (g x)) (le_bytes 2 k ++ s) (g s)
Reads-text s g h e =
    let (small, same) = u16_try_from-eq-ok (length s) e in
    rw same
      (Reads-bind _ (Reads-take_u16 (length s) small) (Reads-last g (Reads-take_utf8 s h.valid)))

Reads-decode_delta :
    (d : AggDeltaEntry) {k : ℕ}
    → IsDelta d
    → u16_try_from (length d.prefix) ≡ ok k
    → Reads decode_delta (delta_bytes k d) d
unfolding decode_delta
Reads-decode_delta d (text, objects, bytes) e = Reads-sized d.prefix _ text e (
    Reads-bind _ (Reads-take_u64 d.object_count_delta objects) (
      Reads-last
        (λ b. record {
          prefix = d.prefix;
          object_count_delta = d.object_count_delta;
          byte_count_delta = b;
        })
        (Reads-take_u64 d.byte_count_delta bytes)))

Reads-decode_entry :
    (x : RemapEntry) {k : ℕ}
    → IsEntry x
    → u16_try_from (length x.key) ≡ ok k
    → Reads decode_entry (entry_bytes k x) x
unfolding decode_entry
Reads-decode_entry x (text, lsn, offset, len) e = Reads-sized x.key _ text e (
    Reads-bind _ (Reads-take_u64 x.lsn lsn) (
      Reads-bind _ (Reads-take_u64 x.offset offset) (
        Reads-last (λ n. record { key = x.key; lsn = x.lsn; offset = x.offset; len = n })
          (Reads-take_u32 x.len len))))

pub Reads-decode_deltas :
    (ds : List AggDeltaEntry) {v : List ℕ}
    → All IsDelta ds
    → encode_deltas ds ≡ ok v
    → Reads (decode_deltas (length ds)) v ds
unfolding decode_deltas encode_deltas
Reads-decode_deltas [] h e = rw (sym (ok-injective e)) (Reads-pure [])
Reads-decode_deltas (d ∷ ds) (hd, hds) e =
    let (k, ek, more) = >>=-eq-ok (u16_try_from (length d.prefix)) _ e in
    let (w, ew, last) = >>=-eq-ok (encode_deltas ds) _ more in
    rw (sym (ok-injective last)) (
      Reads-bind _ (Reads-decode_delta d hd ek)
        (Reads-last (λ r. d ∷ r) (Reads-decode_deltas ds hds ew)))

Reads-decode_entries :
    (es : List RemapEntry) {v : List ℕ}
    → All IsEntry es
    → encode_entries es ≡ ok v
    → Reads (decode_entries (length es)) v es
unfolding decode_entries encode_entries
Reads-decode_entries [] h e = rw (sym (ok-injective e)) (Reads-pure [])
Reads-decode_entries (x ∷ es) (hx, hes) e =
    let (k, ek, more) = >>=-eq-ok (u16_try_from (length x.key)) _ e in
    let (w, ew, last) = >>=-eq-ok (encode_entries es) _ more in
    rw (sym (ok-injective last)) (
      Reads-bind _ (Reads-decode_entry x hx ek)
        (Reads-last (λ r. x ∷ r) (Reads-decode_entries es hes ew)))

-- `v` decodes to `rec`, whatever follows it.
abbrev Decodes : List ℕ → Record → Type 0
Decodes v rec = (rest : List ℕ) → decode_record (v ++ rest) ≡ ok rec

Decodes-tag :
    (tag : ℕ) (bs : List ℕ) {rec : Record}
    → Reads (decode_fields tag) bs rec
    → Decodes (tag ∷ bs) rec
unfolding decode_record
Decodes-tag tag bs h rest =
    let whole = Reads-bind (λ t. decode_fields (get_or t 0 0)) (Reads-take_bytes (tag ∷ [])) h in
    rw (whole.on rest, decode_record)

Decodes-encode_fields :
    (rec : Record) {v : List ℕ} → IsRecord rec → encode_fields rec ≡ ok v → Decodes v rec
unfolding encode_fields decode_fields decode_put decode_commit decode_seal decode_agg decode_swap
    decode_remap
Decodes-encode_fields (put key len stripe_id) (text, hl, hs) e =
    let (k, ek, last) = >>=-eq-ok (u16_try_from (length key)) _ e in
    rw (sym (ok-injective last)) (
      Decodes-tag tag_put _ (
        Reads-bind _ (Reads-take_u64 stripe_id hs) (
          Reads-bind _ (Reads-take_u32 len hl)
            (Reads-text key (λ k'. put k' len stripe_id) text ek))))
Decodes-encode_fields (commit lsn) h e =
    rw (sym (ok-injective e)) (Decodes-tag tag_commit _ (Reads-last commit (Reads-take_u64 lsn h)))
Decodes-encode_fields (segment_seal id next) (hi, hn) e = rw (sym (ok-injective e)) (
    Decodes-tag tag_seal _
      (Reads-bind _ (Reads-take_u64 id hi) (Reads-last (segment_seal id) (Reads-take_u64 next hn))))
Decodes-encode_fields (agg_delta deltas) h e =
    let (k, ek, more) = >>=-eq-ok (u16_try_from (length deltas)) _ e in
    let (w, ew, last) = >>=-eq-ok (encode_deltas deltas) _ more in
    let (small, same) = u16_try_from-eq-ok (length deltas) ek in
    rw (sym (ok-injective last)) (
      rw same (
        Decodes-tag tag_agg _ (
          Reads-bind _ (Reads-take_u16 (length deltas) small)
            (Reads-last agg_delta (Reads-decode_deltas deltas h ew)))))
Decodes-encode_fields (segment_swap old new) (ho, hn) e = rw (sym (ok-injective e)) (
    Decodes-tag tag_swap _ (
      Reads-bind _ (Reads-take_u64 old ho) (Reads-last (segment_swap old) (Reads-take_u64 new hn))))
Decodes-encode_fields (segment_remap new entries) (hn, hes) e =
    let (k, ek, more) = >>=-eq-ok (u16_try_from (length entries)) _ e in
    let (w, ew, last) = >>=-eq-ok (encode_entries entries) _ more in
    let (small, same) = u16_try_from-eq-ok (length entries) ek in
    rw (sym (ok-injective last)) (
      rw same (
        Decodes-tag tag_remap _ (
          Reads-bind _ (Reads-take_u64 new hn) (
            Reads-bind _ (Reads-take_u16 (length entries) small)
              (Reads-last (segment_remap new) (Reads-decode_entries entries hes ew))))))

-- If the fields of a record hold what their Rust types hold and `encode_record` accepts the record,
-- `decode_record` reads it back from the bytes, whatever bytes follow them.
pub decode_record-encode_record :
    (rec : Record) (v rest : List ℕ)
    → IsRecord rec
    → encode_record rec ≡ ok v
    → decode_record (v ++ rest) ≡ ok rec
unfolding encode_record
decode_record-encode_record rec v rest h e =
    let (w, ew, fits) = >>=-eq-ok (encode_fields rec) _ e in
    Decodes-encode_fields rec h (rw ew (fits_same w v fits)) rest
  where
    fits_same :
        (w v : List ℕ)
        → (if ltb payload_max (length w) then err record_too_large else ok w) ≡ ok v
        → ok w ≡ ok v
    fits_same w v f = ground arith
