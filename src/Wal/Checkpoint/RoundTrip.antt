-- ===== src/Wal/Checkpoint/RoundTrip.antt =====
-- What is read after a checkpoint was written.
use ingest4x.Prelude.{ℕ, ◌≡◌, refl, sym, ap, ◌∙◌, subst, Option, none, some, ==_refl, if◌then◌else◌}
use ingest4x.Bytes.{Bytes}
use ingest4x.Bytes.Laws.{bytes_eq_refl}
use ingest4x.Text.{Text}
use ingest4x.Result.{Result, ok, err, map_err, IoError, other_error, bind_elim}
use ingest4x.Wal.Record.{WalPosition, WalBounds}
use ingest4x.Wal.Checkpoint.{
  WalCheckpoint, CheckpointFormat, IsFormat, CheckpointFiles, AutoOffsetReset, WriteFault,
  before_rename, after_rename, position_of, checkpoint_before_wal_floor, compute_checksum,
  new_checkpoint, read_node_id, validate_checkpoint, store, write_checkpoint, reset_checkpoint,
  load_checkpoint, read_file, read_checkpoint,
}

map_err_ok :
    {E F : Type 0} {A : Type 0} (g : E → F) (r : Result E A) (a : A) → map_err g r ≡ ok a → r ≡ ok a
map_err_ok g (ok x) a h = cc
map_err_ok g (err e) a h = cc

module _ (f : CheckpointFormat) (law : IsFormat f) (p : WalPosition) (now : ℕ) where
  abbrev unsigned : Text → WalCheckpoint
  unsigned node_id = record {
    version = 1;
    node_id = node_id;
    sink_id = none;
    checkpoint_lsn = p.lsn;
    checkpoint_segment_id = p.segment;
    checkpoint_segment_offset = p.offset;
    updated_at = now;
    checksum = 0;
  }

  checksum_stays :
      (c : WalCheckpoint) (n : ℕ)
      → compute_checksum f (record c { checksum = n }) ≡ compute_checksum f c
  unfolding compute_checksum
  checksum_stays c n = rw (law.no_checksum c n)

  -- A new checkpoint holds the position, and its checksum is the one that a reader computes.
  new_checkpoint_fields :
      (node_id : Text) (c : WalCheckpoint)
      → new_checkpoint f p node_id now ≡ ok c
      → (position_of c ≡ p)
        × (c.node_id ≡ node_id)
        × (c.sink_id ≡ none)
        × (compute_checksum f c ≡ ok c.checksum)
  unfolding new_checkpoint position_of
  new_checkpoint_fields node_id c h =
      bind_elim (compute_checksum f (unsigned node_id)) _ h λ n e e'.
        let u : WalCheckpoint = unsigned node_id in
        let q : record u { checksum = n } ≡ c = cc in
        subst
          (λ t.
            (position_of t ≡ p)
            × (t.node_id ≡ node_id)
            × (t.sink_id ≡ none)
            × (compute_checksum f t ≡ ok t.checksum))
          q (refl, refl, refl, checksum_stays (unsigned node_id) n ∙ e)

-- What a successful write leaves is what the next read gives.
module _ (f : CheckpointFormat) (law : IsFormat f) (d : CheckpointFiles) (p : WalPosition) (now : ℕ)
    (d' : CheckpointFiles) where
  -- The parts of a write that succeeded.
  record IsWritten : Type 0 where
    node_id : Text
    checkpoint : WalCheckpoint
    bytes : Bytes
    node_read : read_node_id f d ≡ ok node_id
    made : new_checkpoint f p node_id now ≡ ok checkpoint
    encoded : f.to_json checkpoint ≡ ok bytes
    files : d' ≡ record d { checkpoint_file = some bytes }

  store_ok :
      (r : Result IoError Bytes) (fault : Option WriteFault)
      → store f r fault d ≡ (ok tt, d')
      → (bs : Bytes) × (r ≡ ok bs) × (d' ≡ record d { checkpoint_file = some bs })
  store_ok (err e) fault h = cc (ap (λ (t : Result IoError (Unit {0}) × CheckpointFiles). t.0) h)
  store_ok (ok bs) none h =
      (bs, refl, sym (ap (λ (t : Result IoError (Unit {0}) × CheckpointFiles). t.1) h))
  store_ok (ok bs) (some (before_rename e)) h =
      cc (ap (λ (t : Result IoError (Unit {0}) × CheckpointFiles). t.0) h)
  store_ok (ok bs) (some (after_rename e)) h =
      cc (ap (λ (t : Result IoError (Unit {0}) × CheckpointFiles). t.0) h)

  write_checkpoint-IsWritten :
      (fault : Option WriteFault) → write_checkpoint f p now fault d ≡ (ok tt, d') → IsWritten
  unfolding write_checkpoint
  write_checkpoint-IsWritten fault h =
      let (bs, made, files) = store_ok _ fault h in
      bind_elim (read_node_id f d) _ made λ node e1 h1.
        bind_elim (new_checkpoint f p node now) _ h1 λ c e2 h2. record {
          node_id = node;
          checkpoint = c;
          bytes = bs;
          node_read = e1;
          made = e2;
          encoded = map_err_ok other_error (f.to_json c) bs h2;
          files = files;
        }

  node_read_again : (w : IsWritten) → read_node_id f d' ≡ ok w.node_id
  unfolding read_node_id
  node_read_again w = rw w.files w.node_read

  load-written : (w : IsWritten) (path : Text) → load_checkpoint f d' w.bytes path ≡ ok w.checkpoint
  unfolding load_checkpoint validate_checkpoint
  load-written w path =
      let (pos, node, sink, sum) =
        new_checkpoint_fields f law p now w.node_id w.checkpoint w.made in
      rw (law.round_trip w.checkpoint w.bytes w.encoded) (
        rw sum (
          rw (==_refl w.checkpoint.checksum)
            (rw (node_read_again w, node) (rw (bytes_eq_refl w.node_id) (rw sink)))))

-- A checkpoint that was written is the one that the next read gives, unless the log now begins behind
-- it: then the policy of the sinks decides, as for a missing file.
pub read-write_checkpoint :
    (f : CheckpointFormat) (d d' : CheckpointFiles) (p : WalPosition) (now later : ℕ)
    (fault fault' : Option WriteFault) (path : Text) (reset : AutoOffsetReset) (b : WalBounds)
    → IsFormat f
    → write_checkpoint f p now fault d ≡ (ok tt, d')
    → read_checkpoint f path reset b later fault' d' ≡ (
        if checkpoint_before_wal_floor p b
        then reset_checkpoint f reset b later fault' d'
        else (ok (some p), d'))
unfolding read_checkpoint
read-write_checkpoint f d d' p now later fault fault' path reset b law h =
    let w = write_checkpoint-IsWritten f law d p now d' fault h in
    let pos : position_of w.checkpoint ≡ p =
      (new_checkpoint_fields f law p now w.node_id w.checkpoint w.made).0 in
    let there : d'.checkpoint_file ≡ some w.bytes =
      ap (λ (t : CheckpointFiles). t.checkpoint_file) w.files in
    subst
      (λ o. read_file f o path reset b later fault' d' ≡ (
        if checkpoint_before_wal_floor p b
        then reset_checkpoint f reset b later fault' d'
        else (ok (some p), d')))
      (sym there) (rw (load-written f law d p now d' w path) (rw pos))
