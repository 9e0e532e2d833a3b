-- ===== src/Wal/Startup/Fresh.antt =====
-- That the writer starts with numbers that the directory does not hold yet.
use ingest4x.Prelude.{
  ℕ, ◌+◌, ◌-◌, ◌<◌, ◌≤◌, ◌^◌, ◌≡◌, refl, Option, none, some, List, [], ◌∷◌, arith, All, max, subst,
}
use ingest4x.Prelude.Int.{wrap_add}
use ingest4x.Text.{Text}
use ingest4x.Result.{Result, ok, bind_elim, IoError}
use ingest4x.Wal.Record.{WalRecord, Codec}
use ingest4x.Wal.Segment.{segment_path}
use ingest4x.Wal.Scan.{scan_segment, SegmentScan}
use ingest4x.Wal.Log.{Segments, max_lsn}
use ingest4x.Wal.Log.Retention.{max_lsn-All, max_lsn_below}
use ingest4x.Wal.Checkpoint.{WalCheckpoint}
use ingest4x.Wal.Startup.{
  last_segment_id, recover_active_segment_id, next_segment, larger, checkpoint_lsn_of, log_max_lsn,
  recover_next_lsn,
}

-- The LSNs of all records that can be read from the files are below the limit.
abbrev pub LsnsBelow : Codec → Text → ℕ → Segments → Type 0
LsnsBelow c dir limit = All (λ s.
    (scan : SegmentScan)
    → scan_segment c (segment_path dir s.0) s.1 ≡ ok scan
    → All (λ r. r.lsn < limit) scan.records)

lsns_raise :
    (m n : ℕ) (rs : List WalRecord) → m < n → All (λ r. r.lsn ≤ m) rs → All (λ r. r.lsn < n) rs
lsns_raise m n [] h a = tt
lsns_raise m n (r ∷ rs) h a = (omega arith, lsns_raise m n rs h a.1)

module _ (c : Codec) (dir : Text) where
  same_scan : {a b : SegmentScan} {o : Result IoError SegmentScan} → o ≡ ok a → o ≡ ok b → a ≡ b
  same_scan p q = cc

  log_max_lsn-LsnsBelow :
      (segments : Segments) (m n : ℕ)
      → log_max_lsn c dir segments ≡ ok m
      → m < n
      → LsnsBelow c dir n segments
  unfolding log_max_lsn
  log_max_lsn-LsnsBelow [] m n h l = tt
  log_max_lsn-LsnsBelow ((id, file) ∷ ss) m n h l =
      bind_elim (scan_segment c (segment_path dir id) file) _ h λ scan e1 h1.
        bind_elim (log_max_lsn c dir ss) _ h1 λ k e2 h2.
          let q : max (max_lsn scan.records) k ≡ m = cc in
          (
            (λ t e. lsns_raise m n t.records l (
                max_lsn-All t.records m
                  (subst (λ t'. max_lsn t'.records ≤ m) (same_scan e1 e) (omega (arith, q))))),
            log_max_lsn-LsnsBelow ss k n e2 (omega (arith, q)),
          )

  log_max_lsn_below :
      (segments : Segments) (m limit : ℕ)
      → log_max_lsn c dir segments ≡ ok m
      → 0 < limit
      → LsnsBelow c dir limit segments
      → m < limit
  unfolding log_max_lsn
  log_max_lsn_below [] m limit h p a = let q : 0 ≡ m = cc in omega (arith, q)
  log_max_lsn_below ((id, file) ∷ ss) m limit h p a =
      bind_elim (scan_segment c (segment_path dir id) file) _ h λ scan e1 h1.
        bind_elim (log_max_lsn c dir ss) _ h1 λ k e2 h2.
          let q : max (max_lsn scan.records) k ≡ m = cc in
          omega (
            arith,
            q,
            max_lsn_below limit scan.records p (a.0 scan e1),
            log_max_lsn_below ss k limit e2 p a.1,
          )

-- The writer's next LSN is above the LSN of every record that can be read from the directory and above
-- the checkpoint's, provided that these are below 2 ^ 64 - 1.
pub recover_next_lsn_fresh :
    (c : Codec) (dir : Text) (segments : Segments) (checkpoint : Option WalCheckpoint) (n : ℕ)
    → LsnsBelow c dir (2 ^ 64 - 1) segments
    → checkpoint_lsn_of checkpoint < 2 ^ 64 - 1
    → recover_next_lsn c dir segments checkpoint ≡ ok n
    → LsnsBelow c dir n segments × (checkpoint_lsn_of checkpoint < n)
unfolding recover_next_lsn
recover_next_lsn_fresh c dir segments checkpoint n a b h =
    bind_elim (log_max_lsn c dir segments) _ h λ m e h1.
      let below : m < 2 ^ 64 - 1 =
        log_max_lsn_below c dir segments m (2 ^ 64 - 1) e (omega arith) a in
      let q : wrap_add (max m (checkpoint_lsn_of checkpoint)) 1 ≡ n = cc in
      let k : max m (checkpoint_lsn_of checkpoint) + 1 ≡ n = omega (arith, q, below, b) in
      (log_max_lsn-LsnsBelow c dir segments m n e (omega (arith, k)), omega (arith, k))

none_not_some : {m : ℕ} → ◌≡◌ {A = Option ℕ} none (some m) → ⊥
none_not_some h = cc

some_value : {l m : ℕ} → ◌≡◌ {A = Option ℕ} (some l) (some m) → l ≡ m
some_value h = cc

-- The segment's id is at most the limit.
abbrev pub IdsUpTo : ℕ → Segments → Type 0
IdsUpTo n = All (λ s. s.0 ≤ n)

IdsUpTo-mono : (m n : ℕ) (ss : Segments) → m ≤ n → IdsUpTo m ss → IdsUpTo n ss
IdsUpTo-mono m n [] h a = tt
IdsUpTo-mono m n (s ∷ ss) h a = (omega arith, IdsUpTo-mono m n ss h a.1)

last_segment_id-bounds :
    (ss : Segments) (n : ℕ) → ((m : ℕ) → last_segment_id ss ≡ some m → m ≤ n) → IdsUpTo n ss
unfolding last_segment_id
last_segment_id-bounds [] n h = tt
last_segment_id-bounds ((id, file) ∷ ss) n h =
    go (last_segment_id ss) refl h (last_segment_id-bounds ss n)
  where
    go :
        (o : Option ℕ)
        → last_segment_id ss ≡ o
        → ((m : ℕ)
            → ◌≡◌ {A = Option ℕ} (elim o [ none ↦ some id | some m ↦ some (max id m) ]) (some m)
            → m ≤ n)
        → (((m : ℕ) → last_segment_id ss ≡ some m → m ≤ n) → IdsUpTo n ss)
        → IdsUpTo n ((id, file) ∷ ss)
    go none e k ih = (k id refl, ih (λ m q. absurd (none_not_some (rw e at q))))
    go (some l) e k ih =
        let b : max id l ≤ n = k (max id l) refl in
        (
          omega (arith, b),
          ih (λ m q. let same : l ≡ m = some_value (rw e at q) in omega (arith, b, same)),
        )

-- The active segment is none before the last file, and it lies behind the checkpoint's segment, if that
-- is below 2 ^ 64 - 1.
pub recover_active_segment_id_last :
    (segments : Segments) (checkpoint : Option WalCheckpoint)
    → IdsUpTo (recover_active_segment_id segments checkpoint) segments
      × ((k : WalCheckpoint)
          → checkpoint ≡ some k
          → k.checkpoint_segment_id < 2 ^ 64 - 1
          → k.checkpoint_segment_id < recover_active_segment_id segments checkpoint)
unfolding recover_active_segment_id
recover_active_segment_id_last segments checkpoint = (
  last_segment_id-bounds segments _ (λ m e. rw e (largest m checkpoint)),
  λ k e h. rw e (behind k h (last_segment_id segments)),
)
  where
    largest : (m : ℕ) (o : Option WalCheckpoint) → m ≤ larger (some m) (next_segment o)
    largest m none = omega arith
    largest m (some k) = omega arith

    behind :
        (k : WalCheckpoint)
        → k.checkpoint_segment_id < 2 ^ 64 - 1
        → (o : Option ℕ) → k.checkpoint_segment_id < larger o (next_segment (some k))
    behind k h none = omega arith
    behind k h (some m) = omega arith

pub recover_next_lsn-fits :
    (c : Codec) (dir : Text) (ss : Segments) (checkpoint : Option WalCheckpoint) (next : ℕ)
    → recover_next_lsn c dir ss checkpoint ≡ ok next
    → next < 2 ^ 64
unfolding recover_next_lsn
recover_next_lsn-fits c dir ss checkpoint next h =
    bind_elim (log_max_lsn c dir ss) (λ m. ok (wrap_add (max m (checkpoint_lsn_of checkpoint)) 1)) h
      (λ m e q.
        let n : wrap_add (max m (checkpoint_lsn_of checkpoint)) 1 ≡ next = cc in omega (arith, n))
