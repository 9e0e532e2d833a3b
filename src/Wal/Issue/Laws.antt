-- ===== src/Wal/Issue/Laws.antt =====
-- How issues are classified.
use ingest4x.Prelude.{◌≡◌, true, [], ◌∷◌, ◌++◌, String, arith}
use ingest4x.Text.{Text, codes, contains}
use ingest4x.Result.{data_error}
use ingest4x.Wal.Issue.{issue_code, wal_read_failed}

-- A needle found in the end of a text is found in the text.
contains-append : (n s t : Text) → contains n t ≡ true → contains n (s ++ t) ≡ true
unfolding contains
contains-append n [] t h = h
contains-append n (c ∷ s) t h = ground (arith, contains-append n s t h)

-- An error of invalid data whose path contains "crc mismatch" is reported as a CRC mismatch, whatever its text says.
pub wal_read_failed_by_path :
    (text : String) (path : Text)
    → contains (codes "crc mismatch") path ≡ true
    → issue_code (wal_read_failed (data_error text path)) ≡ codes "replay_wal_crc_mismatch"
unfolding wal_read_failed issue_code data_error
wal_read_failed_by_path text path h =
    rw (contains-append (codes "crc mismatch") (codes text) path h)
