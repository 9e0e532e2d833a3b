-- ===== src/Wal/Files.antt =====
-- The segment files of a directory of src/wal/mod.rs by their ids: what a path names, a file that is
-- written and a file that is removed.
use ingest4x.Prelude.{ℕ, ◌≡◌, refl, Option, none, some, [], ◌∷◌, ◌==◌, arith, if◌then◌else◌}
use ingest4x.Bytes.{Bytes}
use ingest4x.Wal.Log.{Segments}

unfoldable pub find_file : ℕ → Segments → Option Bytes
find_file i [] = none
find_file i ((j, f) ∷ ss) = if j == i then some f else find_file i ss

-- The file of the id gets these bytes; a new file is the last that `read_dir` gives.
unfoldable pub put_file : ℕ → Bytes → Segments → Segments
put_file i f [] = (i, f) ∷ []
put_file i f ((j, g) ∷ ss) = if j == i then (i, f) ∷ ss else (j, g) ∷ put_file i f ss

unfoldable pub drop_file : ℕ → Segments → Segments
drop_file i [] = []
drop_file i ((j, g) ∷ ss) = let rest = drop_file i ss in if j == i then rest else (j, g) ∷ rest

pub find_file-put_file :
    (i j : ℕ) (f : Bytes) (ss : Segments)
    → find_file j (put_file i f ss) ≡ (if i == j then some f else find_file j ss)
unfolding find_file put_file
find_file-put_file i j f [] = refl
find_file-put_file i j f ((k, g) ∷ ss) = ground (arith, find_file-put_file i j f ss)

pub find_file-drop_file :
    (i j : ℕ) (ss : Segments)
    → find_file j (drop_file i ss) ≡ (if i == j then none else find_file j ss)
unfolding find_file drop_file
find_file-drop_file i j [] = ground arith
find_file-drop_file i j ((k, g) ∷ ss) = ground (arith, find_file-drop_file i j ss)

-- The same files under the same ids.
abbrev pub SameFiles : Segments → Segments → Type 0
SameFiles ss ts = (i : ℕ) → find_file i ss ≡ find_file i ts
