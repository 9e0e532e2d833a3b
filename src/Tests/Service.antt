-- ===== src/Tests/Service.antt =====
-- The theorems on the registry, at a database whose version changes under the first reading.
use ingest4x.Prelude.{
  ℕ, zero, suc, ◌+◌, ◌≤◌, ◌<◌, ◌≡◌, refl, sym, ap, ◌∙◌, true, false, some, List, [], ◌∷◌, arith,
  ◌==◌, if◌then◌else◌,
}
use ingest4x.Prelude.Int.{pos}
use ingest4x.Text.{Text, trim}
use ingest4x.Result.{Result, ok}
use ingest4x.Services.Project.{
  Project, token_auth, Registry, snapshot_of, project_by_key, apply_snapshot_if_newer, Repository,
  load_snapshot,
}
use ingest4x.Services.Project.Reached.{
  OneOf, IsVersioned, IsSnapshot, Refreshes, loaded, handed_over, Refreshes-IsSnapshot,
  load_snapshot_ends,
}

abbrev pub some_project : ℕ → Project
some_project n = record {
  id = pos n;
  ingest_token = 116 ∷ n ∷ [];
  project_key = 107 ∷ n ∷ [];
  auth_mode = token_auth;
  allowed_ips = [];
  project_name = [];
  enabled = true;
  created_at = pos 0;
  updated_at = pos 0;
}

abbrev contents : ℕ → List Project
contents v = some_project v ∷ []

abbrev version_at : ℕ → ℕ
version_at n = if n == 0 then 1 else 2

abbrev database : Repository Text
database = record {
  projects_version = λ n. ok (version_at n);
  list_enabled_projects = λ n. ok (contents (version_at n));
}

ok_value : {A : Type 0} (a b : A) → ◌≡◌ {A = Result Text A} (ok a) (ok b) → a ≡ b
ok_value a b h = cc

version_later : (n : ℕ) → 0 < n → version_at n ≡ 2
version_later n h = let e : (n == 0) ≡ false = ground arith in rw (e) refl

database-IsVersioned : IsVersioned database contents
database-IsVersioned zero v ps p q r =
    absurd (let c : 1 ≡ v = ok_value 1 v p in let d : 2 ≡ v = ok_value 2 v r in omega (arith, c, d))
database-IsVersioned (suc n) v ps p q r =
    let d : 2 ≡ v = ok_value 2 v (sym (ap ok (version_later (suc n) (omega arith))) ∙ p) in
    let e : contents (version_at (suc n + 1)) ≡ ps =
      ok_value (contents (version_at (suc n + 1))) ps q in
    sym e ∙ ap contents (version_later (suc n + 1) (omega arith) ∙ d)

abbrev start : Registry
start = snapshot_of (contents 1) 1

abbrev refreshed : Registry
refreshed = (apply_snapshot_if_newer (snapshot_of (contents 2) 2) start).1

one_refresh : Refreshes database contents start refreshed
unfolding load_snapshot
one_refresh = handed_over 2 0 6 (snapshot_of (contents 2) 2) loaded refl

Refreshes-IsSnapshot_example :
    IsSnapshot database contents refreshed
    × (start.version ≤ refreshed.version)
    × ((key : Text) (p : Project)
        → project_by_key refreshed key ≡ some p
        → OneOf p (contents refreshed.version) × (p.project_key ≡ trim key))
Refreshes-IsSnapshot_example =
    Refreshes-IsSnapshot database contents start refreshed database-IsVersioned refl one_refresh

load_snapshot_ends_example :
    (result : Result Text Registry × ℕ) × (load_snapshot database 2 0 ≡ some result)
load_snapshot_ends_example = load_snapshot_ends database 1 0 refl
