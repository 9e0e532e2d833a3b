-- ===== src/Services/Project.antt =====
-- `ProjectRegistryState` of src/services/project.rs: a snapshot of the projects, its refresh from the
-- database, and the lookups. `Project` is that of src/repositories/projects.rs.
pub mod Reached
use ingest4x.Prelude.{
  ℕ, zero, suc, ◌+◌, Bool, true, false, ◌||◌, Option, none, some, List, [], ◌∷◌, leb, ltb, ◌==◌,
  if◌then◌else◌,
}
use ingest4x.Prelude.Int.{ℤ, int_eq}
use ingest4x.Text.{Text, text_eq, trim}
use ingest4x.Result.{Result, ok, err}

pub data ProjectAuthMode : Type 0 where
  token_auth public_auth : ProjectAuthMode

pub record Project : Type 0 where
  pub id : ℤ
  pub ingest_token : Text
  pub project_key : Text
  pub auth_mode : ProjectAuthMode
  pub allowed_ips : List Text
  pub project_name : Text
  pub enabled : Bool
  pub created_at : ℤ
  pub updated_at : ℤ

-- A `HashMap` of the projects
abbrev pub Table : Type 0
Table = List (Text × Project)

unfoldable pub find_project : Text → Table → Option Project
find_project k [] = none
find_project k ((j, p) ∷ t) = if text_eq j k then some p else find_project k t

-- `insert`, which replaces
unfoldable pub put_project : Text → Project → Table → Table
put_project k p [] = (k, p) ∷ []
put_project k p ((j, q) ∷ t) =
    let rest = put_project k p t in if text_eq j k then (k, p) ∷ t else (j, q) ∷ rest

pub record Registry : Type 0 where
  pub projects_by_token : Table
  pub projects_by_key : Table
  pub version : ℕ

-- `collect` of the pairs
unfoldable pub collect_table : (Project → Text) → List Project → Table → Table
collect_table key [] t = t
collect_table key (p ∷ ps) t = collect_table key ps (put_project (key p) p t)

abbrev pub snapshot_of : List Project → ℕ → Registry
snapshot_of ps version = record {
  projects_by_token = collect_table (λ p. p.ingest_token) ps [];
  projects_by_key = collect_table (λ p. p.project_key) ps [];
  version = version;
}

unfoldable pub project_by_key : Registry → Text → Option Project
project_by_key r key = find_project (trim key) r.projects_by_key

has_id : Table → ℤ → Bool
has_id [] i = false
has_id ((k, p) ∷ t) i = int_eq p.id i || has_id t i

pub contains_project_id : Registry → ℤ → Bool
unfolding has_id
contains_project_id r i = has_id r.projects_by_token i

-- The flag tells whether the snapshot was taken over.
unfoldable pub apply_snapshot_if_newer : Registry → Registry → Bool × Registry
apply_snapshot_if_newer snapshot r =
    if leb snapshot.version r.version then (false, r) else (true, snapshot)

-- What the database answers to each query: the version, and the enabled projects.
pub record Repository (E : Type 0) : Type 0 where
  pub projects_version : ℕ → Result E ℕ
  pub list_enabled_projects : ℕ → Result E (List Project)

module _ {E : Type 0} (repository : Repository E) where
  abbrev pub Loaded : Type 0
  Loaded = Option (Result E Registry × ℕ)

  abbrev pub unchanged : ℕ → List Project → Result E ℕ → ℕ → Loaded → Loaded
  unchanged before ps (err e) n again = some (err e, n)
  unchanged before ps (ok later) n again =
      if before == later then some (ok (snapshot_of ps later), n) else again

  abbrev pub listed : ℕ → Result E (List Project) → ℕ → Loaded → Loaded
  listed before (err e) n again = some (err e, n)
  listed before (ok ps) n again = unchanged before ps (repository.projects_version n) (n + 1) again

  abbrev pub read_version : Result E ℕ → ℕ → Loaded → Loaded
  read_version (err e) n again = some (err e, n)
  read_version (ok before) n again =
      listed before (repository.list_enabled_projects n) (n + 1) again

  -- The loop has no bound: on fuel. `n` is the number of the next query.
  unfoldable pub load_snapshot : ℕ → ℕ → Loaded
  load_snapshot zero n = none
  load_snapshot (suc fuel) n =
      let again = load_snapshot fuel (n + 3) in
      read_version (repository.projects_version n) (n + 1) again

  abbrev pub refreshed : Registry → Loaded → Option (Result E Bool × Registry × ℕ)
  refreshed r none = none
  refreshed r (some (err e, n)) = some (err e, r, n)
  refreshed r (some (ok snapshot, n)) =
      let (taken, r') = apply_snapshot_if_newer snapshot r in some (ok taken, r', n)

  abbrev pub compared : ℕ → ℕ → Registry → Result E ℕ → Option (Result E Bool × Registry × ℕ)
  compared fuel n r (err e) = some (err e, r, n)
  compared fuel n r (ok latest) =
      if latest == r.version then some (ok false, r, n) else refreshed r (load_snapshot fuel n)

  unfoldable pub refresh_if_needed : ℕ → ℕ → Registry → Option (Result E Bool × Registry × ℕ)
  refresh_if_needed fuel n r = compared fuel (n + 1) r (repository.projects_version n)
