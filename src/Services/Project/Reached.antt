-- ===== src/Services/Project/Reached.antt =====
-- The registry under refreshes that may finish in any order: src/services/project.rs.
use ingest4x.Prelude.{
  ℕ, zero, suc, ◌+◌, ◌≤◌, ◌*◌, ◌≡◌, ◌⊎◌, inl, inr, refl, sym, ap, ◌∙◌, subst, Bool, true, false,
  none, some, List, [], ◌∷◌, leb, ◌==◌, ==_eq, ==_refl, Bool-cases, arith, if◌then◌else◌,
}
use ingest4x.Bytes.Laws.{bytes_eq_iff}
use ingest4x.Text.{Text, text_eq, trim}
use ingest4x.Result.{Result, ok, err}
use ingest4x.Services.Project.{
  Project, Table, find_project, put_project, Registry, collect_table, snapshot_of, project_by_key,
  apply_snapshot_if_newer, Repository, Loaded, unchanged, listed, read_version, load_snapshot,
}

abbrev pub OneOf : Project → List Project → Type 0
OneOf p [] = ⊥
OneOf p (q ∷ qs) = (q ≡ p) ⊎ OneOf p qs

module _ {E : Type 0} (repository : Repository E) (contents : ℕ → List Project) where
  -- What the database keeps: a list that was read between two readings of one version is that version's.
  abbrev pub IsVersioned : Type 0
  IsVersioned =
      (n v : ℕ) (ps : List Project)
      → repository.projects_version n ≡ ok v
      → repository.list_enabled_projects (n + 1) ≡ ok ps
      → repository.projects_version ((n + 1) + 1) ≡ ok v
      → ps ≡ contents v

  -- The tables are those of the version.
  abbrev pub IsSnapshot : Registry → Type 0
  IsSnapshot r = r ≡ snapshot_of (contents r.version) r.version

  -- A snapshot that some refresh has read, at whatever time, is handed over.
  pub data Refreshes (start : Registry) : Registry → Type 0 where
    loaded : Refreshes start start
    handed_over :
        {r : Registry} (fuel n m : ℕ) (snapshot : Registry)
        → Refreshes start r
        → load_snapshot repository fuel n ≡ some (ok snapshot, m)
        → Refreshes start (apply_snapshot_if_newer snapshot r).1

  load_snapshot-IsSnapshot :
      (versioned : IsVersioned) (fuel n m : ℕ) (r : Registry)
      → load_snapshot repository fuel n ≡ some (ok r, m)
      → IsSnapshot r
  unfolding load_snapshot
  load_snapshot-IsSnapshot versioned zero n m r h = absurd (let c : ⊥ = cc in c)
  load_snapshot-IsSnapshot versioned (suc fuel) n m r h =
      first (repository.projects_version n) refl h
        (load_snapshot-IsSnapshot versioned fuel (n + 3) m r)
    where
      later : Loaded repository
      later = load_snapshot repository fuel (n + 3)

      last :
          (before : ℕ) (ps : List Project) (after : ℕ)
          → repository.projects_version n ≡ ok before
          → repository.list_enabled_projects (n + 1) ≡ ok ps
          → repository.projects_version ((n + 1) + 1) ≡ ok after
          → (b : Bool) → (before == after) ≡ b
          → (if b then some (ok (snapshot_of ps after), ((n + 1) + 1) + 1) else later)
            ≡ some (ok r, m)
          → (later ≡ some (ok r, m) → IsSnapshot r)
          → IsSnapshot r
      last before ps after e1 e2 e3 false q h ih = ih h
      last before ps after e1 e2 e3 true q h ih =
          let v : before ≡ after = ==_eq before after q in
          let same : ps ≡ contents after = versioned n after ps (e1 ∙ ap ok v) e2 e3 in
          let taken : snapshot_of ps after ≡ r = cc in
          subst IsSnapshot taken (ap (λ qs. snapshot_of qs after) same)

      third :
          (before : ℕ) (ps : List Project) (x : Result E ℕ)
          → repository.projects_version n ≡ ok before
          → repository.list_enabled_projects (n + 1) ≡ ok ps
          → repository.projects_version ((n + 1) + 1) ≡ x
          → unchanged repository before ps x (((n + 1) + 1) + 1) later ≡ some (ok r, m)
          → (later ≡ some (ok r, m) → IsSnapshot r)
          → IsSnapshot r
      third before ps (err x) e1 e2 e3 h ih = absurd (let c : ⊥ = cc in c)
      third before ps (ok after) e1 e2 e3 h ih =
          last before ps after e1 e2 e3 (before == after) refl h ih

      second :
          (before : ℕ) (x : Result E (List Project))
          → repository.projects_version n ≡ ok before
          → repository.list_enabled_projects (n + 1) ≡ x
          → listed repository before x ((n + 1) + 1) later ≡ some (ok r, m)
          → (later ≡ some (ok r, m) → IsSnapshot r)
          → IsSnapshot r
      second before (err x) e1 e2 h ih = absurd (let c : ⊥ = cc in c)
      second before (ok ps) e1 e2 h ih =
          third before ps (repository.projects_version ((n + 1) + 1)) e1 e2 refl h ih

      first :
          (x : Result E ℕ)
          → repository.projects_version n ≡ x
          → read_version repository x (n + 1) later ≡ some (ok r, m)
          → (later ≡ some (ok r, m) → IsSnapshot r)
          → IsSnapshot r
      first (err x) e h ih = absurd (let c : ⊥ = cc in c)
      first (ok before) e h ih =
          second before (repository.list_enabled_projects (n + 1)) e refl h ih

  apply-IsSnapshot :
      (snapshot r : Registry)
      → IsSnapshot snapshot
      → IsSnapshot r
      → IsSnapshot (apply_snapshot_if_newer snapshot r).1
        × (r.version ≤ (apply_snapshot_if_newer snapshot r).1.version)
  unfolding apply_snapshot_if_newer
  apply-IsSnapshot snapshot r p q = elim (Bool-cases (leb snapshot.version r.version)) [
    | inl e ↦ rw (e) ((q, omega arith))
    | inr e ↦ rw (e) ((p, ground (arith, e)))
  ]

  reached :
      (versioned : IsVersioned) (start r : Registry)
      → IsSnapshot start
      → Refreshes start r
      → IsSnapshot r × (start.version ≤ r.version)
  reached versioned start _ s loaded = (s, omega arith)
  reached versioned start _ s (handed_over {r = u} fuel n m snapshot before e) =
      let (p, l) = reached versioned start u s before in
      let (q, k) =
        apply-IsSnapshot snapshot u (load_snapshot-IsSnapshot versioned fuel n m snapshot e) p in
      (q, omega (arith, l, k))

find_project-put_project :
    (j k : Text) (p : Project) (t : Table)
    → find_project k (put_project j p t) ≡ (if text_eq j k then some p else find_project k t)
unfolding find_project put_project
find_project-put_project j k p [] = refl
find_project-put_project j k p ((i, q) ∷ t) = elim (Bool-cases (text_eq i j)) [
  | inl e ↦
      let same : i ≡ j = (bytes_eq_iff i j).0 e in
      elim (Bool-cases (text_eq j k)) [
        | inl c ↦ rw (e, c)
        | inr c ↦ let d : text_eq i k ≡ false = rw (same) c in rw (e, c, d)
      ]
  | inr e ↦ elim (Bool-cases (text_eq i k)) [
    | inl c ↦ let d : text_eq j k ≡ false = other i j k e c in rw (e, c, d)
    | inr c ↦ rw (e, c) (find_project-put_project j k p t)
  ]
]
  where
    other : (i j k : Text) → text_eq i j ≡ false → text_eq i k ≡ true → text_eq j k ≡ false
    other i j k e c = elim (Bool-cases (text_eq j k)) [
      | inl d ↦
          let same : i ≡ j = (bytes_eq_iff i k).0 c ∙ sym ((bytes_eq_iff j k).0 d) in
          let yes_same : text_eq i j ≡ true = (bytes_eq_iff i j).1 same in
          absurd (let x : ⊥ = cc in x)
      | inr d ↦ d
    ]

find_project-collect_table :
    (key : Project → Text) (k : Text) (p : Project) (ps : List Project) (t : Table)
    → find_project k (collect_table key ps t) ≡ some p
    → (OneOf p ps × (key p ≡ k)) ⊎ (find_project k t ≡ some p)
unfolding collect_table
find_project-collect_table key k p [] t h = inr h
find_project-collect_table key k p (q ∷ qs) t h =
    go (find_project-collect_table key k p qs (put_project (key q) q t) h)
  where
    found_here :
        (b : Bool)
        → text_eq (key q) k ≡ b
        → (if b then some q else find_project k t) ≡ some p
        → (OneOf p (q ∷ qs) × (key p ≡ k)) ⊎ (find_project k t ≡ some p)
    found_here true e f =
        let same : q ≡ p = cc in
        inl (inl same, subst (λ x. key x ≡ k) same ((bytes_eq_iff (key q) k).0 e))
    found_here false e f = inr f

    go :
        (OneOf p qs × (key p ≡ k)) ⊎ (find_project k (put_project (key q) q t) ≡ some p)
        → (OneOf p (q ∷ qs) × (key p ≡ k)) ⊎ (find_project k t ≡ some p)
    go (inl (o, e)) = inl (inr o, e)
    go (inr f) =
        found_here (text_eq (key q) k) refl (sym (find_project-put_project (key q) k q t) ∙ f)

project_by_key-OneOf :
    (ps : List Project) (version : ℕ) (key : Text) (p : Project)
    → project_by_key (snapshot_of ps version) key ≡ some p
    → OneOf p ps × (p.project_key ≡ trim key)
unfolding project_by_key find_project
project_by_key-OneOf ps version key p h =
    go (find_project-collect_table (λ q. q.project_key) (trim key) p ps [] h)
  where
    go :
        (OneOf p ps × (p.project_key ≡ trim key)) ⊎ (none ≡ some p)
        → OneOf p ps × (p.project_key ≡ trim key)
    go (inl x) = x
    go (inr e) = absurd (let c : ⊥ = cc in c)

-- Let the list that the database gives between two readings of one version be that version's, and let the
-- registry begin with the tables of a version. Whatever snapshots refreshes have read, and in whatever
-- order they hand them over: the version never goes back, the tables are those of the version, and a key
-- finds only a project that this version lists under the key without its spaces.
pub Refreshes-IsSnapshot :
    {E : Type 0} (repository : Repository E) (contents : ℕ → List Project) (start r : Registry)
    → IsVersioned repository contents
    → IsSnapshot repository contents start
    → Refreshes repository contents start r
    → IsSnapshot repository contents r
      × (start.version ≤ r.version)
      × ((key : Text) (p : Project)
          → project_by_key r key ≡ some p
          → OneOf p (contents r.version) × (p.project_key ≡ trim key))
Refreshes-IsSnapshot repository contents start r versioned s refreshes =
    let (q, l) = reached repository contents versioned start r s refreshes in
    (
      q,
      l,
      λ key p h.
          project_by_key-OneOf (contents r.version) r.version key p
            (subst (λ x. project_by_key x key ≡ some p) q h),
    )

module _ {E : Type 0} (repository : Repository E) where
  -- A round gives a result, or its two readings differ.
  abbrev Round : ℕ → Loaded repository → Loaded repository → Type 0
  Round n again l =
      ((result : Result E Registry × ℕ) × (l ≡ some result))
      ⊎ ((l ≡ again)
          × (repository.projects_version n ≡ repository.projects_version ((n + 1) + 1) → ⊥))

  Round-ends :
      (n : ℕ) (again : Loaded repository)
      → Round n again (read_version repository (repository.projects_version n) (n + 1) again)
  Round-ends n again = first (repository.projects_version n) refl
    where
      last :
          (before after : ℕ) (ps : List Project)
          → repository.projects_version n ≡ ok before
          → repository.projects_version ((n + 1) + 1) ≡ ok after
          → (b : Bool) → (before == after) ≡ b
          → Round n again (if b then some (ok (snapshot_of ps after), ((n + 1) + 1) + 1) else again)
      last before after ps e1 e2 true q = inl ((ok (snapshot_of ps after), ((n + 1) + 1) + 1), refl)
      last before after ps e1 e2 false q = inr (
        refl,
        λ e.
            let same : before ≡ after = cc in
            let yes_same : (before == after) ≡ true = rw (same) (==_refl after) in
            let c : ⊥ = cc in c,
      )

      third :
          (before : ℕ) (ps : List Project) (x : Result E ℕ)
          → repository.projects_version n ≡ ok before
          → repository.projects_version ((n + 1) + 1) ≡ x
          → Round n again (unchanged repository before ps x (((n + 1) + 1) + 1) again)
      third before ps (err x) e1 e2 = inl ((err x, ((n + 1) + 1) + 1), refl)
      third before ps (ok after) e1 e2 = last before after ps e1 e2 (before == after) refl

      second :
          (before : ℕ) (x : Result E (List Project))
          → repository.projects_version n ≡ ok before
          → Round n again (listed repository before x ((n + 1) + 1) again)
      second before (err x) e1 = inl ((err x, (n + 1) + 1), refl)
      second before (ok ps) e1 = third before ps (repository.projects_version ((n + 1) + 1)) e1 refl

      first :
          (x : Result E ℕ)
          → repository.projects_version n ≡ x
          → Round n again (read_version repository x (n + 1) again)
      first (err x) e = inl ((err x, n + 1), refl)
      first (ok before) e = second before (repository.list_enabled_projects (n + 1)) e

-- The loop of `load_snapshot` ends at the latest in the first round whose two readings of the version give
-- the same: where that is the round after `k` others, fuel for k + 1 rounds gives a result.
pub load_snapshot_ends :
    {E : Type 0} (repository : Repository E) (k n : ℕ)
    → repository.projects_version (n + k * 3) ≡ repository.projects_version (n + k * 3 + 2)
    → (result : Result E Registry × ℕ) × (load_snapshot repository (suc k) n ≡ some result)
unfolding load_snapshot
load_snapshot_ends repository zero n h = elim (Round-ends repository n none) [
  | inl r ↦ r
  | inr r ↦
      let a : n + zero * 3 ≡ n = omega arith in
      let b : n + zero * 3 + 2 ≡ (n + 1) + 1 = omega arith in
      absurd (r.1 (sym (ap repository.projects_version a) ∙ h ∙ ap repository.projects_version b))
]
load_snapshot_ends repository (suc k) n h =
    elim (Round-ends repository n (load_snapshot repository (suc k) (n + 3))) [
      | inl r ↦ r
      | inr r ↦
          let a : (n + 3) + k * 3 ≡ n + suc k * 3 = omega arith in
          let b : n + suc k * 3 + 2 ≡ (n + 3) + k * 3 + 2 = omega arith in
          let (result, e) =
            load_snapshot_ends repository k (n + 3)
              (ap repository.projects_version a ∙ h ∙ ap repository.projects_version b) in
          (result, r.0 ∙ e)
    ]
