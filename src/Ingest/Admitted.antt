-- ===== src/Ingest/Admitted.antt =====
-- Which requests are admitted, said without the order of the checks.
use ingest4x.Prelude.{
  ℕ, ◌≤◌, ◌≡◌, ◌⊎◌, inl, inr, refl, sym, ap, ◌∙◌, subst, Bool, true, false, ◌||◌, Option, none,
  some, List, [], ◌∷◌, length, ltb, get_or, is_empty, Bool-cases, arith, if◌then◌else◌,
}
use ingest4x.Bytes.{Bytes}
use ingest4x.Bytes.Laws.{bytes_eq_iff}
use ingest4x.Text.{Text, codes, text_eq}
use ingest4x.Result.{Result, ok, err, ◌>>=◌, ◌>>◌, guard, ok_or, map_err, bind_elim}
use ingest4x.Wal.Writer.State.{WriterEnv, WriterState}
use ingest4x.Services.Project.{
  Project, ProjectAuthMode, token_auth, public_auth, Registry, project_by_key,
}
use ingest4x.Ingest.Issue.{
  IngestIssue, project_not_found, missing_ingest_token, invalid_ingest_token, ip_not_allowed,
  payload_too_large, invalid_json, conflicting_ingest_token, into_response,
}
use ingest4x.Ingest.Request.{
  HttpRequest, Parsers, ParsedIngestRequest, then_some, get_ip, request_payload,
  ingest_token_from_request, agreed_token, request_ingest_token,
}
use ingest4x.Ingest.Endpoint.{
  is_one_of, default_max_event_bytes, by_mode, authorize_project, authenticate_project,
  validate_ingest_payload, reject_if_payload_too_large, unless, admit, record_of, answered,
  append_wal_record, admitted, ingest,
}

abbrev pub Among : Text → List Text → Type 0
Among t [] = ⊥
Among t (s ∷ ss) = (t ≡ s) ⊎ Among t ss

-- Of the tokens in the header and in the body one is given, and each one that is given is `token`.
abbrev pub GivesOnly : Text → Option Text → Option Text → Type 0
GivesOnly token header body =
    ((t : Text) → header ≡ some t → t ≡ token)
    × ((t : Text) → body ≡ some t → t ≡ token)
    × ((header ≡ some token) ⊎ (body ≡ some token))

-- The address may send, and the token, where one is asked for, is the project's and the only one given.
abbrev pub IsAuthorised :
    {V : Type 0} → Parsers V → HttpRequest → ParsedIngestRequest → Project → Type 0
IsAuthorised parsers req parsed project =
    ((project.allowed_ips ≡ []) ⊎ Among (get_or (get_ip req) []) project.allowed_ips)
    × ((project.auth_mode ≡ public_auth)
        ⊎ GivesOnly project.ingest_token (ingest_token_from_request parsers req) parsed.body_token)

pub record Accepted {V : Type 0} (parsers : Parsers V) (req : HttpRequest) (bytes : Bytes)
    (registry : Registry) (max_event_bytes : Option ℕ) (parsed : ParsedIngestRequest)
    (project : Project) : Type 0 where
  pub is_parsed : request_payload parsers req bytes ≡ ok parsed
  pub key : Text
  pub key_given : req.match_project_key ≡ some key
  pub registered : project_by_key registry key ≡ some project
  pub authorised : IsAuthorised parsers req parsed project
  pub fits : length parsed.body ≤ get_or max_event_bytes default_max_event_bytes
  pub value : V
  pub is_json : parsers.from_slice parsed.body ≡ ok value

some_same : (s t : Text) → ◌≡◌ {A = Option Text} (some s) (some t) → s ≡ t
some_same s t h = cc

agreed_token-GivesOnly :
    {V : Type 0} (parsers : Parsers V) (token : Text) (header body : Option Text)
    → agreed_token parsers header body ≡ ok (some token)
    → GivesOnly token header body
agreed_token-GivesOnly parsers token (some s) (some t) h = elim (Bool-cases (text_eq s t)) [
  | inl e ↦
      let same : s ≡ t = (bytes_eq_iff s t).0 e in
      let found : s ≡ token = agreed s t e h in
      (
        λ u q. sym (some_same s u q) ∙ found,
        λ u q. sym (some_same t u q) ∙ sym same ∙ found,
        inl (ap some found),
      )
  | inr e ↦ absurd (refused s t e h)
]
  where
    agreed :
        (s t : Text)
        → text_eq s t ≡ true
        → agreed_token parsers (some s) (some t) ≡ ok (some token)
        → s ≡ token
    agreed s t e h =
        let q : ok (some s) ≡ ok (some token) =
          subst (λ b. (if b then ok (some s) else err conflicting_ingest_token) ≡ ok (some token)) e
            h in
        cc

    refused :
        (s t : Text)
        → text_eq s t ≡ false
        → agreed_token parsers (some s) (some t) ≡ ok (some token)
        → ⊥
    refused s t e h =
        let q : err conflicting_ingest_token ≡ ok (some token) =
          subst (λ b. (if b then ok (some s) else err conflicting_ingest_token) ≡ ok (some token)) e
            h in
        let c : ⊥ = cc in c
agreed_token-GivesOnly parsers token (some s) none h =
    let found : s ≡ token = cc in
    (λ u q. sym (some_same s u q) ∙ found, λ u q. absurd (let c : ⊥ = cc in c), inl (ap some found))
agreed_token-GivesOnly parsers token none (some t) h =
    let found : t ≡ token = cc in
    (λ u q. absurd (let c : ⊥ = cc in c), λ u q. sym (some_same t u q) ∙ found, inr (ap some found))
agreed_token-GivesOnly parsers token none none h = absurd (let c : ⊥ = cc in c)

GivesOnly-agreed_token :
    {V : Type 0} (parsers : Parsers V) (token : Text) (header body : Option Text)
    → GivesOnly token header body
    → agreed_token parsers header body ≡ ok (some token)
GivesOnly-agreed_token parsers token (some s) (some t) (h, b, g) =
    let first : s ≡ token = h s refl in
    let second : t ≡ token = b t refl in rw ((bytes_eq_iff s t).1 (first ∙ sym second), first) refl
GivesOnly-agreed_token parsers token (some s) none (h, b, g) = ap (λ t. ok (some t)) (h s refl)
GivesOnly-agreed_token parsers token none (some t) (h, b, g) = ap (λ t. ok (some t)) (b t refl)
GivesOnly-agreed_token parsers token none none (h, b, inl q) = absurd (let c : ⊥ = cc in c)
GivesOnly-agreed_token parsers token none none (h, b, inr q) = absurd (let c : ⊥ = cc in c)

is_one_of-Among : (t : Text) (ss : List Text) → is_one_of t ss ≡ true → Among t ss
unfolding is_one_of
is_one_of-Among t [] h = absurd (let c : ⊥ = cc in c)
is_one_of-Among t (s ∷ ss) h = elim (Bool-cases (text_eq s t)) [
  | inl e ↦ inl (sym ((bytes_eq_iff s t).0 e))
  | inr e ↦ inr (is_one_of-Among t ss (ground (arith, h, e)))
]

Among-is_one_of : (t : Text) (ss : List Text) → Among t ss → is_one_of t ss ≡ true
unfolding is_one_of
Among-is_one_of t [] h = elim h [ ]
Among-is_one_of t (s ∷ ss) (inl e) = rw ((bytes_eq_iff s t).1 (sym e)) refl
Among-is_one_of t (s ∷ ss) (inr h) =
    let k : is_one_of t ss ≡ true = Among-is_one_of t ss h in ground (arith, k)

bind_ok :
    {E A B : Type 0} (r : Result E A) (f : A → Result E B) {a : A} {x : Result E B}
    → r ≡ ok a
    → f a ≡ x
    → (r >>= f) ≡ x
bind_ok {E} {A} r f {a} {x} e h = subst (λ (q : Result E A). (q >>= f) ≡ x) (sym e) h

guard-true : {E : Type 0} (b : Bool) (e : E) (u : Unit {0}) → guard b e ≡ ok u → b ≡ true
guard-true true e u h = refl
guard-true false e u h = absurd (let c : ⊥ = cc in c)

ok_or-some : {E A : Type 0} (o : Option A) (e : E) (a : A) → ok_or o e ≡ ok a → o ≡ some a
ok_or-some none e a h = absurd (let c : ⊥ = cc in c)
ok_or-some (some b) e a h = cc

allowed_ip :
    (t : Text) (ips : List Text)
    → (is_empty ips || is_one_of t ips) ≡ true
    → (ips ≡ []) ⊎ Among t ips
allowed_ip t [] h = inl refl
allowed_ip t (i ∷ ips) h = inr (is_one_of-Among t (i ∷ ips) h)

map_err_ok : {E F A : Type 0} (f : E → F) (r : Result E A) (a : A) → map_err f r ≡ ok a → r ≡ ok a
map_err_ok f (ok b) a h = cc
map_err_ok f (err e) a h = absurd (let c : ⊥ = cc in c)

module _ {V : Type 0} (parsers : Parsers V) (req : HttpRequest) where
  by_mode-token :
      (m : ProjectAuthMode) (parsed : ParsedIngestRequest) (project : Project) (u : Unit {0})
      → by_mode parsers m req parsed project ≡ ok u
      → (m ≡ public_auth)
        ⊎ GivesOnly project.ingest_token (ingest_token_from_request parsers req) parsed.body_token
  unfolding request_ingest_token
  by_mode-token public_auth parsed project u h = inl refl
  by_mode-token token_auth parsed project u h =
      bind_elim (request_ingest_token parsers req parsed)
        (λ found. ok_or found missing_ingest_token >>= λ token.
          guard (text_eq token project.ingest_token) invalid_ingest_token)
        h
        (λ found e k.
          bind_elim (ok_or found missing_ingest_token)
            (λ token. guard (text_eq token project.ingest_token) invalid_ingest_token) k
            (λ token e' g.
              let same : token ≡ project.ingest_token =
                (bytes_eq_iff token project.ingest_token).0
                  (guard-true (text_eq token project.ingest_token) invalid_ingest_token u g) in
              inr (
                agreed_token-GivesOnly parsers project.ingest_token
                  (ingest_token_from_request parsers req) parsed.body_token
                  (e ∙ ap ok (ok_or-some found missing_ingest_token token e' ∙ ap some same)))))

  authorize_project-IsAuthorised :
      (parsed : ParsedIngestRequest) (project : Project) (u : Unit {0})
      → authorize_project parsers req parsed project ≡ ok u
      → IsAuthorised parsers req parsed project
  unfolding authorize_project
  authorize_project-IsAuthorised parsed project u h =
      bind_elim
        (guard
          (is_empty project.allowed_ips || is_one_of (get_or (get_ip req) []) project.allowed_ips)
          ip_not_allowed)
        (λ done. by_mode parsers project.auth_mode req parsed project) h
        (λ v e k. (
          allowed_ip (get_or (get_ip req) []) project.allowed_ips (
              guard-true
                (is_empty project.allowed_ips
                  || is_one_of (get_or (get_ip req) []) project.allowed_ips)
                ip_not_allowed v e),
          by_mode-token project.auth_mode parsed project u k,
        ))

  abbrev Known : ParsedIngestRequest → Registry → Project → Type 0
  Known parsed registry project =
      (key : Text) × (req.match_project_key ≡ some key)
      × (project_by_key registry key ≡ some project)
      × IsAuthorised parsers req parsed project

  authenticate_project-Known :
      (parsed : ParsedIngestRequest) (registry : Registry) (project : Project)
      → authenticate_project parsers req parsed registry ≡ ok project
      → Known parsed registry project
  unfolding authenticate_project
  authenticate_project-Known parsed registry project h =
      bind_elim (ok_or req.match_project_key project_not_found)
        (λ key. ok_or (project_by_key registry key) project_not_found >>= λ p.
          authorize_project parsers req parsed p >> ok p)
        h
        (λ key e k.
          bind_elim (ok_or (project_by_key registry key) project_not_found)
            (λ p. authorize_project parsers req parsed p >> ok p) k
            (λ p e' k'.
              bind_elim (authorize_project parsers req parsed p) (λ done. ok p) k'
                (λ u e'' q.
                  let same : p ≡ project = cc in
                  (
                    key,
                    ok_or-some req.match_project_key project_not_found key e,
                    ok_or-some (project_by_key registry key) project_not_found p e' ∙ ap some same,
                    subst (IsAuthorised parsers req parsed) same
                        (authorize_project-IsAuthorised parsed p u e''),
                  ))))

  not_too_large :
      (n : ℕ) (limit : Option ℕ) (u : Unit {0})
      → unless parsers (reject_if_payload_too_large parsers n limit) ≡ ok u
      → n ≤ get_or limit default_max_event_bytes
  unfolding reject_if_payload_too_large
  not_too_large n limit u h = go (ltb (get_or limit default_max_event_bytes) n) refl h
    where
      go :
          (b : Bool)
          → ltb (get_or limit default_max_event_bytes) n ≡ b
          → unless parsers (if b then some payload_too_large else none) ≡ ok u
          → n ≤ get_or limit default_max_event_bytes
      go true e k = absurd (let c : ⊥ = cc in c)
      go false e k = ground (arith, e)

  module _ (bytes : Bytes) (registry : Registry) (limit : Option ℕ) where
    -- Soundness: what is admitted is to be accepted.
    pub admit-Accepted :
        (parsed : ParsedIngestRequest) (project : Project) (event_name : Text)
        → admit parsers req bytes registry limit ≡ ok (parsed, project, event_name)
        → Accepted parsers req bytes registry limit parsed project
    unfolding admit validate_ingest_payload
    admit-Accepted parsed project event_name h =
        bind_elim (request_payload parsers req bytes) _ h (λ parsed' e1 k1.
          bind_elim (authenticate_project parsers req parsed' registry) _ k1 (λ project' e2 k2.
            bind_elim
              (unless parsers (reject_if_payload_too_large parsers (length parsed'.body) limit)) _
              k2
              (λ u e3 k3.
                bind_elim (validate_ingest_payload parsers parsed'.body) _ k3 (λ name e4 k4.
                  bind_elim (map_err invalid_json (parsers.from_slice parsed'.body)) _ e4
                    (λ v e5 k5.
                      let same : parsed' ≡ parsed = cc in
                      let same_project : project' ≡ project = cc in
                      let known : Known parsed registry project =
                        subst (λ p. Known p registry project) same
                          (subst (Known parsed' registry) same_project
                            (authenticate_project-Known parsed' registry project' e2)) in
                      record {
                        is_parsed = e1 ∙ ap ok same;
                        key = known.0;
                        key_given = known.1;
                        registered = known.2;
                        authorised = known.3;
                        fits =
                            subst
                              (λ (p : ParsedIngestRequest).
                                length p.body ≤ get_or limit default_max_event_bytes)
                              same (not_too_large (length parsed'.body) limit u e3);
                        value = v;
                        is_json =
                            subst (λ (p : ParsedIngestRequest). parsers.from_slice p.body ≡ ok v)
                              same (map_err_ok invalid_json (parsers.from_slice parsed'.body) v e5);
                      })))))

    allowed_true :
        (t : Text) (ips : List Text)
        → (ips ≡ []) ⊎ Among t ips
        → (is_empty ips || is_one_of t ips) ≡ true
    allowed_true t [] a = refl
    allowed_true t (i ∷ ips) (inl e) = absurd (let c : ⊥ = cc in c)
    allowed_true t (i ∷ ips) (inr a) = Among-is_one_of t (i ∷ ips) a

    by_mode_ok :
        (m : ProjectAuthMode) (parsed : ParsedIngestRequest) (project : Project)
        → (m ≡ public_auth)
          ⊎ GivesOnly project.ingest_token (ingest_token_from_request parsers req) parsed.body_token
        → by_mode parsers m req parsed project ≡ ok tt
    unfolding request_ingest_token
    by_mode_ok public_auth parsed project h = refl
    by_mode_ok token_auth parsed project (inl e) = absurd (let c : ⊥ = cc in c)
    by_mode_ok token_auth parsed project (inr e) =
        rw
          (
            GivesOnly-agreed_token parsers project.ingest_token
                (ingest_token_from_request parsers req) parsed.body_token e,
            (bytes_eq_iff project.ingest_token project.ingest_token).1 refl,
          )
          refl

    fits_ok :
        (n : ℕ)
        → n ≤ get_or limit default_max_event_bytes
        → unless parsers (reject_if_payload_too_large parsers n limit) ≡ ok tt
    unfolding reject_if_payload_too_large
    fits_ok n l =
        let e : ltb (get_or limit default_max_event_bytes) n ≡ false = ground (arith, l) in
        rw (e) refl

    known_ok :
        (parsed : ParsedIngestRequest) (project : Project)
        → Accepted parsers req bytes registry limit parsed project
        → authenticate_project parsers req parsed registry ≡ ok project
    unfolding authenticate_project authorize_project
    known_ok parsed project a =
        bind_ok (ok_or req.match_project_key project_not_found) _
          (ap (λ o. ok_or o project_not_found) a.key_given)
          (rw (a.registered) (
            rw (allowed_true (get_or (get_ip req) []) project.allowed_ips (a.authorised.0))
              (rw (by_mode_ok project.auth_mode parsed project (a.authorised.1)) refl)))

    -- Completeness: what is to be accepted is admitted.
    Accepted-admit :
        (parsed : ParsedIngestRequest) (project : Project)
        → Accepted parsers req bytes registry limit parsed project
        → (event_name : Text) × (admit parsers req bytes registry limit
            ≡ ok (parsed, project, event_name))
    unfolding admit validate_ingest_payload
    Accepted-admit parsed project a = (
      get_or (then_some (parsers.member (codes "xwhat") a.value) parsers.as_str) (codes "default"),
      bind_ok (request_payload parsers req bytes) _ a.is_parsed (
          bind_ok (authenticate_project parsers req parsed registry) _ (known_ok parsed project a)
            (rw (fits_ok (length parsed.body) a.fits) (rw (a.is_json) refl))),
    )

-- Whatever the request is: either the handler answers with the response of an issue, the log is as it was,
-- and the request is not to be accepted; or the request is to be accepted for one project (the payload
-- can be read, the key names a registered project, the address may send, where the project asks for a token
-- one is given in the header or in the body and each one that is given is the project's, the payload is
-- JSON of any type and not too large), and the handler does what the log does with the record of that payload and that project.
pub ingest-Accepted :
    {V : Type 0} (parsers : Parsers V) (env : WriterEnv) (now sequence : ℕ) (req : HttpRequest)
    (bytes : Bytes) (registry : Registry) (limit : Option ℕ) (w : WriterState)
    → ((issue : IngestIssue) × (ingest parsers env now sequence req bytes registry limit w
          ≡ (answered (into_response issue), w))
        × ((parsed : ParsedIngestRequest) (project : Project)
            → Accepted parsers req bytes registry limit parsed project
            → ⊥))
      ⊎ ((parsed : ParsedIngestRequest) × (project : Project) × Accepted parsers req bytes registry
            limit parsed project
          × (ingest parsers env now sequence req bytes registry limit w
              ≡ append_wal_record env (record_of parsers now sequence req parsed project) w))
unfolding ingest
ingest-Accepted parsers env now sequence req bytes registry limit w =
    go (admit parsers req bytes registry limit) refl
  where
    go :
        (r : Result IngestIssue (ParsedIngestRequest × Project × Text))
        → admit parsers req bytes registry limit ≡ r
        → ((issue : IngestIssue) × (admitted parsers env now sequence req r w
              ≡ (answered (into_response issue), w))
            × ((parsed : ParsedIngestRequest) (project : Project)
                → Accepted parsers req bytes registry limit parsed project
                → ⊥))
          ⊎ ((parsed : ParsedIngestRequest) × (project : Project) × Accepted parsers req bytes
                registry limit parsed project
              × (admitted parsers env now sequence req r w
                  ≡ append_wal_record env (record_of parsers now sequence req parsed project) w))
    go (err issue) e = inl (
      issue,
      refl,
      λ parsed project a.
          let (name, q) = Accepted-admit parsers req bytes registry limit parsed project a in
          let c : ⊥ = cc in c,
    )
    go (ok (parsed, project, name)) e = inr (
      parsed,
      project,
      admit-Accepted parsers req bytes registry limit parsed project name e,
      refl,
    )
