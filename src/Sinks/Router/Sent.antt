-- ===== src/Sinks/Router/Sent.antt =====
-- What the sinks have when deliveries were sent: each sink all of its events in order, or none.
use ingest4x.Prelude.{
  ℕ, ◌+◌, ◌≡◌, ◌⊎◌, inl, inr, refl, sym, ap, ◌∙◌, subst, Bool, true, false, ◌&&◌, Option, none,
  some, List, [], ◌∷◌, ◌++◌, append-nil, append_assoc, All, Bool-cases, if◌then◌else◌,
}
use ingest4x.Bytes.Laws.{bytes_eq_iff}
use ingest4x.Text.{Text, text_eq}
use ingest4x.Result.{Result, ok, err}
use ingest4x.Sinks.Router.{
  EventRouter, ProcessorDelivery, Outgoing, contains_sink, Groups, push_event, takes, group_loop,
  answered, to_sink, send_groups, send_deliveries,
}

same_key : (u t : Text) → text_eq u t ≡ true → u ≡ t
same_key u t e = (bytes_eq_iff u t).0 e

not_equal : (u t : Text) → text_eq u t ≡ false → text_eq t u ≡ false
not_equal u t h = elim (Bool-cases (text_eq t u)) [
  | inl e ↦
      let yes_same : text_eq u t ≡ true = (bytes_eq_iff u t).1 (sym (same_key t u e)) in
      absurd (let c : ⊥ = cc in c)
  | inr e ↦ e
]

module _ {V : Type 0} where
  -- All events for a sink, in order
  abbrev pub held : Text → Groups V → List V
  held t [] = []
  held t ((u, es) ∷ gs) = let rest = held t gs in if text_eq u t then es ++ rest else rest

  abbrev Absent : Text → Groups V → Type 0
  Absent t = All (λ g. text_eq g.0 t ≡ false)

  abbrev Unique : Groups V → Type 0
  Unique [] = Unit {0}
  Unique ((u, es) ∷ gs) = Absent u gs × Unique gs

  held-Absent : (t : Text) (gs : Groups V) → Absent t gs → held t gs ≡ []
  held-Absent t [] a = refl
  held-Absent t ((u, es) ∷ gs) a = rw (a.0) (held-Absent t gs (a.1))

  held-append : (t : Text) (gs hs : Groups V) → held t (gs ++ hs) ≡ held t gs ++ held t hs
  held-append t [] hs = refl
  held-append t ((u, es) ∷ gs) hs = elim (Bool-cases (text_eq u t)) [
    | inl e ↦
        rw (e)
          (ap (λ x. es ++ x) (held-append t gs hs) ∙ sym (append_assoc es (held t gs) (held t hs)))
    | inr e ↦ rw (e) (held-append t gs hs)
  ]

  -- Of the groups up to some point, a sink has all its events or none.
  held-part :
      (t : Text) (gs hs : Groups V)
      → Unique (gs ++ hs)
      → (held t gs ≡ []) ⊎ (held t gs ≡ held t (gs ++ hs))
  held-part t [] hs u = inl refl
  held-part t ((w, es) ∷ gs) hs (a, u) = elim (Bool-cases (text_eq w t)) [
    | inl e ↦
        let b : Absent t (gs ++ hs) = subst (λ x. Absent x (gs ++ hs)) (same_key w t e) a in
        let none_left : held t gs ++ held t hs ≡ [] =
          sym (held-append t gs hs) ∙ held-Absent t (gs ++ hs) b in
        inr (
          rw (e) (
            ap (λ x. es ++ x)
              (first_empty (held t gs) (held t hs) none_left ∙ sym (held-Absent t (gs ++ hs) b))))
    | inr e ↦ rw (e) (held-part t gs hs u)
  ]
    where
      first_empty : (xs ys : List V) → xs ++ ys ≡ [] → xs ≡ []
      first_empty [] ys h = refl
      first_empty (x ∷ xs) ys h = absurd (let c : ⊥ = cc in c)

  push_event-Absent :
      (w t : Text) (e : V) (gs : Groups V)
      → text_eq t w ≡ false
      → Absent w gs
      → Absent w (push_event t e gs)
  unfolding push_event
  push_event-Absent w t e [] n a = (n, tt)
  push_event-Absent w t e ((u, es) ∷ gs) n a = elim (Bool-cases (text_eq u t)) [
    | inl q ↦ rw (q) ((a.0, a.1))
    | inr q ↦ rw (q) ((a.0, push_event-Absent w t e gs n (a.1)))
  ]

  push_event-Unique : (t : Text) (e : V) (gs : Groups V) → Unique gs → Unique (push_event t e gs)
  unfolding push_event
  push_event-Unique t e [] u = (tt, tt)
  push_event-Unique t e ((w, es) ∷ gs) (a, u) = elim (Bool-cases (text_eq w t)) [
    | inl q ↦ rw (q) ((a, u))
    | inr q ↦ rw (q) ((push_event-Absent w t e gs (not_equal w t q) a, push_event-Unique t e gs u))
  ]

  held-push_event :
      (t u : Text) (e : V) (gs : Groups V)
      → Unique gs
      → held t (push_event u e gs) ≡ held t gs ++ (if text_eq u t then e ∷ [] else [])
  unfolding push_event
  held-push_event t u e [] q = elim (Bool-cases (text_eq u t)) [ inl h ↦ rw (h) | inr h ↦ rw (h) ]
  held-push_event t u e ((w, es) ∷ gs) (a, q) =
      go (Bool-cases (text_eq w u)) (Bool-cases (text_eq w t)) (held-push_event t u e gs q)
    where
      go :
          (text_eq w u ≡ true) ⊎ (text_eq w u ≡ false)
          → (text_eq w t ≡ true) ⊎ (text_eq w t ≡ false)
          → held t (push_event u e gs) ≡ held t gs ++ (if text_eq u t then e ∷ [] else [])
          → held t (push_event u e ((w, es) ∷ gs))
            ≡ held t ((w, es) ∷ gs) ++ (if text_eq u t then e ∷ [] else [])
      go (inl x) (inl y) ih =
          let k : held t gs ≡ [] = held-Absent t gs (subst (λ z. Absent z gs) (same_key w t y) a) in
          let z : text_eq u t ≡ true = subst (λ v. text_eq v t ≡ true) (same_key w u x) y in
          rw (x, y, z, k)
            (append_assoc es (e ∷ []) [] ∙ ap (λ v. v ++ (e ∷ [])) (sym (append-nil es)))
      go (inl x) (inr y) ih =
          let z : text_eq u t ≡ false = subst (λ v. text_eq v t ≡ false) (same_key w u x) y in
          rw (x, y, z) (sym (append-nil (held t gs)))
      go (inr x) (inl y) ih =
          rw (x, y)
            (ap (λ v. es ++ v) ih
              ∙ sym (append_assoc es (held t gs) (if text_eq u t then e ∷ [] else [])))
      go (inr x) (inr y) ih = rw (x, y) ih

-- The same groups in another order
pub data Reordered {V : Type 0} : Groups V → Groups V → Type 0 where
  nil : Reordered [] []
  cons : {g : Text × List V} {gs hs : Groups V} → Reordered gs hs → Reordered (g ∷ gs) (g ∷ hs)
  swap : {g h : Text × List V} {gs : Groups V} → Reordered (g ∷ (h ∷ gs)) (h ∷ (g ∷ gs))
  trans : {gs hs ks : Groups V} → Reordered gs hs → Reordered hs ks → Reordered gs ks

-- A map's order keeps the groups of each sink.
module _ {V : Type 0} where
  Absent-order : {gs hs : Groups V} (t : Text) → Reordered gs hs → Absent t gs → Absent t hs
  Absent-order t nil a = a
  Absent-order t (cons p) a = (a.0, Absent-order t p (a.1))
  Absent-order t swap (a, (b, c)) = (b, (a, c))
  Absent-order t (trans p q) a = Absent-order t q (Absent-order t p a)

  Unique-order : {gs hs : Groups V} → Reordered gs hs → Unique gs → Unique hs
  Unique-order nil u = u
  Unique-order (cons {g = g} p) (a, u) = (Absent-order (g.0) p a, Unique-order p u)
  Unique-order (swap {g = g} {h = h}) ((n, a), (b, u)) = ((not_equal (h.0) (g.0) n, b), (a, u))
  Unique-order (trans p q) u = Unique-order q (Unique-order p u)

  swapped :
      (t : Text) (g h : Text × List V) (l : Groups V)
      → text_eq h.0 g.0 ≡ false
      → held t (g ∷ (h ∷ l)) ≡ held t (h ∷ (g ∷ l))
  swapped t (u, es) (w, fs) l n = go (Bool-cases (text_eq u t)) (Bool-cases (text_eq w t))
    where
      go :
          (text_eq u t ≡ true) ⊎ (text_eq u t ≡ false)
          → (text_eq w t ≡ true) ⊎ (text_eq w t ≡ false)
          → held t ((u, es) ∷ ((w, fs) ∷ l)) ≡ held t ((w, fs) ∷ ((u, es) ∷ l))
      go (inl x) (inl y) =
          let z : text_eq w u ≡ true = subst (λ v. text_eq w v ≡ true) (sym (same_key u t x)) y in
          absurd (let c : ⊥ = cc in c)
      go (inl x) (inr y) = rw (x, y) refl
      go (inr x) (inl y) = rw (x, y) refl
      go (inr x) (inr y) = rw (x, y) refl

  held-order : {gs hs : Groups V} (t : Text) → Reordered gs hs → Unique gs → held t gs ≡ held t hs
  held-order t nil u = refl
  held-order t (cons {g = (w, es)} {gs = gs} {hs = hs} p) (a, u) =
      head_eq (Bool-cases (text_eq w t)) (held-order t p u)
    where
      head_eq :
          (text_eq w t ≡ true) ⊎ (text_eq w t ≡ false)
          → held t gs ≡ held t hs
          → held t ((w, es) ∷ gs) ≡ held t ((w, es) ∷ hs)
      head_eq (inl y) ih = rw (y) (ap (λ v. es ++ v) ih)
      head_eq (inr y) ih = rw (y) ih
  held-order t (swap {g = g} {h = h} {gs = l}) (a, u) = swapped t g h l (a.0)
  held-order t (trans p q) u = held-order t p u ∙ held-order t q (Unique-order p u)

module _ {C V : Type 0} (router : EventRouter C) where
  -- The events of the deliveries for a sink, if it takes any
  abbrev pub wanted : Text → List (ProcessorDelivery V) → List V
  wanted t [] = []
  wanted t (d ∷ ds) =
      let rest = wanted t ds in
      if text_eq d.target t && takes router d.target then d.event ∷ rest else rest

  group_loop-Unique :
      (ds : List (ProcessorDelivery V)) (gs : Groups V)
      → Unique gs
      → Unique (group_loop router ds gs)
  unfolding group_loop
  group_loop-Unique [] gs u = u
  group_loop-Unique (d ∷ ds) gs u = elim (Bool-cases (takes router d.target)) [
    | inl e ↦ rw (e) (
        group_loop-Unique ds (push_event d.target d.event gs)
          (push_event-Unique d.target d.event gs u))
    | inr e ↦ rw (e) (group_loop-Unique ds gs u)
  ]

  held-group_loop :
      (t : Text) (ds : List (ProcessorDelivery V)) (gs : Groups V)
      → Unique gs
      → held t (group_loop router ds gs) ≡ held t gs ++ wanted t ds
  unfolding group_loop
  held-group_loop t [] gs u = sym (append-nil (held t gs))
  held-group_loop t (d ∷ ds) gs u =
      go (Bool-cases (takes router d.target)) (Bool-cases (text_eq d.target t))
        (held-group_loop t ds (push_event d.target d.event gs)
            (push_event-Unique d.target d.event gs u)
          ∙ ap (λ v. v ++ wanted t ds) (held-push_event t d.target d.event gs u))
        (held-group_loop t ds gs u)
    where
      go :
          (takes router d.target ≡ true) ⊎ (takes router d.target ≡ false)
          → (text_eq d.target t ≡ true) ⊎ (text_eq d.target t ≡ false)
          → held t (group_loop router ds (push_event d.target d.event gs))
            ≡ (held t gs ++ (if text_eq d.target t then d.event ∷ [] else [])) ++ wanted t ds
          → held t (group_loop router ds gs) ≡ held t gs ++ wanted t ds
          → held t (group_loop router (d ∷ ds) gs) ≡ held t gs ++ wanted t (d ∷ ds)
      go (inl x) (inl y) pushed kept =
          rw (x, y)
            (subst
                (λ b.
                  held t (group_loop router ds (push_event d.target d.event gs))
                  ≡ (held t gs ++ (if b then d.event ∷ [] else [])) ++ wanted t ds)
                y pushed
              ∙ append_assoc (held t gs) (d.event ∷ []) (wanted t ds))
      go (inl x) (inr y) pushed kept =
          rw (x, y)
            (subst
                (λ b.
                  held t (group_loop router ds (push_event d.target d.event gs))
                  ≡ (held t gs ++ (if b then d.event ∷ [] else [])) ++ wanted t ds)
                y pushed
              ∙ ap (λ v. v ++ wanted t ds) (append-nil (held t gs)))
      go (inr x) (inl y) pushed kept = rw (x, y) kept
      go (inr x) (inr y) pushed kept = rw (x, y) kept

  module _ (map_order : Groups V → Groups V) (answer : ℕ → Text → List V → Option Text) where
    -- What a sending adds to what was accepted: the first of the groups, all of them if it succeeds
    record Sent (gs : Groups V) (out : Outgoing V) (r : Result Text (Unit {0}) × Outgoing V)
        : Type 0 where
      sent : Groups V
      unsent : Groups V
      parts : gs ≡ sent ++ unsent
      accepted_sent : r.1.accepted ≡ out.accepted ++ sent
      complete : r.0 ≡ ok tt → unsent ≡ []

    send_groups-Sent :
        (gs : Groups V) (out : Outgoing V)
        → Sent gs out (send_groups router map_order answer gs out)
    unfolding send_groups
    send_groups-Sent [] out = record {
      sent = [];
      unsent = [];
      parts = refl;
      accepted_sent = sym (append-nil out.accepted);
      complete = λ _. refl;
    }
    send_groups-Sent ((t, es) ∷ gs) out = known (contains_sink router t) (
        send_groups-Sent gs
          (record { accepted = out.accepted ++ ((t, es) ∷ []); sends = out.sends + 1 }))
      where
        none_sent :
            (e : Text) (o : Outgoing V)
            → o.accepted ≡ out.accepted
            → Sent ((t, es) ∷ gs) out (err e, o)
        none_sent e o h = record {
          sent = [];
          unsent = (t, es) ∷ gs;
          parts = refl;
          accepted_sent = h ∙ sym (append-nil out.accepted);
          complete = λ q. absurd (let c : ⊥ = cc in c);
        }

        replied :
            (a : Option Text)
            → Sent gs
                (record { accepted = out.accepted ++ ((t, es) ∷ []); sends = out.sends + 1 })
                (send_groups router map_order answer gs
                  (record { accepted = out.accepted ++ ((t, es) ∷ []); sends = out.sends + 1 }))
            → Sent ((t, es) ∷ gs) out (
                answered router map_order answer t es a out
                  (λ o. send_groups router map_order answer gs o))
        replied none r = record {
          sent = (t, es) ∷ r.sent;
          unsent = r.unsent;
          parts = ap (λ x. (t, es) ∷ x) r.parts;
          accepted_sent = r.accepted_sent ∙ append_assoc out.accepted ((t, es) ∷ []) r.sent;
          complete = r.complete;
        }
        replied (some e) r = none_sent _ _ refl

        known :
            (b : Bool)
            → Sent gs
                (record { accepted = out.accepted ++ ((t, es) ∷ []); sends = out.sends + 1 })
                (send_groups router map_order answer gs
                  (record { accepted = out.accepted ++ ((t, es) ∷ []); sends = out.sends + 1 }))
            → Sent ((t, es) ∷ gs) out (
                to_sink router map_order answer t es b out
                  (λ o. send_groups router map_order answer gs o))
        known true r = replied (answer out.sends t es) r
        known false r = none_sent _ _ refl

    -- When deliveries were sent, what each sink has accepted grew by all the events of the deliveries for it, in
    -- their order, or by none; if the sending succeeded, by all of them. A target that is blank or unknown to the
    -- router takes no events. The map of the groups may give them in any order.
    pub send_deliveries-Sent :
        ((gs : Groups V) → Reordered gs (map_order gs))
        → (t : Text) (ds : List (ProcessorDelivery V)) (out : Outgoing V)
        → let r = send_deliveries router map_order answer ds out in
          ((held t r.1.accepted ≡ held t out.accepted)
            ⊎ (held t r.1.accepted ≡ held t out.accepted ++ wanted t ds))
          × (r.0 ≡ ok tt → held t r.1.accepted ≡ held t out.accepted ++ wanted t ds)
    unfolding send_deliveries
    send_deliveries-Sent any_order t ds out = (part, all)
      where
        in_order : Groups V
        in_order = map_order (group_loop router ds [])

        result : Sent in_order out (send_groups router map_order answer in_order out)
        result = send_groups-Sent in_order out

        in_order-Unique : Unique in_order
        in_order-Unique =
            Unique-order (any_order (group_loop router ds [])) (group_loop-Unique ds [] tt)

        held-in_order : held t in_order ≡ wanted t ds
        held-in_order =
            sym (held-order t (any_order (group_loop router ds [])) (group_loop-Unique ds [] tt))
            ∙ held-group_loop t ds [] tt

        held-accepted :
            held t (send_groups router map_order answer in_order out).1.accepted
            ≡ held t out.accepted ++ held t result.sent
        held-accepted = ap (held t) result.accepted_sent ∙ held-append t out.accepted result.sent

        part :
            (held t (send_groups router map_order answer in_order out).1.accepted
              ≡ held t out.accepted)
            ⊎ (held t (send_groups router map_order answer in_order out).1.accepted
                ≡ held t out.accepted ++ wanted t ds)
        part =
            elim (held-part t result.sent result.unsent
              (subst Unique result.parts in_order-Unique)) [
                | inl e ↦ inl (
                    held-accepted
                    ∙ ap (λ x. held t out.accepted ++ x) e
                    ∙ append-nil (held t out.accepted))
                | inr e ↦ inr (
                    held-accepted
                    ∙ ap (λ x. held t out.accepted ++ x)
                        (e ∙ ap (held t) (sym result.parts) ∙ held-in_order))
              ]

        all :
            (send_groups router map_order answer in_order out).0 ≡ ok tt
            → held t (send_groups router map_order answer in_order out).1.accepted
              ≡ held t out.accepted ++ wanted t ds
        all q =
            held-accepted
            ∙ ap (λ x. held t out.accepted ++ x)
                (sym (
                    ap (held t) (
                      result.parts
                      ∙ ap (λ x. result.sent ++ x) (result.complete q)
                      ∙ append-nil result.sent))
                  ∙ held-in_order)
