-- ===== src/Replay/Flush/Collect.antt =====
-- The first loop of `replay_batch_to_sinks` loses no event: each is listed under its sink.
use ingest4x.Prelude.{
  ◌≡◌, inl, inr, refl, sym, ap, subst, Bool, true, false, Option, List, [], ◌∷◌, Bool-cases,
}
use ingest4x.Bytes.Laws.{bytes_eq_iff, bytes_eq_refl}
use ingest4x.Text.{Text, text_eq}
use ingest4x.Wal.Record.{WalPosition, WalEntry}
use ingest4x.Replay.Env.{ReplayEnv}
use ingest4x.Replay.Send.{SinkDeliveryEvent}
use ingest4x.Replay.State.{checkpoint_covers_entry}
use ingest4x.Replay.Group.{get_list, extend, keys}
use ingest4x.Replay.Flush.{
  ReplayEntryDeliveries, text_leb, insert_name, sort_names, deliveries_of, add_entry, collect,
}
use ingest4x.Replay.Flush.Delivered.{Occurs, Occurs-left, Occurs-right}

contra : {b : Bool} → b ≡ true → b ≡ false → ⊥
contra p q = cc

module _ {A : Type 0} where
  -- `d` is listed under `name`.
  pub record Listed (m : List (Text × List A)) (name : Text) (d : A) : Type 0 where
    pub key : Occurs name (keys m)
    pub value : Occurs d (get_list name m)

  extend_adds :
      (name : Text) (ys : List A) (m : List (Text × List A)) (d : A)
      → Occurs d ys
      → Listed (extend name ys m) name d
  unfolding extend get_list keys
  extend_adds name ys [] d h = record { key = inl refl; value = rw (bytes_eq_refl name) h }
  extend_adds name ys ((k, xs) ∷ m) d h = elim (Bool-cases (text_eq k name)) [
    | inl e ↦ rw e (record {
      key = inl (sym ((bytes_eq_iff k name).0 e));
      value = rw e (Occurs-right d xs ys h);
    })
    | inr e ↦
        let ih = extend_adds name ys m d h in
        rw e (record { key = inr ih.key; value = rw e ih.value })
  ]

  extend_keeps :
      (name : Text) (ys : List A) (m : List (Text × List A)) (other : Text) (d : A)
      → Listed m other d
      → Listed (extend name ys m) other d
  unfolding extend get_list keys
  extend_keeps name ys [] other d h = absurd h.key
  extend_keeps name ys ((k, xs) ∷ m) other d h = elim (Bool-cases (text_eq k name)) [
    | inl e ↦ rw e (elim (Bool-cases (text_eq k other)) [
      | inl o ↦ record { key = h.key; value = rw o (Occurs-left d xs ys (rw o at h.value)) }
      | inr o ↦ record { key = h.key; value = rw o (rw o at h.value) }
    ])
    | inr e ↦ rw e (elim (Bool-cases (text_eq k other)) [
      | inl o ↦ record {
        key = inl (sym ((bytes_eq_iff k other).0 o));
        value = rw o (rw o at h.value);
      }
      | inr o ↦
          let tail : Listed m other d = record {
            key = elim (h.key) [
              | inl q ↦ absurd (contra ((bytes_eq_iff k other).1 (sym q)) o)
              | inr q ↦ q
            ];
            value = rw o at h.value;
          } in
          let ih = extend_keeps name ys m other d tail in
          record { key = inr ih.key; value = rw o ih.value }
    ])
  ]

insert_name-Occurs :
    (t name : Text) (us : List Text) → Occurs name (t ∷ us) → Occurs name (insert_name t us)
unfolding insert_name
insert_name-Occurs t name [] h = h
insert_name-Occurs t name (u ∷ us) h = elim (Bool-cases (text_leb t u)) [
  | inl e ↦ rw e h
  | inr e ↦ rw e (elim h [
    | inl q ↦ inr (insert_name-Occurs t name us (inl q))
    | inr r ↦ elim r [ inl q ↦ inl q | inr q ↦ inr (insert_name-Occurs t name us (inr q)) ]
  ])
]

pub sort_names-Occurs :
    (name : Text) (ts : List Text) → Occurs name ts → Occurs name (sort_names ts)
unfolding sort_names
sort_names-Occurs name [] h = h
sort_names-Occurs name (t ∷ ts) (inl e) = insert_name-Occurs t name (sort_names ts) (inl e)
sort_names-Occurs name (t ∷ ts) (inr h) =
    insert_name-Occurs t name (sort_names ts) (inr (sort_names-Occurs name ts h))

module _ (env : ReplayEnv) where
  open env use {Value}

  -- The event `v` is listed under `name`.
  pub record ListedEvent (m : List (Text × List (SinkDeliveryEvent Value))) (name : Text)
      (v : Value) : Type 0 where
    pub delivery : SinkDeliveryEvent Value
    pub of_event : delivery.event ≡ v
    pub listed : Listed m name delivery

  delivery_of :
      (e : WalEntry) (vs : List Value) (v : Value)
      → Occurs v vs
      → (d : SinkDeliveryEvent Value) × Occurs d (deliveries_of env e vs) × (d.event ≡ v)
  unfolding deliveries_of
  delivery_of e [] v h = absurd h
  delivery_of e (x ∷ vs) v (inl q) = (_, inl refl, sym q)
  delivery_of e (x ∷ vs) v (inr h) = let (d, o, q) = delivery_of e vs v h in (d, inr o, q)

  add_entry_keeps :
      (e : WalEntry) (ds : List (Text × List Value))
      (m : List (Text × List (SinkDeliveryEvent Value))) (name : Text) (d : SinkDeliveryEvent Value)
      → Listed m name d
      → Listed (add_entry env e ds m) name d
  unfolding add_entry
  add_entry_keeps e [] m name d h = h
  add_entry_keeps e ((k, []) ∷ ds) m name d h = add_entry_keeps e ds m name d h
  add_entry_keeps e ((k, v ∷ vs) ∷ ds) m name d h =
      add_entry_keeps e ds _ name d (extend_keeps k (deliveries_of env e (v ∷ vs)) m name d h)

  add_entry_adds :
      (e : WalEntry) (ds : List (Text × List Value))
      (m : List (Text × List (SinkDeliveryEvent Value))) (name : Text) (vs : List Value) (v : Value)
      → Occurs (name, vs) ds
      → Occurs v vs
      → ListedEvent (add_entry env e ds m) name v
  unfolding add_entry
  add_entry_adds e [] m name vs v h o = absurd h
  add_entry_adds e ((k, us) ∷ ds) m name vs v (inr h) o = add_entry_adds e ds _ name vs v h o
  add_entry_adds e ((k, []) ∷ ds) m name vs v (inl q) o =
      absurd (subst (Occurs v) (ap (λ (t : Text × List Value). t.1) q) o)
  add_entry_adds e ((k, u ∷ us) ∷ ds) m name vs v (inl q) o =
      let (d, occ, ev) =
        delivery_of e (u ∷ us) v (subst (Occurs v) (ap (λ (t : Text × List Value). t.1) q) o) in
      record {
        delivery = d;
        of_event = ev;
        listed =
            subst (λ t. Listed (add_entry env e ds (extend k (deliveries_of env e (u ∷ us)) m)) t d)
              (sym (ap (λ (t : Text × List Value). t.0) q))
              (add_entry_keeps e ds _ k d (extend_adds k (deliveries_of env e (u ∷ us)) m d occ));
      }

  collect_keeps :
      (c : Option WalPosition) (batch : List (ReplayEntryDeliveries Value))
      (m : List (Text × List (SinkDeliveryEvent Value))) (name : Text) (d : SinkDeliveryEvent Value)
      → Listed m name d
      → Listed (collect env c batch m) name d
  unfolding collect
  collect_keeps c [] m name d h = h
  collect_keeps c (i ∷ is) m name d h = elim (Bool-cases (checkpoint_covers_entry c i.entry)) [
    | inl e ↦ rw e (collect_keeps c is m name d h)
    | inr e ↦
        rw e (collect_keeps c is _ name d (add_entry_keeps i.entry i.deliveries_by_sink m name d h))
  ]

  -- Every event of an entry that the checkpoint does not cover is listed under its sink.
  pub collect_lists :
      (c : Option WalPosition) (batch : List (ReplayEntryDeliveries Value))
      (m : List (Text × List (SinkDeliveryEvent Value))) (i : ReplayEntryDeliveries Value)
      (name : Text) (vs : List Value) (v : Value)
      → Occurs i batch
      → checkpoint_covers_entry c i.entry ≡ false
      → Occurs (name, vs) i.deliveries_by_sink
      → Occurs v vs
      → ListedEvent (collect env c batch m) name v
  unfolding collect
  collect_lists c [] m i name vs v h fresh o o' = absurd h
  collect_lists c (j ∷ js) m i name vs v (inr h) fresh o o' =
      collect_lists c js _ i name vs v h fresh o o'
  collect_lists c (j ∷ js) m i name vs v (inl q) fresh o o' =
      let fresh' : checkpoint_covers_entry c j.entry ≡ false =
        subst (λ t. checkpoint_covers_entry c t.entry ≡ false) q fresh in
      let o'' : Occurs (name, vs) j.deliveries_by_sink =
        subst (λ t. Occurs (name, vs) t.deliveries_by_sink) q o in
      let l = add_entry_adds j.entry j.deliveries_by_sink m name vs v o'' o' in
      rw fresh' (record {
        delivery = l.delivery;
        of_event = l.of_event;
        listed = collect_keeps c js _ name l.delivery l.listed;
      })
