-- ===== src/Loader/Launcher/Acks.antt =====
-- What the launcher answers to the messages of src/loader/bgw_message_queue.c.
use timescaledb.Base.{
  ℕ, ◌≡◌, inl, inr, refl, sym, ap, ap₂, ◌∙◌, true, false, Bool-cases, Bool, if◌then◌else◌, Option,
  none, some, List, [], ◌∷◌, ◌++◌, arith, ◌==◌, ==_refl, ==_iff, Option-cases, ◌>>=◌,
}
use timescaledb.Loader.MessageQueue.{BgwMessage, BgwMessageType, stop, start, restart}
use timescaledb.Loader.Launcher.{
  SchedulerState, disabled, DbHashEntry, Env, Launcher, AckResult, ack_success, acknowledge, wanted,
  message_entry, stop_entry, at_entry, new_entry, find_entry, enabled_to_allocated,
  create_if_not_exists, handle_message,
}

-- The entry that is created when a database is not in the table yet.
create_oid : (m oid total : ℕ) → (enabled_to_allocated m total (new_entry oid)).1.db_oid ≡ oid
unfolding enabled_to_allocated
create_oid m oid total = ground arith

find_entry-snoc :
    (oid : ℕ) (tab : List DbHashEntry) (e : DbHashEntry)
    → find_entry oid tab ≡ none
    → e.db_oid ≡ oid
    → find_entry oid (tab ++ (e ∷ [])) ≡ some e
unfolding find_entry
find_entry-snoc oid [] e n h = rw (h, ==_refl oid) refl
find_entry-snoc oid (x ∷ tab) e n h = elim (Bool-cases (x.db_oid == oid)) [
  | inl same ↦ cc (rw same at n)
  | inr other ↦ rw other (find_entry-snoc oid tab e (rw other at n) h)
]

pub find_entry-create :
    (m oid : ℕ) (l : Launcher)
    → (e : DbHashEntry) × (find_entry oid (create_if_not_exists m oid l).db_htab ≡ some e)
unfolding create_if_not_exists
find_entry-create m oid l = elim (Option-cases (find_entry oid l.db_htab)) [
  | inr (e, p) ↦ (e, rw (p, create_if_not_exists) p)
  | inl p ↦
      let e = (enabled_to_allocated m l.total_workers (new_entry oid)).1 in
      (
        e,
        rw (p, create_if_not_exists)
            (find_entry-snoc oid l.db_htab e p (create_oid m oid l.total_workers)),
      )
]

find_entry-cons_self :
    (oid : ℕ) (x : DbHashEntry) (tab : List DbHashEntry)
    → x.db_oid ≡ oid
    → find_entry oid (x ∷ tab) ≡ some x
unfolding find_entry
find_entry-cons_self oid x tab h = rw (h, ==_refl oid) refl

find_entry-cons_ne :
    (oid : ℕ) (x : DbHashEntry) (tab : List DbHashEntry)
    → (x.db_oid == oid) ≡ false
    → find_entry oid (x ∷ tab) ≡ find_entry oid tab
unfolding find_entry
find_entry-cons_ne oid x tab h = rw h refl

at_entry-cons :
    (oid : ℕ) (f : ℕ → DbHashEntry → Option (ℕ × DbHashEntry)) (total : ℕ) (x : DbHashEntry)
    (tab : List DbHashEntry) (b : Bool)
    → (x.db_oid == oid) ≡ b
    → at_entry oid f total (x ∷ tab) ≡ (
        if b
        then (f total x >>= λ (t, e'). some (t, e' ∷ tab))
        else (at_entry oid f total tab >>= λ (t, tab'). some (t, x ∷ tab')))
unfolding at_entry
at_entry-cons oid f total x tab b h = rw h refl

some-injective : (x y : DbHashEntry) → some x ≡ some y → x ≡ y
some-injective x y h = cc

-- A pair that an action on one entry, or on the rest of the table, gives.
>>=-some {ℓ} :
    {A B : Type ℓ} (r : Option A) (f : A → B) {b : B}
    → (r >>= λ a. some (f a)) ≡ some b
    → (a : A) × (r ≡ some a) × (f a ≡ b)
>>=-some none f h = absurd (cc)
>>=-some (some a) f h = (a, refl, cc)

-- The entry that is found after an action is what the action made of the entry found before.
find_entry-at_entry :
    (oid : ℕ) (f : ℕ → DbHashEntry → Option (ℕ × DbHashEntry)) (total : ℕ) (tab : List DbHashEntry)
    (e : DbHashEntry) (total' : ℕ) (tab' : List DbHashEntry)
    → ((n n' : ℕ) (x x' : DbHashEntry) → f n x ≡ some (n', x') → x'.db_oid ≡ x.db_oid)
    → find_entry oid tab ≡ some e
    → at_entry oid f total tab ≡ some (total', tab')
    → (e' : DbHashEntry) × (f total e ≡ some (total', e')) × (find_entry oid tab' ≡ some e')
find_entry-at_entry oid f total [] e total' tab' keeps h k = absurd (unfold find_entry in cc)
find_entry-at_entry oid f total (x ∷ tab) e total' tab' keeps h k =
    elim (Bool-cases (x.db_oid == oid)) [
      | inl same ↦
          let oid_x : x.db_oid ≡ oid = (==_iff x.db_oid oid).0 same in
          let ((t, x'), p, q) =
            >>=-some (f total x) (λ (t, e'). (t, e' ∷ tab))
              (sym (at_entry-cons oid f total x tab true same) ∙ k) in
          let qt = ap (λ (z : ℕ × List DbHashEntry). z.0) q in
          let qs = ap (λ (z : ℕ × List DbHashEntry). z.1) q in
          let found = sym (find_entry-cons_self oid x tab oid_x) ∙ h in
          (
            x',
            ap (f total) (sym (some-injective x e found)) ∙ p ∙ ap (λ z. some (z, x')) qt,
            ap (find_entry oid) (sym qs)
                ∙ find_entry-cons_self oid x' tab (keeps total t x x' p ∙ oid_x),
          )
      | inr other ↦
          let ((t, rest), p, q) =
            >>=-some (at_entry oid f total tab) (λ (t, tab''). (t, x ∷ tab''))
              (sym (at_entry-cons oid f total x tab false other) ∙ k) in
          let (e', a, b) =
            find_entry-at_entry oid f total tab e t rest keeps
              (sym (find_entry-cons_ne oid x tab other) ∙ h) p in
          let qt = ap (λ (z : ℕ × List DbHashEntry). z.0) q in
          let qs = ap (λ (z : ℕ × List DbHashEntry). z.1) q in
          (
            e',
            a ∙ ap (λ z. some (z, e')) qt,
            ap (find_entry oid) (sym qs) ∙ find_entry-cons_ne oid x rest other ∙ b,
          )
    ]

module _ (m : ℕ) (env : Env) (n n' : ℕ) (x x' : DbHashEntry) where
  -- A stop leaves its database disabled, whatever state it was in.
  stop_entry_disables :
      stop_entry m env n x ≡ some (n', x') → (x'.state ≡ disabled) × (x'.db_oid ≡ x.db_oid)
  unfolding stop_entry
  stop_entry_disables h = ground arith

message_entry_disables :
    (m : ℕ) (env : Env) (vxid : Option ℕ) (type : BgwMessageType) (n n' : ℕ) (x x' : DbHashEntry)
    → type ≡ stop
    → message_entry m env vxid type n x ≡ some (n', x')
    → (x'.state ≡ disabled) × (x'.db_oid ≡ x.db_oid)
unfolding message_entry
message_entry_disables m env vxid stop n n' x x' t h = stop_entry_disables m env n n' x x' h
message_entry_disables m env vxid start n n' x x' t h = absurd (cc)
message_entry_disables m env vxid restart n n' x x' t h = absurd (cc)

acknowledge-wanted :
    (s : SchedulerState) (e : DbHashEntry) → e.state ≡ s → acknowledge s (some e) ≡ ack_success
acknowledge-wanted s e h = ground (arith)

-- A stop message that is handled disables its database and is acknowledged, whatever the state of
-- the table.
pub stop_acknowledged :
    (m : ℕ) (env : Env) (vxid : Option ℕ) (message : BgwMessage) (l l' : Launcher)
    (ack : Option AckResult)
    → message.message_type ≡ stop
    → handle_message m env (some vxid) message l ≡ some (l', ack)
    → (ack ≡ some ack_success)
      × ((e : DbHashEntry) × (find_entry message.db_oid l'.db_htab ≡ some e) × (e.state ≡ disabled))
unfolding handle_message
stop_acknowledged m env vxid message l l' ack type h =
    let oid = message.db_oid in
    let act = message_entry m env vxid message.message_type in
    let l0 = create_if_not_exists m oid l in
    let (x, found) = find_entry-create m oid l in
    let ((total, tab), p, q) =
      >>=-some (at_entry oid act l0.total_workers l0.db_htab)
        (λ (total, tab). (
          record { total_workers = total; db_htab = tab },
          some (acknowledge (wanted message.message_type) (find_entry oid tab)),
        ))
        h in
    let (e, made, here) =
      find_entry-at_entry oid act l0.total_workers l0.db_htab x total tab
        (λ n n' y y' k. (message_entry_disables m env vxid message.message_type n n' y y' type k).1)
        found p in
    let off =
      (message_entry_disables m env vxid message.message_type l0.total_workers total x e type
        made).0 in
    let qa = ap (λ (z : Launcher × Option AckResult). z.1) q in
    let ql = ap (λ (z : Launcher × Option AckResult). z.0.db_htab) q in
    (
      sym qa ∙ ap some (ap₂ acknowledge (ap wanted type) here ∙ acknowledge-wanted disabled e off),
      (e, ap (find_entry oid) (sym ql) ∙ here, off),
    )
