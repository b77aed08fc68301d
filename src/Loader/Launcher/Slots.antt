-- ===== src/Loader/Launcher/Slots.antt =====
-- The hash table of the launcher against the count of workers.
use timescaledb.Base.{
  ℕ, ◌+◌, ◌≤◌, ◌≡◌, inl, inr, refl, Bool-cases, Option, none, some, List, [], ◌∷◌, ◌++◌, arith,
  ◌==◌, Option-cases, ◌>>=◌,
}
use timescaledb.Loader.Counter.{increment}
use timescaledb.Loader.MessageQueue.{BgwMessageType, stop, start, restart}
use timescaledb.Loader.Launcher.{
  DbHashEntry, Env, Launcher, message_entry, at_entry, new_entry, find_entry, enabled_to_allocated,
  create_if_not_exists, populate,
}
use timescaledb.Loader.Launcher.Steps.{
  slot_of, IsEntry, PostmasterDied, Ends, start_entry-Ends, stop_entry-Ends, restart_entry-Ends,
}

abbrev pub slots : List DbHashEntry → ℕ
slots [] = 0
slots (e ∷ tab) = slot_of e.state + slots tab

abbrev pub AllEntries : List DbHashEntry → Type 0
AllEntries [] = Unit
AllEntries (e ∷ tab) = IsEntry e × AllEntries tab

-- What a pass over the table may end in, as for one entry.
abbrev pub EndsAll : ℕ → Type 0 → ℕ → List DbHashEntry → Option (ℕ × List DbHashEntry) → Type 0
EndsAll max_workers Died total tab none = Died
EndsAll max_workers Died total tab (some (total', tab')) =
    (total' + slots tab ≡ total + slots tab') × (total' ≤ max_workers) × AllEntries tab'

message_entry-Ends :
    (max_workers : ℕ) (env : Env) (vxid : Option ℕ) (type : BgwMessageType) (total : ℕ)
    (e : DbHashEntry)
    → 1 + slot_of e.state ≤ total
    → total ≤ max_workers
    → IsEntry e
    → Ends max_workers env total e (message_entry max_workers env vxid type total e)
unfolding message_entry
message_entry-Ends m env vxid start total e r l v = start_entry-Ends m env total e r l v
message_entry-Ends m env vxid stop total e r l v = stop_entry-Ends m env total e r l v
message_entry-Ends m env vxid restart total e r l v = restart_entry-Ends m env total e r l v vxid

here-EndsAll :
    (m total : ℕ) (env : Env) (e : DbHashEntry) (tab : List DbHashEntry)
    (r : Option (ℕ × DbHashEntry))
    → AllEntries tab
    → Ends m env total e r
    → EndsAll m (PostmasterDied env) total (e ∷ tab) (r >>= λ (total', e'). some (total', e' ∷ tab))
here-EndsAll m total env e tab none v h = h
here-EndsAll m total env e tab (some (total', e')) v h = (omega arith, h.1, (h.2, v))

there-EndsAll :
    (m total : ℕ) (Died : Type 0) (e : DbHashEntry) (tab : List DbHashEntry)
    (r : Option (ℕ × List DbHashEntry))
    → IsEntry e
    → EndsAll m Died total tab r
    → EndsAll m Died total (e ∷ tab) (r >>= λ (total', tab'). some (total', e ∷ tab'))
there-EndsAll m total Died e tab none v h = h
there-EndsAll m total Died e tab (some (total', tab')) v h = (omega arith, h.1, (v, h.2))

pub message-EndsAll :
    (m : ℕ) (env : Env) (vxid : Option ℕ) (type : BgwMessageType) (oid total : ℕ)
    (tab : List DbHashEntry)
    → 1 + slots tab ≤ total
    → total ≤ m
    → AllEntries tab
    → EndsAll m
        (PostmasterDied env)
        total
        tab
        (at_entry oid (message_entry m env vxid type) total tab)
unfolding at_entry
message-EndsAll m env vxid type oid total [] r l v = (refl, l, tt)
message-EndsAll m env vxid type oid total (e ∷ tab) r l v = elim (Bool-cases (e.db_oid == oid)) [
  | inl same ↦ rw same (
      here-EndsAll m total env e tab (message_entry m env vxid type total e) v.1
        (message_entry-Ends m env vxid type total e (omega arith) l v.0))
  | inr other ↦ rw other (
      there-EndsAll m total (PostmasterDied env) e tab
        (at_entry oid (message_entry m env vxid type) total tab) v.0
        (message-EndsAll m env vxid type oid total tab (omega arith) l v.1))
]

AllEntries-snoc :
    (tab : List DbHashEntry) (e : DbHashEntry)
    → AllEntries tab
    → IsEntry e
    → AllEntries (tab ++ (e ∷ [])) × (slots (tab ++ (e ∷ [])) ≡ slots tab + slot_of e.state)
AllEntries-snoc [] e v w = ((w, tt), omega arith)
AllEntries-snoc (x ∷ tab) e v w =
    let ih = AllEntries-snoc tab e v.1 w in ((v.0, ih.0), omega (arith, ih.1))

-- The launcher counts itself, a worker for each slot and the workers of the schedulers' jobs.
pub record Inv (max_workers others : ℕ) (l : Launcher) : Type 0 where
  pub counted : l.total_workers ≡ 1 + slots l.db_htab + others
  pub limited : l.total_workers ≤ max_workers
  pub entries : AllEntries l.db_htab

fresh-IsEntry :
    (m oid total : ℕ)
    → total ≤ m
    → let (total', e) = enabled_to_allocated m total (new_entry oid) in
      (total' ≡ total + slot_of e.state) × (total' ≤ m) × IsEntry e
unfolding enabled_to_allocated increment
fresh-IsEntry m oid total l = ground arith

pub create-Inv :
    (m others oid : ℕ) (l : Launcher) → Inv m others l → Inv m others (create_if_not_exists m oid l)
unfolding create_if_not_exists
create-Inv m others oid l v = elim (Option-cases (find_entry oid l.db_htab)) [
  | inr (e, p) ↦ rw (p, create_if_not_exists) v
  | inl p ↦
      let (total, e) = enabled_to_allocated m l.total_workers (new_entry oid) in
      let (moved, within, fresh) = fresh-IsEntry m oid l.total_workers v.limited in
      let (valid, sum) = AllEntries-snoc l.db_htab e v.entries fresh in
      rw (p, create_if_not_exists)
        (record { counted = omega (arith, v.counted); limited = within; entries = valid })
]

pub populate-Inv :
    (m others : ℕ) (dbs : List ℕ) (l : Launcher) → Inv m others l → Inv m others (populate m dbs l)
unfolding populate
populate-Inv m others [] l v = v
populate-Inv m others (db ∷ dbs) l v = populate-Inv m others dbs _ (create-Inv m others db l v)
