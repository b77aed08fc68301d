-- ===== src/Loader/Launcher/Reach.antt =====
-- Every state that the launcher can come to, among other processes that count workers too. The code
-- holds the lock for one count only: that a process counts within a message or a poll of the launcher is
-- not modelled, nor is a restart of the launcher while workers of others run.
use timescaledb.Base.{
  ℕ, ◌+◌, ◌≤◌, ◌≡◌, refl, true, Option, none, some, List, [], ◌∷◌, arith, ◌>>=◌, subst, ◌<◌, ◌-◌,
}
use timescaledb.Loader.Counter.{increment, decrement, reinit, increment_lem, decrement_lem}
use timescaledb.Loader.MessageQueue.{BgwMessage}
use timescaledb.Loader.Launcher.{
  DbHashEntry, Env, Launcher, AckResult, create_if_not_exists, populate, trans_automatic,
  trans_automatic_all, handle_message,
}
use timescaledb.Loader.Launcher.Steps.{PostmasterDied, Ends, trans_automatic-Ends}
use timescaledb.Loader.Launcher.Slots.{
  slots, AllEntries, EndsAll, Inv, message-EndsAll, create-Inv, populate-Inv,
}

-- One message keeps the invariant; the launcher exits over it only if the postmaster died.
abbrev pub Handled : ℕ → ℕ → Env → Option (Launcher × Option AckResult) → Type 0
Handled m others env none = PostmasterDied env
Handled m others env (some (l, ack)) = Inv m others l

finish-Handled :
    (m others : ℕ) (env : Env) (l : Launcher) (r : Option (ℕ × List DbHashEntry))
    (k : List DbHashEntry → Option AckResult)
    → Inv m others l
    → EndsAll m (PostmasterDied env) l.total_workers l.db_htab r
    → Handled m others env
        (r >>= λ (total, tab). some (record { total_workers = total; db_htab = tab }, k tab))
finish-Handled m others env l none k v h = h
finish-Handled m others env l (some (total, tab)) k v h = record {
  counted = omega (arith, v.counted, h.0);
  limited = h.1;
  entries = h.2;
}

-- A message from any backend, in any state that satisfies the invariant, keeps it: each database
-- holds one worker exactly while it is allocated or started. The launcher exits over a message only
-- if the postmaster died.
pub handle_message-Inv :
    (m others : ℕ) (env : Env) (sender : Option (Option ℕ)) (message : BgwMessage) (l : Launcher)
    → Inv m others l
    → Handled m others env (handle_message m env sender message l)
unfolding handle_message
handle_message-Inv m others env none message l v = v
handle_message-Inv m others env (some vxid) message l v =
    let w = create-Inv m others message.db_oid l v in
    let l' = create_if_not_exists m message.db_oid l in
    finish-Handled m others env l' _ _ w (
      message-EndsAll m env vxid message.message_type message.db_oid l'.total_workers l'.db_htab
        (omega (arith, w.counted)) w.limited w.entries)

-- A poll of all databases.
abbrev SomeDied : (ℕ → Env) → Type 0
SomeDied env = (db : ℕ) × PostmasterDied (env db)

all_after :
    (m : ℕ) (env : ℕ → Env) (e : DbHashEntry) (tab : List DbHashEntry) (total total' : ℕ)
    (e' : DbHashEntry) (r : Option (ℕ × List DbHashEntry))
    → Ends m (env e.db_oid) total e (some (total', e'))
    → EndsAll m (SomeDied env) total' tab r
    → EndsAll m (SomeDied env) total (e ∷ tab) (r >>= λ (t, tab'). some (t, e' ∷ tab'))
all_after m env e tab total total' e' none h k = k
all_after m env e tab total total' e' (some (t, tab')) h k = (omega arith, k.1, (h.2, k.2))

all-EndsAll :
    (m : ℕ) (env : ℕ → Env) (total : ℕ) (tab : List DbHashEntry)
    → 1 + slots tab ≤ total
    → total ≤ m
    → AllEntries tab
    → EndsAll m (SomeDied env) total tab (trans_automatic_all m env total tab)
unfolding trans_automatic_all
all-EndsAll m env total [] r l v = (refl, l, tt)
all-EndsAll m env total (e ∷ tab) r l v =
    go (trans_automatic m (env e.db_oid) total e)
      (trans_automatic-Ends m (env e.db_oid) total e (omega arith) l v.0)
      (λ t room limit. all-EndsAll m env t tab room limit v.1)
  where
    go :
        (x : Option (ℕ × DbHashEntry))
        → Ends m (env e.db_oid) total e x
        → ((t : ℕ)
            → 1 + slots tab ≤ t
            → t ≤ m
            → EndsAll m (SomeDied env) t tab (trans_automatic_all m env t tab))
        → EndsAll m (SomeDied env) total (e ∷ tab) (
            x >>= λ (t, e'). trans_automatic_all m env t tab >>= λ (t', tab'). some (t', e' ∷ tab'))
    go none h k = (e.db_oid, h)
    go (some (t, e')) h k = all_after m env e tab total t e' _ h (k t (omega arith) h.1)

-- The launcher, and how many workers other processes have counted.
pub record System : Type 0 where
  pub launcher : Launcher
  pub others : ℕ

-- A message, a poll, a look for new databases; and, in another process, one worker more or less.
pub data Step (m : ℕ) : System → System → Type 0 where
  handles :
      {s : System} (env : Env) (sender : Option (Option ℕ)) (message : BgwMessage) (l : Launcher)
      (ack : Option AckResult)
      → handle_message m env sender message s.launcher ≡ some (l, ack)
      → Step m s (record s { launcher = l })
  polls :
      {s : System} (env : ℕ → Env) (total : ℕ) (tab : List DbHashEntry)
      → trans_automatic_all m env s.launcher.total_workers s.launcher.db_htab ≡ some (total, tab)
      → Step m s (record s { launcher = record { total_workers = total; db_htab = tab } })
  populates :
      {s : System} (dbs : List ℕ) → Step m s (record s { launcher = populate m dbs s.launcher })
  reserves :
      {s : System} (total : ℕ)
      → increment m s.launcher.total_workers ≡ (total, true)
      → Step m s (record {
        launcher = record { total_workers = total; db_htab = s.launcher.db_htab };
        others = s.others + 1;
      })
  releases :
      {s : System} (total : ℕ)
      → 0 < s.others
      → decrement s.launcher.total_workers ≡ some total
      → Step m s (record {
        launcher = record { total_workers = total; db_htab = s.launcher.db_htab };
        others = s.others - 1;
      })

pub data Reach (m : ℕ) (s : System) : System → Type 0 where
  here : Reach m s s
  next : {t u : System} → Reach m s t → Step m t u → Reach m s u

abbrev pub SystemInv : ℕ → System → Type 0
SystemInv m s = Inv m s.others s.launcher

Step-Inv : {m : ℕ} {s t : System} → Step m s t → SystemInv m s → SystemInv m t
Step-Inv {m} {s} (handles env sender message l ack e) v =
    subst (Handled m s.others env) e (handle_message-Inv m s.others env sender message s.launcher v)
Step-Inv {m} {s} (polls env total tab e) v =
    let (a, b, c) = subst (EndsAll m (SomeDied env) s.launcher.total_workers s.launcher.db_htab) e (
      all-EndsAll m env s.launcher.total_workers s.launcher.db_htab (omega (arith, v.counted))
        v.limited v.entries) in
    record { counted = omega (arith, a, v.counted); limited = b; entries = c }
Step-Inv {m} {s} (populates dbs) v = populate-Inv m s.others dbs s.launcher v
Step-Inv {m} {s} (reserves total e) v =
    let (one, limit) = increment_lem m s.launcher.total_workers total e in
    record { counted = omega (arith, v.counted); limited = limit; entries = v.entries }
Step-Inv {m} {s} (releases total h e) v =
    let (one, kept) = decrement_lem s.launcher.total_workers total e in
    record {
      counted = omega (arith, v.counted);
      limited = omega (arith, v.limited);
      entries = v.entries;
    }

-- `s` is the launcher after it has set the count to zero and counted itself, while nobody else holds a
-- worker.
abbrev pub IsInitial : ℕ → System → Type 0
IsInitial m s =
    (previous : ℕ) × (increment m (reinit previous) ≡ (s.launcher.total_workers, true))
    × (s.launcher.db_htab ≡ [])
    × (s.others ≡ 0)

initial-Inv : (m : ℕ) (s : System) → IsInitial m s → SystemInv m s
unfolding reinit
initial-Inv m s (previous, e, none_yet, nobody) =
    let (one, limit) = increment_lem m 0 s.launcher.total_workers e in
    record {
      counted = rw (none_yet, nobody) (omega (arith, one));
      limited = limit;
      entries = rw none_yet tt;
    }

-- From a start at which no other process holds a worker, and with each message, each poll of all
-- databases and each look for new ones taken as one step between the reservations and releases of
-- other processes, the shared count is the launcher, one worker for each database that is allocated or
-- started, and the workers of the others, within the limit; and only a started scheduler has a handle.
pub Reach-Inv : (m : ℕ) (s t : System) → IsInitial m s → Reach m s t → SystemInv m t
Reach-Inv m s t i here = initial-Inv m s i
Reach-Inv m s t i (next r st) = Step-Inv st (Reach-Inv m s _ i r)
