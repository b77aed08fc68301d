-- ===== src/Loader/MessageQueue/Contents.antt =====
-- The queue as a FIFO of at most 16 messages, oldest first.
use timescaledb.Base.{
  ℕ, zero, suc, ◌+◌, ◌-◌, ◌%◌, ◌≤◌, ◌<◌, ◌≡◌, ◌≢◌, refl, ap, ap₂, ◌∙◌, Option, none, some, List, [],
  ◌∷◌, ◌++◌, length, length-set, get_or, set, arith, if◌then◌else◌, ltb, lt→ltb, le→ltb, ==_refl,
  ◌⊎◌, inl, inr,
}
use native.Mathlib.Decide.{dec_lt}
use timescaledb.Loader.MessageQueue.{
  MessageQueue, BgwMessage, max_messages, zero_message, init, add, remove, store, advance,
}

get_or-set_self :
    (xs : List BgwMessage) (i : ℕ) (v d : BgwMessage) → i < length xs → get_or (set xs i v) i d ≡ v
get_or-set_self [] i v d h = absurd (omega arith)
get_or-set_self (x ∷ xs) zero v d h = refl
get_or-set_self (x ∷ xs) (suc i) v d h = get_or-set_self xs i v d (omega arith)

get_or-set_ne :
    (xs : List BgwMessage) (i j : ℕ) (v d : BgwMessage)
    → i ≢ j
    → get_or (set xs i v) j d ≡ get_or xs j d
get_or-set_ne [] i j v d h = refl
get_or-set_ne (x ∷ xs) zero zero v d h = absurd (h refl)
get_or-set_ne (x ∷ xs) zero (suc j) v d h = refl
get_or-set_ne (x ∷ xs) (suc i) zero v d h = refl
get_or-set_ne (x ∷ xs) (suc i) (suc j) v d h = get_or-set_ne xs i j v d (λ e. h (ap suc e))

-- The `n` slots from index `r` on, around the end of the buffer.
pub window : List BgwMessage → ℕ → ℕ → List BgwMessage
window buffer r zero = []
window buffer r (suc n) = get_or buffer (r % max_messages) zero_message ∷ window buffer (r + 1) n

pub contents : MessageQueue → List BgwMessage
contents queue = window queue.buffer queue.read_upto queue.num_elements

pub record IsValid (queue : MessageQueue) : Type 0 where
  pub reads_inside : queue.read_upto < max_messages
  pub fits : queue.num_elements ≤ max_messages
  pub sized : length queue.buffer ≡ max_messages

-- A write to a slot outside the window leaves it.
window-set :
    (buffer : List BgwMessage) (i r n : ℕ) (v : BgwMessage)
    → ((k : ℕ) → k < n → (r + k) % max_messages ≢ i)
    → window (set buffer i v) r n ≡ window buffer r n
unfolding window
window-set buffer i r zero v h = refl
window-set buffer i r (suc n) v h =
    ap₂ ◌∷◌
      (get_or-set_ne buffer i (r % max_messages) v zero_message
        (λ e. h 0 (omega arith) (omega arith)))
      (window-set buffer i (r + 1) n v (λ k lt e. h (k + 1) (omega arith) (omega arith)))

-- One more slot is at the end.
window_snoc :
    (buffer : List BgwMessage) (r n : ℕ)
    → window buffer r (suc n)
      ≡ window buffer r n ++ (get_or buffer ((r + n) % max_messages) zero_message ∷ [])
unfolding window
window_snoc buffer r zero = ap (λ k. get_or buffer k zero_message ∷ []) (omega arith)
window_snoc buffer r (suc n) = ap (◌∷◌ (get_or buffer (r % max_messages) zero_message)) (
    window_snoc buffer (r + 1) n
    ∙ ap (λ k. window buffer (r + 1) n ++ (get_or buffer k zero_message ∷ [])) (omega arith))

window_wrap :
    (buffer : List BgwMessage) (r s n : ℕ)
    → r % max_messages ≡ s % max_messages
    → window buffer r n ≡ window buffer s n
unfolding window
window_wrap buffer r s zero h = refl
window_wrap buffer r s (suc n) h =
    ap₂ ◌∷◌ (ap (λ k. get_or buffer k zero_message) h)
      (window_wrap buffer (r + 1) (s + 1) n (omega arith))

length-window : (buffer : List BgwMessage) (r n : ℕ) → length (window buffer r n) ≡ n
unfolding window
length-window buffer r zero = refl
length-window buffer r (suc n) = ap suc (length-window buffer (r + 1) n)

pub length-contents : (queue : MessageQueue) → length (contents queue) ≡ queue.num_elements
unfolding contents
length-contents queue = length-window queue.buffer queue.read_upto queue.num_elements

pub init-IsValid : IsValid init
unfolding init
init-IsValid = record { reads_inside = omega arith; fits = omega arith; sized = refl }

pub contents-init : contents init ≡ []
unfolding init contents window
contents-init = refl

pub add-IsValid : (queue : MessageQueue) (m : BgwMessage) → IsValid queue → IsValid (add queue m).0
unfolding add
add-IsValid queue m v =
    ground
      (arith, length-set queue.buffer ((queue.read_upto + queue.num_elements) % max_messages) m)

contents-store :
    (queue : MessageQueue) (m : BgwMessage)
    → IsValid queue
    → queue.num_elements < max_messages
    → contents (store queue m) ≡ contents queue ++ (m ∷ [])
unfolding store contents
contents-store queue m v h =
    let r = queue.read_upto in
    let n = queue.num_elements in
    let at = (r + n) % max_messages in
    rw (lt→ltb n max_messages h) (
      ap (window (set queue.buffer at m) r) (omega arith)
      ∙ window_snoc (set queue.buffer at m) r n
      ∙ ap₂ (λ xs x. xs ++ (x ∷ [])) (window-set queue.buffer at r n m (λ k lt e. omega arith))
          (get_or-set_self queue.buffer at m zero_message (omega arith)))

contents-store_full :
    (queue : MessageQueue) (m : BgwMessage)
    → max_messages ≤ queue.num_elements
    → store queue m ≡ queue
unfolding store
contents-store_full queue m h = rw (le→ltb queue.num_elements max_messages h) refl

-- A message is added at the end, while there are fewer than 16.
pub contents-add :
    (queue : MessageQueue) (m : BgwMessage)
    → IsValid queue
    → contents (add queue m).0 ≡ (
        if ltb (length (contents queue)) max_messages
        then contents queue ++ (m ∷ [])
        else contents queue)
contents-add queue m v = rw length-contents (elim (dec_lt queue.num_elements max_messages) [
  | yes h ↦ rw (lt→ltb _ _ h) (unfold add in contents-store queue m v h)
  | no h ↦
      rw (le→ltb queue.num_elements max_messages (omega arith))
        (unfold add in ap contents (contents-store_full queue m (omega arith)))
])

pub remove-IsValid :
    (queue q' : MessageQueue) (pid : ℕ) (r : Option BgwMessage)
    → IsValid queue
    → remove pid queue ≡ some (q', r)
    → IsValid q'
unfolding remove
remove-IsValid queue q' pid r v h = ground arith

abbrev oldest : MessageQueue → BgwMessage
oldest queue = get_or queue.buffer queue.read_upto zero_message

remove-some :
    (queue : MessageQueue) (pid : ℕ)
    → queue.reader_pid ≡ some pid
    → 0 < queue.num_elements
    → remove pid queue ≡ some (advance queue, some (oldest queue))
unfolding remove
remove-some queue pid e h = ground (arith, ==_refl pid)

remove-none :
    (queue : MessageQueue) (pid : ℕ)
    → queue.reader_pid ≡ some pid
    → queue.num_elements ≡ 0
    → remove pid queue ≡ some (queue, none)
unfolding remove
remove-none queue pid e h = ground (arith, ==_refl pid)

contents_nil : (queue : MessageQueue) → queue.num_elements ≡ 0 → contents queue ≡ []
unfolding contents window
contents_nil queue e = ap (window queue.buffer queue.read_upto) e

window_cons :
    (buffer : List BgwMessage) (r n : ℕ)
    → 0 < n
    → window buffer r n
      ≡ get_or buffer (r % max_messages) zero_message ∷ window buffer (r + 1) (n - 1)
unfolding window
window_cons buffer r zero h = elim h [ ]
window_cons buffer r (suc n) h =
    ap (λ k. get_or buffer (r % max_messages) zero_message ∷ window buffer (r + 1) k) (omega arith)

contents_cons :
    (queue : MessageQueue)
    → IsValid queue
    → 0 < queue.num_elements
    → contents queue ≡ oldest queue ∷ contents (advance queue)
unfolding contents advance
contents_cons queue v h =
    window_cons queue.buffer queue.read_upto queue.num_elements h
    ∙ ap₂ ◌∷◌ (ap (λ k. get_or queue.buffer k zero_message) (omega arith)) (
        window_wrap queue.buffer (queue.read_upto + 1) ((queue.read_upto + 1) % max_messages)
          (queue.num_elements - 1) (omega arith))

-- The reader takes the oldest message, if there is one.
pub contents-remove :
    (queue : MessageQueue) (pid : ℕ)
    → IsValid queue
    → queue.reader_pid ≡ some pid
    → ((contents queue ≡ []) × (remove pid queue ≡ some (queue, none)))
      ⊎ ((q' : MessageQueue) × (m : BgwMessage) × (remove pid queue ≡ some (q', some m))
          × (contents queue ≡ m ∷ contents q')
          × (q'.reader_pid ≡ some pid))
contents-remove queue pid v e = elim (dec_lt 0 queue.num_elements) [
  | yes h ↦ inr (
    advance queue,
    oldest queue,
    remove-some queue pid e h,
    contents_cons queue v h,
    unfold advance in e,
  )
  | no h ↦ inl (contents_nil queue (omega arith), remove-none queue pid e (omega arith))
]
