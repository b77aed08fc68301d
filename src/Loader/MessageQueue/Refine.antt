-- ===== src/Loader/MessageQueue/Refine.antt =====
-- The calls of src/loader/bgw_message_queue.c against a FIFO of at most 16 messages.
use timescaledb.Base.{
  ℕ, ◌≡◌, refl, ap, ◌∙◌, Option, none, some, List, [], ◌∷◌, ◌++◌, length, arith, if◌then◌else◌, ltb,
  ◌>>=◌, inl, inr,
}
use timescaledb.Loader.MessageQueue.{
  MessageQueue, BgwMessage, QueueResponseType, message_sent, queue_full, max_messages, add, remove,
}
use timescaledb.Loader.MessageQueue.Contents.{
  contents, IsValid, length-contents, contents-add, contents-remove, add-IsValid, remove-IsValid,
}
use mathlib.Core.Option

-- What a backend and the launcher see of a FIFO of at most 16 messages.
pub data Op : Type 0 where
  send : BgwMessage → Op
  receive : Op

pub data Reply : Type 0 where
  sent : QueueResponseType → Reply
  received : Option BgwMessage → Reply

pub fifo : List BgwMessage → List Op → List Reply
fifo ms [] = []
fifo ms (send m ∷ ops) =
    if ltb (length ms) max_messages
    then sent message_sent ∷ fifo (ms ++ (m ∷ [])) ops
    else sent queue_full ∷ fifo ms ops
fifo [] (receive ∷ ops) = received none ∷ fifo [] ops
fifo (m ∷ ms) (receive ∷ ops) = received (some m) ∷ fifo ms ops

-- The same calls on the queue. `none` is an error of the reader.
pub run : ℕ → MessageQueue → List Op → Option (List Reply)
run pid queue [] = some []
run pid queue (send m ∷ ops) =
    let (q, response) = add queue m in Option.map (◌∷◌ (sent response)) (run pid q ops)
run pid queue (receive ∷ ops) = do
  (q, m) ← remove pid queue
  replies ← run pid q ops
  some (received m ∷ replies)

add_reader : (queue : MessageQueue) (m : BgwMessage) → (add queue m).0.reader_pid ≡ queue.reader_pid
unfolding add
add_reader queue m = ground arith

add_response :
    (queue : MessageQueue) (m : BgwMessage) (pid : ℕ)
    → queue.reader_pid ≡ some pid
    → (add queue m).1
      ≡ (if ltb (length (contents queue)) max_messages then message_sent else queue_full)
unfolding add
add_response queue m pid e = rw length-contents (ground arith)

run_step_send :
    (pid : ℕ) (queue : MessageQueue) (m : BgwMessage) (ops : List Op)
    → run pid queue (send m ∷ ops)
      ≡ Option.map (◌∷◌ (sent (add queue m).1)) (run pid (add queue m).0 ops)
unfolding run
run_step_send pid queue m ops = refl

-- With a reader attached, any calls on a valid queue answer as the FIFO of its contents does.
pub run-fifo :
    (pid : ℕ) (queue : MessageQueue) (ops : List Op)
    → IsValid queue
    → queue.reader_pid ≡ some pid
    → run pid queue ops ≡ some (fifo (contents queue) ops)
unfolding run fifo
run-fifo pid queue [] v e = refl
run-fifo pid queue (send m ∷ ops) v e =
    let (q, response) = add queue m in
    run_step_send pid queue m ops
    ∙ ap (Option.map (◌∷◌ (sent response)))
        (run-fifo pid q ops (add-IsValid queue m v) (add_reader queue m ∙ e))
    ∙ rw (contents-add queue m v, add_response queue m pid e) (ground arith)
run-fifo pid queue (receive ∷ ops) v e = elim (contents-remove queue pid v e) [
  | inl (nothing, r) ↦ rw nothing (rw (r, rw nothing at (run-fifo pid queue ops v e)) refl)
  | inr (q', m, r, c, k) ↦
      rw c (rw (r, run-fifo pid q' ops (remove-IsValid queue q' pid (some m) v r) k) refl)
]
