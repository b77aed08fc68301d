-- ===== src/Loader/MessageQueue/Tests.antt =====
-- A queue with a reader, at concrete calls.
use timescaledb.Base.{◌≡◌, refl, some, [], ◌∷◌, replicate, arith}
use timescaledb.Loader.MessageQueue.{BgwMessage, MessageQueue, start, max_messages, zero_message}
use timescaledb.Loader.MessageQueue.Contents.{contents, IsValid}
use timescaledb.Loader.MessageQueue.Refine.{send, receive, run, fifo, run-fifo}

abbrev request : BgwMessage
request = record { message_type = start; sender_pid = 7; db_oid = 5; ack_dsm_handle = 1 }

abbrev watched : MessageQueue
watched = record {
  reader_pid = some 3;
  read_upto = 15;
  num_elements = 0;
  buffer = replicate max_messages zero_message;
}

watched-IsValid : IsValid watched
watched-IsValid = record { reads_inside = omega arith; fits = omega arith; sized = refl }

run-fifo_example :
    run 3 watched (send request ∷ send request ∷ receive ∷ receive ∷ receive ∷ [])
    ≡ some
        (fifo (contents watched) (send request ∷ send request ∷ receive ∷ receive ∷ receive ∷ []))
run-fifo_example =
    run-fifo 3 watched (send request ∷ send request ∷ receive ∷ receive ∷ receive ∷ [])
      watched-IsValid refl
