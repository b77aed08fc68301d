-- ===== src/Loader/MessageQueue.antt =====
-- src/loader/bgw_message_queue.c: a circular queue of at most 16 messages in shared memory, with one
-- reader. Each operation holds the queue's lock while it changes the buffer, so it is one step.
-- A process id is a number; `none` stands for InvalidPid. The acknowledgement queue is shm_mq of
-- PostgreSQL and is not modelled.
pub mod Contents
pub mod Refine
mod Tests
use timescaledb.Base.{
  ℕ, ◌+◌, ◌-◌, ◌%◌, ◌≡◌, Bool, true, false, Option, none, some, List, [], ◌∷◌, if◌then◌else◌, ltb,
  ◌==◌, get_or, set, replicate,
}

abbrev pub max_messages : ℕ
max_messages = 16

pub data BgwMessageType : Type 0 where
  stop start restart : BgwMessageType

pub record BgwMessage : Type 0 where
  pub message_type : BgwMessageType
  pub sender_pid : ℕ
  pub db_oid : ℕ
  pub ack_dsm_handle : ℕ

pub record MessageQueue : Type 0 where
  pub reader_pid : Option ℕ
  pub read_upto : ℕ
  pub num_elements : ℕ
  pub buffer : List BgwMessage

pub data QueueResponseType : Type 0 where
  message_sent queue_full reader_detached : QueueResponseType

-- A message of zeroed memory.
abbrev pub zero_message : BgwMessage
zero_message = record { message_type = stop; sender_pid = 0; db_oid = 0; ack_dsm_handle = 0 }

unfoldable pub init : MessageQueue
init = record {
  reader_pid = none;
  read_upto = 0;
  num_elements = 0;
  buffer = replicate max_messages zero_message;
}

abbrev pub is_reader : ℕ → Option ℕ → Bool
is_reader pid none = false
is_reader pid (some p) = p == pid

-- `none` is the error that another process is the reader.
unfoldable pub set_reader : ℕ → MessageQueue → Option MessageQueue
set_reader my_pid queue =
    let reader : Option ℕ = elim queue.reader_pid [ none ↦ some my_pid | some p ↦ some p ] in
    if is_reader my_pid reader then some (record queue { reader_pid = reader }) else none

-- `none` is the error that this process is not the reader.
unfoldable pub reset_reader : ℕ → MessageQueue → Option MessageQueue
reset_reader my_pid queue =
    if is_reader my_pid queue.reader_pid then some (record queue { reader_pid = none }) else none

-- What `queue_add` does under the lock. `num_elements` and `read_upto` are of type uint8.
unfoldable pub store : MessageQueue → BgwMessage → MessageQueue
store queue message =
    let index = (queue.read_upto + queue.num_elements) % max_messages in
    if ltb queue.num_elements max_messages
    then record queue {
      buffer = set queue.buffer index message;
      num_elements = (queue.num_elements + 1) % 256;
    }
    else queue

-- A message that is stored while there is no reader is answered by `reader_detached`, and stays.
unfoldable pub add : MessageQueue → BgwMessage → MessageQueue × QueueResponseType
unfolding store
add queue message = (
  store queue message,
  elim queue.reader_pid [
    | none ↦ reader_detached
    | some _ ↦ if ltb queue.num_elements max_messages then message_sent else queue_full
  ],
)

unfoldable pub advance : MessageQueue → MessageQueue
advance queue = record queue {
  read_upto = (queue.read_upto + 1) % max_messages;
  num_elements = queue.num_elements - 1;
}

-- `none` is the error that this process is not the reader; else the message, if there is one.
unfoldable pub remove : ℕ → MessageQueue → Option (MessageQueue × Option BgwMessage)
unfolding advance
remove my_pid queue =
    if is_reader my_pid queue.reader_pid
    then some (
        if ltb 0 queue.num_elements
        then (advance queue, some (get_or queue.buffer queue.read_upto zero_message))
        else (queue, none))
    else none
