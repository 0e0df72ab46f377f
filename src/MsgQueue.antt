-- ===== src/MsgQueue.antt =====
-- `SimpleMessageQueue` of src/common/common_msg_queue.cpp: a bounded queue that one thread empties.
-- Each operation holds the mutex, so a history is a sequence of operations. `get` is called on a
-- queue that is not empty: the wait in front of it ends when a message is there.
pub mod History
use rtc_client.Common.{
  ℕ, ◌+◌, Bool, true, false, not, ◌&&◌, Option, none, some, List, [], ◌∷◌, ◌++◌, ltb, ◌==◌,
  if◌then◌else◌, length,
}

-- `MessageItem`. `is_exit` is whether `m_msg_id` is EXIT_MSG_ID, which is all that the queue reads.
pub record Message : Type 0 where
  pub is_exit : Bool
  pub msg_id : ℕ
  pub first_param : ℕ
  pub second_param : ℕ
  pub payload : ℕ

-- `handled` and `destroyed` are the messages that `handle_msg` and `destroy_msg` have been called
-- with.
pub record Queue : Type 0 where
  pub max_queue_length : ℕ
  pub is_running : Bool
  pub msg_queue : List Message
  pub handled : List Message
  pub destroyed : List Message

abbrev pub new : ℕ → Queue
new max_count = record {
  max_queue_length = max_count;
  is_running = false;
  msg_queue = [];
  handled = [];
  destroyed = [];
}

-- `created` is whether the thread could be created; `m_initialized`, which only guards the join,
-- says the same.
unfoldable pub start : Bool → Queue → Queue
start created q = record q { is_running = created }

abbrev pub destroy : Message → Queue → Queue
destroy m q = record q { destroyed = q.destroyed ++ (m ∷ []) }

unfoldable pub put : Message → Queue → Bool × Queue
put m q =
    if not q.is_running && not m.is_exit
    then (false, destroy m q)
    else if ltb (length q.msg_queue) q.max_queue_length
    then (true, record q { msg_queue = q.msg_queue ++ (m ∷ []) })
    else (false, (if not m.is_exit then destroy m q else q))

-- One round of the loop of `run`: `get`, and `handle_msg` for any message but the one to exit.
-- `none` where `get` waits. The loop tests `m_is_running` outside the lock, so that a round can
-- follow a `stop`.
unfoldable pub run_round : Queue → Option Queue
run_round q = elim q.msg_queue [
  | [] ↦ none
  | m ∷ ms ↦ some (
      if not m.is_exit
      then record q { msg_queue = ms; handled = q.handled ++ (m ∷ []) }
      else record q { msg_queue = ms })
]

-- The loop of `clear_msg_queue`, with the messages that it destroys.
unfoldable pub to_destroy : List Message → List Message
to_destroy [] = []
to_destroy (m ∷ ms) = let rest = to_destroy ms in if not m.is_exit then m ∷ rest else rest

unfoldable pub clear_msg_queue : Queue → Queue
unfolding to_destroy
clear_msg_queue q = record q { msg_queue = []; destroyed = q.destroyed ++ to_destroy q.msg_queue }

-- The end of `run`, behind its loop, which `stop` waits for; `none` while `m_is_running` holds.
unfoldable pub finish_run : Queue → Option Queue
unfolding clear_msg_queue
finish_run q = if q.is_running then none else some (clear_msg_queue q)

-- `stop` up to the join, behind which `finish_run` has run; `exit` is `MessageItem (EXIT_MSG_ID, 0, 0, NULL)`.
unfoldable pub stop : Message → Queue → Queue
unfolding put
stop exit q = if q.is_running then (put exit (record q { is_running = false })).1 else q
