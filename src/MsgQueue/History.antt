-- ===== src/MsgQueue/History.antt =====
-- What becomes of the messages that are put.
use rtc_client.Common.{
  ℕ, ◌≤◌, ◌≡◌, Bool, true, some, List, [], ◌∷◌, ◌++◌, append-nil, if◌then◌else◌, length, arith,
}
use rtc_client.MsgQueue.{Message, Queue, start, put, run_round, to_destroy, stop, new, finish_run}

-- A list made of two, with the elements of each in their order.
pub data Merge : List Message → List Message → List Message → Type 0 where
  nothing : Merge [] [] []
  by_left :
      {xs ys zs : List Message} (ws : List Message)
      → Merge xs ys zs
      → Merge (xs ++ ws) ys (zs ++ ws)
  by_right :
      {xs ys zs : List Message} (ws : List Message)
      → Merge xs ys zs
      → Merge xs (ys ++ ws) (zs ++ ws)

-- What a sequence of operations leads to, with the messages other than the one to exit for which
-- `put` has returned true, and those of them that the end of a thread's `run` destroyed, in order.
pub data History (max : ℕ) : List Message → List Message → Queue → Type 0 where
  created : History max [] [] (new max)
  started :
      {ms lost : List Message} {q : Queue} (ok : Bool)
      → History max ms lost q
      → History max ms lost (start ok q)
  put_one :
      {ms lost : List Message} {q : Queue} (m : Message)
      → History max ms lost q
      → History max (if (put m q).0 then ms ++ to_destroy (m ∷ []) else ms) lost (put m q).1
  stopped :
      {ms lost : List Message} {q : Queue} (exit : Message)
      → exit.is_exit ≡ true
      → History max ms lost q
      → History max ms lost (stop exit q)
  round :
      {ms lost : List Message} {q q' : Queue}
      → History max ms lost q
      → run_round q ≡ some q'
      → History max ms lost q'
  finished :
      {ms lost : List Message} {q q' : Queue}
      → History max ms lost q
      → finish_run q ≡ some q'
      → History max ms (lost ++ to_destroy q.msg_queue) q'

-- What every operation keeps: `taken` are the messages that have left the queue.
pub record Kept (max : ℕ) (ms lost : List Message) (q : Queue) : Type 0 where
  pub taken : List Message
  pub merged : Merge q.handled lost taken
  pub in_order : taken ++ to_destroy q.msg_queue ≡ ms
  pub limit : q.max_queue_length ≡ max
  pub bounded : length q.msg_queue ≤ max

-- A message other than the one to exit that `put` turns away is destroyed, one that it accepts is
-- not; nothing else is destroyed by it.
pub put-destroyed :
    (m : Message) (q : Queue)
    → (put m q).1.destroyed
      ≡ (if (put m q).0 then q.destroyed else q.destroyed ++ to_destroy (m ∷ []))
unfolding put to_destroy
put-destroyed m q = ground (arith, append-nil q.destroyed)
