-- ===== src/Logger/Asynchronous.antt =====
-- A message that the queue's thread writes, against one that is written at once.
use rtc_client.Common.{
  ℕ, zero, suc, ◌+◌, ◌-◌, ◌≤◌, ◌<◌, ◌≡◌, refl, ap, sym, ◌∙◌, true, false, Option, none, some, List,
  [], ◌∷◌, ◌++◌, ltb, ◌==◌, length, length-take, take, if◌then◌else◌, arith, lt→ltb, le→ltb,
}
use rtc_client.Common.Text.{Text}
use rtc_client.MsgQueue.{put}
use rtc_client.Logger.{
  Logger, LogTask, LogType, System, Effect, async, sync, task_at, task_message, c_string,
  zero_bytes, log_buffer, post, log, handle_msg, write_log,
}

c_string-zeros : (xs : Text) (k : ℕ) → c_string (xs ++ zero_bytes k) ≡ c_string xs
unfolding c_string
c_string-zeros [] zero = refl
c_string-zeros [] (suc k) = refl
c_string-zeros (x ∷ xs) k = rw (c_string-zeros xs k)

c_string-take-zeros :
    (n : ℕ) (xs : Text) (k : ℕ)
    → length xs ≤ n
    → c_string (take n (xs ++ zero_bytes k)) ≡ c_string xs
unfolding c_string
c_string-take-zeros zero [] k h = refl
c_string-take-zeros (suc n) [] zero h = refl
c_string-take-zeros (suc n) [] (suc k) h = refl
c_string-take-zeros zero (x ∷ xs) k h = absurd (omega arith)
c_string-take-zeros (suc n) (x ∷ xs) k h = rw (c_string-take-zeros n xs k (omega arith))

-- What the task holds is, as a C string, what the buffer holds.
c_string-task :
    (formatted : Text)
    → c_string (take (length formatted) (log_buffer formatted)) ≡ c_string (log_buffer formatted)
unfolding log_buffer
c_string-task formatted =
    c_string-take-zeros (length formatted) (take 3999 formatted)
      (4096 - length (take 3999 formatted)) (omega (arith, length-take 3999 formatted))
    ∙ sym (c_string-zeros (take 3999 formatted) (4096 - length (take 3999 formatted)))

task_at-last : (ts : List LogTask) (t : LogTask) → task_at (length ts) (ts ++ (t ∷ [])) ≡ some t
task_at-last [] t = refl
task_at-last (x ∷ ts) t = task_at-last ts t

abbrev pub task : Text → ℕ → Text → Text → LogTask
task filename line type formatted = record {
  file_name = filename;
  line_number = line;
  msg_type = type;
  message = take (length formatted) (log_buffer formatted);
}

handle_task :
    (sys : System) (n : ℕ) (t : LogTask) (l : Logger)
    → task_at n l.tasks ≡ some t
    → handle_msg sys (task_message (n + 1)) l
      ≡ write_log sys
          (c_string t.file_name)
          t.line_number
          (c_string t.msg_type)
          (c_string t.message)
          l
unfolding handle_msg
handle_task sys n t l e =
    let test : (n + 1 == 0) ≡ false = ground arith in
    let index : n + 1 - 1 ≡ n = omega arith in rw test (rw index (rw e refl))

log-mode :
    (sys : System) (type filename : Text) (line c : ℕ) (s : Text) (l : Logger)
    → l.log_type ≡ async
    → log sys true type filename line (some (c ∷ s)) l ≡ (
        if ltb 4096 (length (c ∷ s))
        then none
        else some (post true (task filename line type (c ∷ s)) l, []))
unfolding log
log-mode sys type filename line c s l mode = ap at_mode mode
  where
    at_mode : LogType → Option (Logger × List Effect)
    at_mode m = elim m [
      | sync ↦ write_log sys filename line type (c_string (log_buffer (c ∷ s))) l
      | async ↦
          if ltb 4096 (length (c ∷ s))
          then none
          else some (post true (task filename line type (c ∷ s)) l, [])
    ]

-- The post puts the task behind the others, and the message behind those that wait.
post-tasks : (t : LogTask) (l : Logger) → task_at (length l.tasks) (post true t l).tasks ≡ some t
unfolding post
post-tasks t l = task_at-last l.tasks t

post-queue :
    (t : LogTask) (l : Logger)
    → l.queue.is_running ≡ true
    → length l.queue.msg_queue < l.queue.max_queue_length
    → (post true t l).queue.msg_queue
      ≡ l.queue.msg_queue ++ (task_message (length l.tasks + 1) ∷ [])
unfolding post put
post-queue t l running room = ground arith

task_at-append :
    (n : ℕ) (t : LogTask) (ts more : List LogTask)
    → task_at n ts ≡ some t
    → task_at n (ts ++ more) ≡ some t
task_at-append n t [] more e = cc
task_at-append zero t (x ∷ ts) more e = e
task_at-append (suc n) t (x ∷ ts) more e = task_at-append n t ts more e

-- An asynchronous message that is allocated. Of one of more than 4096 bytes the task takes bytes
-- behind the end of the buffer. Else the call writes nothing; a queue that runs and has room gets the
-- message at its end; and wherever the message is handled, in whatever logger that has the tasks of
-- now and more behind them, and on whatever system, `write_log` is called there with the file name,
-- the line, the type and the text of the call, as much of it as the buffer holds.
pub log-async :
    (sys later : System) (type filename : Text) (line c : ℕ) (s : Text) (l l' : Logger)
    (more : List LogTask)
    → l.log_type ≡ async
    → c_string filename ≡ filename
    → c_string type ≡ type
    → l'.tasks ≡ (post true (task filename line type (c ∷ s)) l).tasks ++ more
    → (4096 < length (c ∷ s) → log sys true type filename line (some (c ∷ s)) l ≡ none)
      × (length (c ∷ s) ≤ 4096
          → (after : Logger) × (log sys true type filename line (some (c ∷ s)) l ≡ some (after, []))
            × (after.tasks ++ more ≡ l'.tasks)
            × (l.queue.is_running ≡ true
                → length l.queue.msg_queue < l.queue.max_queue_length
                → after.queue.msg_queue
                  ≡ l.queue.msg_queue ++ (task_message (length l.tasks + 1) ∷ []))
            × (handle_msg later (task_message (length l.tasks + 1)) l'
                ≡ write_log later filename line type (c_string (log_buffer (c ∷ s))) l'))
log-async sys later type filename line c s l l' more mode file_ok type_ok tasks = (
  λ long. log-mode sys type filename line c s l mode ∙ rw (lt→ltb 4096 (length (c ∷ s)) long) refl,
  λ short. (
    post true (task filename line type (c ∷ s)) l,
    log-mode sys type filename line c s l mode ∙ rw (le→ltb 4096 (length (c ∷ s)) short) refl,
    sym tasks,
    post-queue (task filename line type (c ∷ s)) l,
    handle_task later (length l.tasks) (task filename line type (c ∷ s)) l' (
          ap (task_at (length l.tasks)) tasks
          ∙ task_at-append (length l.tasks) _ _ more
              (post-tasks (task filename line type (c ∷ s)) l))
        ∙ rw file_ok (rw type_ok (rw (c_string-task (c ∷ s)) refl)),
  ),
)
