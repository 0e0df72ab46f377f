-- ===== src/Tests/Loggers.antt =====
-- Runs of the theorems on the logger.
use rtc_client.Common.{
  ◌^◌, subst, ℕ, ◌+◌, ◌*◌, ◌≤◌, ◌<◌, ◌≡◌, refl, ◌⊎◌, true, false, none, some, List, [], ◌∷◌, ◌++◌,
  ltb, length, arith,
}
use rtc_client.Common.Text.{Text, ascii}
use rtc_client.Logger.{
  Logger, LogTask, post, System, Time, Effect, create, initialize, next_file, file_name_of,
  write_log, log, handle_msg, c_string, log_buffer, task_message, async,
}
use rtc_client.Logger.Search.{IsFree, next_file-IsFree}
use rtc_client.Logger.Names.{IsTime, file_name_of-Fits}
use rtc_client.Logger.Rotation.{IsSound, initialize-IsSound, size_of, write_log-IsSound}
use rtc_client.Logger.Lines.{Line, write_lines, initialize-write_lines}
use rtc_client.Logger.Asynchronous.{task, log-async}

abbrev noon : Time
noon = record { year = 126; mon = 10; mday = 25; stamp = ascii "[26-11-25 12:00:00]" }

-- A directory with one file.
abbrev system : System
system = record {
  now = some noon;
  exists = λ path. ltb (length path) 10;
  opens = λ path. true;
  thread = 7;
  printed = some 40;
}

abbrev logger : Logger
logger = (initialize true (ascii "logs") false 10 3 (create (ascii "rtc"))).1

prefix_short : length logger.prefix_name ≤ 128
unfolding initialize create ascii
prefix_short = omega arith

noon-IsTime : IsTime noon
noon-IsTime = record { year = omega arith; mon = omega arith; mday = omega arith }

always_noon : (t : Time) → system.now ≡ some t → IsTime t
always_noon t e = let same : noon ≡ t = ground (arith, e) in subst IsTime same noon-IsTime

logger-IsSound : IsSound logger
logger-IsSound =
    initialize-IsSound true false (ascii "rtc") (ascii "logs") 10 3 (omega arith) (omega arith)
      (omega arith)

logger_few : logger.max_file_count < 2 ^ 31
unfolding initialize create
logger_few = omega arith

logger_fresh : (0 < logger.max_file_count) × (logger.log_file_path ≡ [])
unfolding initialize create
logger_fresh = (omega arith, refl)

next_file-IsFree_example :
    (s : ℕ) × (next_file system noon 0 logger ≡ some s)
    × IsFree
        (λ k. system.exists (logger.log_directory ++ file_name_of logger noon k))
        logger.max_file_count
        0
        s
next_file-IsFree_example =
    next_file-IsFree system noon logger
      (file_name_of-Fits logger noon prefix_short noon-IsTime logger_few) logger_fresh.0
      logger_fresh.1

write_log-IsSound_example :
    (after : Logger × List Effect) × (write_log system
        (ascii "a/main.cpp")
        12
        (ascii "[I]")
        (ascii "ready")
        logger
      ≡ some after)
    × IsSound after.0
    × (((after ≡ (logger, [])) × (system.now ≡ none))
        ⊎ (after.0.printed_size ≤ logger.max_size * 1024 + size_of system.printed))
write_log-IsSound_example =
    write_log-IsSound system (ascii "a/main.cpp") 12 (ascii "[I]") (ascii "ready") logger
      always_noon logger-IsSound

abbrev first_line : Line
first_line = record {
  system = system;
  file_name = ascii "a/main.cpp";
  line_number = 12;
  msg_type = ascii "[I]";
  message = ascii "ready";
}

initialize-write_lines_example :
    (after : Logger × List Effect) × (write_lines (first_line ∷ first_line ∷ []) logger
      ≡ some after)
    × IsSound after.0
initialize-write_lines_example =
    initialize-write_lines true false (ascii "rtc") (ascii "logs") 10 3
      (first_line ∷ first_line ∷ []) (omega arith) (omega arith) (omega arith)
      (always_noon, (always_noon, tt))

abbrev name : Text
name = ascii "main.cpp"

abbrev ready : Text
ready = ascii "eady"

mode : logger.log_type ≡ async
unfolding initialize create
mode = refl

name_whole : c_string name ≡ name
unfolding c_string ascii
name_whole = refl

tag_whole : c_string (ascii "[I]") ≡ ascii "[I]"
unfolding c_string ascii
tag_whole = refl

abbrev other_task : LogTask
other_task = record { file_name = name; line_number = 1; msg_type = []; message = [] }

-- A later logger, with a task more.
abbrev later : Logger
later = record logger {
  tasks = (post true (task name 12 (ascii "[I]") (114 ∷ ready)) logger).tasks ++ (other_task ∷ []);
}

log-async_example :
    (4096 < length (114 ∷ ready)
      → log system true (ascii "[I]") name 12 (some (114 ∷ ready)) logger ≡ none)
    × (length (114 ∷ ready) ≤ 4096
        → (after : Logger) × (log system true (ascii "[I]") name 12 (some (114 ∷ ready)) logger
            ≡ some (after, []))
          × (after.tasks ++ (other_task ∷ []) ≡ later.tasks)
          × (logger.queue.is_running ≡ true
              → length logger.queue.msg_queue < logger.queue.max_queue_length
              → after.queue.msg_queue
                ≡ logger.queue.msg_queue ++ (task_message (length logger.tasks + 1) ∷ []))
          × (handle_msg system (task_message (length logger.tasks + 1)) later
              ≡ write_log system name 12 (ascii "[I]") (c_string (log_buffer (114 ∷ ready))) later))
log-async_example =
    log-async system system (ascii "[I]") name 12 114 ready logger later (other_task ∷ []) mode
      name_whole tag_whole refl
