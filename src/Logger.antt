-- ===== src/Logger.antt =====
-- `AppLogger` of src/common/common_logger.cpp, as it is built for Linux.
pub mod Search
pub mod Names
pub mod Lines
pub mod Rotation
pub mod Asynchronous
use rtc_client.Common.{
  ℕ, zero, suc, ◌+◌, ◌-◌, ◌*◌, ◌/◌, ◌%◌, Bool, true, false, not, ◌&&◌, ◌||◌, Option, none, some,
  List, [], ◌∷◌, ◌++◌, ltb, leb, ◌==◌, length, take, if◌then◌else◌,
}
use rtc_client.Common.Text.{Text, ascii, is_empty}
use rtc_client.Utils.{ℤ, pos, negsuc, to_int, digits, common_to_string}
use rtc_client.MsgQueue.{Message, Queue, new, start, stop, put}

-- `enum LogType`
pub data LogType : Type 0 where
  sync : LogType
  async : LogType

pub record LogTask : Type 0 where
  pub file_name : Text
  pub line_number : ℕ
  pub msg_type : Text
  pub message : Text

-- The members, with the queue of the base class. `file` is the path of the file that is open. `tasks`
-- are the tasks that have been allocated: the data of a message is a task's number, from 1 on, and 0
-- for a null pointer. The three `int`, two of which a caller sets, are not negative.
pub record Logger : Type 0 where
  pub queue : Queue
  pub tasks : List LogTask
  pub initialized : Bool
  pub prefix_name : Text
  pub log_directory : Text
  pub is_daily : Bool
  pub max_size : ℕ
  pub max_file_count : ℕ
  pub day : ℕ
  pub seq : ℕ
  pub file : Option Text
  pub log_file_path : Text
  pub printed_size : ℕ
  pub log_type : LogType

unfoldable pub create : Text → Logger
create prefix = record {
  queue = new (1024 * 20);
  tasks = [];
  initialized = false;
  prefix_name = take 128 prefix;
  log_directory = [];
  is_daily = true;
  max_size = 4096;
  max_file_count = 100;
  day = 0;
  seq = 0;
  file = none;
  log_file_path = [];
  printed_size = 0;
  log_type = async;
}

unfoldable pub initialize : Bool → Text → Bool → ℕ → ℕ → Logger → Bool × Logger
unfolding start
initialize created directory daily size count l = if l.initialized then (true, l) else (
  true,
  record l {
    log_directory = directory;
    is_daily = daily;
    max_size = size;
    max_file_count = count;
    initialized = true;
    queue = start created l.queue;
  },
)

unfoldable pub uninitialize : Message → Logger → Bool × Logger
unfolding stop
uninitialize exit l = if not l.initialized then (true, l) else (
  true,
  record l {
    initialized = false;
    queue = stop exit l.queue;
    file = none;
    printed_size = elim l.file [ none ↦ l.printed_size | some path ↦ 0 ];
  },
)

unfoldable pub set_log_type : LogType → Logger → Logger
set_log_type type l = record l { log_type = type }

-- `struct tm`, with the text that `strftime` makes of it.
pub record Time : Type 0 where
  pub year : ℕ
  pub mon : ℕ
  pub mday : ℕ
  pub stamp : Text

-- What the system answers: the local time, which files are there, which can be opened for writing,
-- the number of the thread, and what `fprintf` returns, where `none` is a negative number.
pub record System : Type 0 where
  pub now : Option Time
  pub exists : Text → Bool
  pub opens : Text → Bool
  pub thread : ℕ
  pub printed : Option ℕ

-- `%d`, and `%.2d`
abbrev pub decimal : ℕ → Text
decimal n = digits (suc n) n

abbrev pub two_digits : ℕ → Text
two_digits n = if ltb n 10 then b'0' ∷ decimal n else decimal n

unfoldable pub file_name_of : Logger → Time → ℕ → Text
unfolding ascii digits
file_name_of l t seq =
    if l.is_daily
    then b'/' ∷ l.prefix_name
      ++ (b'-' ∷ decimal (t.year + 1900)
          ++ (b'-' ∷ two_digits (t.mon + 1)
              ++ (b'-' ∷ two_digits t.mday ++ (b'.' ∷ decimal seq ++ ascii ".log"))))
    else b'/' ∷ l.prefix_name ++ (b'.' ∷ decimal seq ++ ascii ".log")

-- `m_seq % m_max_file_count + 1`
abbrev pub next_seq : ℕ → ℕ → ℕ
next_seq count seq = seq % count + 1

-- `szFileName` has 256 bytes, the last of which is for the 0 of `sprintf`.
abbrev pub fits_buffer : Text → Bool
fits_buffer name = ltb (length name) 256

-- The loop while no path is set, with `bLoop`: the number that it ends at. `fits` is whether the name
-- of a number fits `szFileName`; `none` is a store behind its end. The fuel is one more than the files
-- that there may be, and one for the round behind the last; `none` is no value of the code then.
unfoldable pub search_loop : (ℕ → Bool) → (ℕ → Bool) → ℕ → ℕ → Bool → ℕ → Option ℕ
search_loop fits exists count zero loop seq = none
search_loop fits exists count (suc fuel) loop seq =
    let s = next_seq count seq in
    let more = search_loop fits exists count fuel (if s == count then true else loop) s in
    if not (fits s) then none else if loop then some s else if not (exists s) then some s else more

-- The whole loop: a path that is set ends it behind one round. `none` is a division by 0, or a name
-- that does not fit.
unfoldable pub next_file : System → Time → ℕ → Logger → Option ℕ
unfolding search_loop file_name_of
next_file sys t seq l =
    let paths : ℕ → Bool = λ k. sys.exists (l.log_directory ++ file_name_of l t k) in
    let fits : ℕ → Bool = λ k. fits_buffer (file_name_of l t k) in
    let next = next_seq l.max_file_count seq in
    if l.max_file_count == 0
    then none
    else if is_empty l.log_file_path
    then search_loop fits paths l.max_file_count (l.max_file_count + 2) false seq
    else if fits next
    then some next
    else none

-- `strrchr (filename, '/')`, and what stands behind it.
unfoldable pub base_name : Text → Text → Text
base_name best [] = best
base_name best (c ∷ s) = base_name (if c == b'/' then s else best) s

unfoldable pub log_line : System → Time → Text → ℕ → Text → Text → Text
unfolding base_name ascii digits
log_line sys t filename line type message =
    t.stamp
    ++ (type
        ++ (b'[' ∷ decimal sys.thread
            ++ (ascii "] "
                ++ (base_name filename filename
                    ++ (b'(' ∷ decimal line ++ (ascii "):\t\t" ++ (message ++ ascii "\r\n")))))))

-- What happens to the files.
pub data Effect : Type 0 where
  closed : Text → Effect
  opened : Text → Effect
  printed_to : Text → Text → Effect

abbrev pub is_new_day : Time → Logger → Bool
is_new_day t l = l.is_daily && not (l.day == t.mday)

-- `(long)(m_max_size * 1024)`: the product of two `int`, which wraps around from 2 ^ 21 kilobytes on.
abbrev pub is_over : ℕ → ℕ → Bool
is_over max_size printed = elim (to_int (pos (max_size * 1024))) [
  | pos n ↦ ltb n printed
  | negsuc n ↦ true
]

-- The test for a new file.
unfoldable pub needs_file : Time → Logger → Bool
unfolding to_int
needs_file t l =
    is_new_day t l
    || (is_over l.max_size l.printed_size
        || (ltb l.max_file_count l.seq || elim l.file [ none ↦ true | some path ↦ false ]))

-- What `fopen` leaves behind the search.
unfoldable pub open_file : System → Time → ℕ → Logger → Logger × List Effect
unfolding file_name_of
open_file sys t s l =
    let path = l.log_directory ++ file_name_of l t s in
    let before : List Effect = elim l.file [ none ↦ [] | some old ↦ closed old ∷ [] ] in
    if sys.opens path
    then (
      record l { seq = s; log_file_path = path; file = some path; printed_size = 0; day = t.mday },
      before ++ (opened path ∷ []),
    )
    else (
      record l {
        seq = s;
        log_file_path = path;
        file = none;
        printed_size = elim l.file [ none ↦ l.printed_size | some old ↦ 0 ];
      },
      before,
    )

unfoldable pub rotate : System → Time → Logger → Option (Logger × List Effect)
unfolding needs_file next_file open_file
rotate sys t l =
    let from = if is_new_day t l || ltb l.max_file_count l.seq then 0 else l.seq in
    if needs_file t l
    then elim (next_file sys t from l) [ none ↦ none | some s ↦ some (open_file sys t s l) ]
    else some (l, [])

unfoldable pub print_line : System → Text → Logger × List Effect → Logger × List Effect
print_line sys text (l, effects) = elim l.file [
  | none ↦ (l, effects)
  | some path ↦ (
    elim sys.printed [ none ↦ l | some n ↦ record l { printed_size = l.printed_size + n } ],
    effects ++ (printed_to path text ∷ []),
  )
]

-- `none` is a fault.
unfoldable pub write_log : System → Text → ℕ → Text → Text → Logger → Option (Logger × List Effect)
unfolding rotate print_line log_line
write_log sys filename line type message l = elim sys.now [
  | none ↦ some (l, [])
  | some t ↦ elim (rotate sys t l) [
    | none ↦ none
    | some after ↦ some (print_line sys (log_line sys t filename line type message) after)
  ]
]

-- The text of a C string.
unfoldable pub c_string : Text → Text
c_string [] = []
c_string (c ∷ s) = let rest = c ∷ c_string s in if c == 0 then [] else rest

abbrev pub zero_bytes : ℕ → Text
zero_bytes zero = []
zero_bytes (suc n) = 0 ∷ zero_bytes n

-- `szLog`: up to 3999 bytes of what the format makes, and zeros.
unfoldable pub log_buffer : Text → Text
log_buffer formatted = let text = take 3999 formatted in text ++ zero_bytes (4096 - length text)

-- The task's number for the next message, and the message.
abbrev pub task_message : ℕ → Message
task_message payload = record {
  is_exit = false;
  msg_id = 1001;
  first_param = 0;
  second_param = 0;
  payload = payload;
}

unfoldable pub post : Bool → LogTask → Logger → Logger
unfolding put
post allocated task l =
    if allocated
    then record l {
      tasks = l.tasks ++ (task ∷ []);
      queue = (put (task_message (length l.tasks + 1)) l.queue).1;
    }
    else record l { queue = (put (task_message 0) l.queue).1 }

-- What the six functions share. `formatted` is what the format makes of the arguments, of which
-- `vsnprintf` returns the length; `none` is a negative number. `none` as the result is a fault: the
-- task of an asynchronous message takes so many bytes of the buffer, which has 4096.
unfoldable pub log :
    System → Bool → Text → Text → ℕ → Option Text → Logger → Option (Logger × List Effect)
unfolding write_log c_string log_buffer post
log sys allocated type filename line none l = some (l, [])
log sys allocated type filename line (some formatted) l =
    if is_empty formatted then some (l, []) else elim l.log_type [
      | sync ↦ write_log sys filename line type (c_string (log_buffer formatted)) l
      | async ↦
          if ltb 4096 (length formatted)
          then none
          else some (
            post allocated
                (record {
                  file_name = filename;
                  line_number = line;
                  msg_type = type;
                  message = take (length formatted) (log_buffer formatted);
                })
                l,
            [],
          )
    ]

abbrev pub Log : Type 0
Log = System → Bool → Text → ℕ → Option Text → Logger → Option (Logger × List Effect)

unfoldable pub info : Log
unfolding log ascii
info sys allocated = log sys allocated (ascii "[I]")

unfoldable pub debug : Log
unfolding log ascii
debug sys allocated = log sys allocated (ascii "[D]")

unfoldable pub warning : Log
unfolding log ascii
warning sys allocated = log sys allocated (ascii "[W]")

unfoldable pub error : Log
unfolding log ascii
error sys allocated = log sys allocated (ascii "[E]")

unfoldable pub trace : Log
unfolding log ascii
trace sys allocated = log sys allocated (ascii "[T]")

unfoldable pub verbose : Log
unfolding log ascii
verbose sys allocated = log sys allocated (ascii "[V]")

abbrev pub task_at : ℕ → List LogTask → Option LogTask
task_at n [] = none
task_at zero (t ∷ ts) = some t
task_at (suc n) (t ∷ ts) = task_at n ts

-- `none` is also a read through a null pointer.
unfoldable pub handle_msg : System → Message → Logger → Option (Logger × List Effect)
unfolding write_log c_string
handle_msg sys m l =
    if not (m.msg_id == 1001)
    then some (l, [])
    else if m.payload == 0
    then none
    else elim (task_at (m.payload - 1) l.tasks) [
      | none ↦ none
      | some task ↦
          write_log sys (c_string task.file_name) task.line_number (c_string task.msg_type)
            (c_string task.message) l
    ]
