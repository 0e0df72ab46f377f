-- ===== src/Logger/Lines.antt =====
-- All lines that a logger writes, from its construction on.
use rtc_client.Common.{ℕ, ◌^◌, ◌<◌, ◌≡◌, refl, Bool, Option, none, some, List, [], ◌∷◌, ◌++◌, All}
use rtc_client.Common.Text.{Text}
use rtc_client.Logger.{Logger, System, Time, Effect, create, initialize, write_log}
use rtc_client.Logger.Names.{IsTime}
use rtc_client.Logger.Rotation.{IsSound, initialize-IsSound, write_log-IsSound}

-- A call of `write_log`, with what the system answers during it.
pub record Line : Type 0 where
  pub system : System
  pub file_name : Text
  pub line_number : ℕ
  pub msg_type : Text
  pub message : Text

abbrev pub IsTimed : Line → Type 0
IsTimed x = (t : Time) → x.system.now ≡ some t → IsTime t

-- The calls one after the other; `none` is a fault in one of them.
unfoldable pub write_lines : List Line → Logger → Option (Logger × List Effect)
unfolding write_log
write_lines [] l = some (l, [])
write_lines (x ∷ xs) l =
    elim (write_log x.system x.file_name x.line_number x.msg_type x.message l) [
      | none ↦ none
      | some (l', effects) ↦ elim (write_lines xs l') [
        | none ↦ none
        | some (l'', later) ↦ some (l'', effects ++ later)
      ]
    ]

write_lines-next :
    (x : Line) (xs : List Line) (l : Logger) (one rest : Logger × List Effect)
    → write_log x.system x.file_name x.line_number x.msg_type x.message l ≡ some one
    → write_lines xs one.0 ≡ some rest
    → write_lines (x ∷ xs) l ≡ some (rest.0, one.1 ++ rest.1)
unfolding write_lines
write_lines-next x xs l one rest e f = rw (write_lines, e) (rw f refl)

write_lines-IsSound :
    (xs : List Line) (l : Logger)
    → All IsTimed xs
    → IsSound l
    → (after : Logger × List Effect) × (write_lines xs l ≡ some after) × IsSound after.0
unfolding write_lines
write_lines-IsSound [] l timed is = ((l, []), refl, is)
write_lines-IsSound (x ∷ xs) l (t, ts) is =
    let (one, e, sound, size) =
      write_log-IsSound x.system x.file_name x.line_number x.msg_type x.message l t is in
    let (rest, f, still) = write_lines-IsSound xs one.0 ts sound in
    ((rest.0, one.1 ++ rest.1), write_lines-next x xs l one rest e f, still)

-- Whatever its prefix and its directory are, a logger that is made and initialized with one file at
-- least and less than 2 ^ 31, each of less than 2 ^ 21 kilobytes, writes any sequence of lines without
-- a fault, where the local times are given in numbers of 32 bits: no name of a file passes the end of
-- its buffer, no number is divided by 0, and the search for a file ends. The number of the current file
-- stays at most the greatest that there may be.
pub initialize-write_lines :
    (created daily : Bool) (prefix directory : Text) (size count : ℕ) (xs : List Line)
    → 0 < count
    → count < 2 ^ 31
    → size < 2 ^ 21
    → All IsTimed xs
    → (after : Logger × List Effect) × (write_lines xs
          (initialize created directory daily size count (create prefix)).1
        ≡ some after)
      × IsSound after.0
initialize-write_lines created daily prefix directory size count xs some_file few limited timed =
    write_lines-IsSound xs _ timed
      (initialize-IsSound created daily prefix directory size count some_file few limited)
