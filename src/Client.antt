-- ===== src/Client.antt =====
-- client_helper.c, and the load command of client.c. A file is the list of the bytes that are not read yet,
-- with the flag of `feof`.
pub mod Lines
pub mod Command
pub mod Rows
pub mod Loop
pub mod Answers
pub mod Tuples
use cs165db.Prelude.{
  ℕ, zero, suc, ◌+◌, ◌-◌, ◌*◌, ◌/◌, ◌%◌, List, [], ◌∷◌, ◌++◌, length, take, drop, replicate, get_or,
  Bool, true, false, ltb, leb, ◌==◌, ◌&&◌, not, if◌then◌else◌, Option, none, some,
}
use cs165db.Word.{add32, sub32}
use cs165db.Run.{Run, done, fault, abort, assert, write, ◌>>=◌, ◌>>◌}
use cs165db.Text.{Text, atoi}
use cs165db.Variables.{max_name_size}
use cs165db.Socket.{Socket, safe_send}
use cs165db.Session.{int_bytes}

pub record File : Type 0 where
  pub rest : List ℕ
  pub at_eof : Bool

-- `INT_STR_WIDTH`
abbrev pub int_str_width : ℕ
int_str_width = 16

-- `parse_load_filename`: the name between `load("` and `")`, where a newline may stand behind. A command too
-- short for that makes the size wrap around.
unfoldable pub parse_load_filename : Text → Run Text
parse_load_filename command =
    let len = length command in
    let behind = if get_or command (len - 1) 0 == 10 then 9 else 8 in
    if ltb 0 len && leb behind len then done (take (len - behind) (drop 6 command)) else fault

-- The end of a line of names: the last name gets its NUL, and must be the last one asked for.
unfoldable pub end_name_line : File → List ℕ → ℕ → ℕ → ℕ → Run (File × List ℕ)
end_name_line f names size item_counter char_counter =
    write names (item_counter * max_name_size + char_counter) 0 >>= λ names'.
    assert (item_counter == sub32 size 1) >> done (f, names')

-- The loop of `get_name_line`.
unfoldable pub name_line_loop : List ℕ → List ℕ → ℕ → ℕ → ℕ → Run (File × List ℕ)
name_line_loop [] names size item_counter char_counter =
    end_name_line (record { rest = []; at_eof = true }) names size item_counter char_counter
name_line_loop (ch ∷ rest) names size item_counter char_counter =
    let place = item_counter * max_name_size + char_counter in
    let next_name = write names place 0 >>= λ names'.
    (let more = name_line_loop rest names' size (item_counter + 1) 0 in
      if ltb (item_counter + 1) size then more else abort) in
    let next_char = write names place ch >>= λ names'.
    (let more = name_line_loop rest names' size item_counter (char_counter + 1) in
      if ltb item_counter size then more else abort) in
    if ch == 10
    then end_name_line (record { rest = rest; at_eof = false }) names size item_counter char_counter
    else if ch == 44
    then next_name
    else next_char

unfoldable pub get_name_line : File → List ℕ → ℕ → Run (File × List ℕ)
get_name_line f names size = name_line_loop f.rest names size 0 0

-- `holder[char_counter] = '\0'`, and the number that it holds.
abbrev pub held_number : Text → Run ℕ
held_number holder = if ltb (length holder) int_str_width then done (atoi holder) else fault

-- The end of a line of numbers. A line that ends before a comma leaves the numbers as they are.
unfoldable pub end_int_line : File → List ℕ → ℕ → ℕ → Text → Run (File × List ℕ)
end_int_line f ints size item_counter holder =
    let stored = held_number holder >>= λ v. write ints item_counter v >>= λ ints'.
    assert (item_counter == sub32 size 1) >> done (f, ints') in
    if item_counter == 0 then done (f, ints) else stored

-- The loop of `get_int_line`; `holder` is what it has of the number so far.
unfoldable pub int_line_loop : List ℕ → List ℕ → ℕ → ℕ → Text → Run (File × List ℕ)
int_line_loop [] ints size item_counter holder =
    end_int_line (record { rest = []; at_eof = true }) ints size item_counter holder
int_line_loop (ch ∷ rest) ints size item_counter holder =
    let next_number = held_number holder >>= λ v.
    write ints item_counter v >>= λ ints'. int_line_loop rest ints' size (item_counter + 1) [] in
    let next_char = int_line_loop rest ints size item_counter (holder ++ (ch ∷ [])) in
    if ch == 10
    then end_int_line (record { rest = rest; at_eof = false }) ints size item_counter holder
    else if ch == 44
    then next_number
    else if ltb (length holder) int_str_width
    then next_char
    else fault

unfoldable pub get_int_line : File → List ℕ → ℕ → Run (File × List ℕ)
get_int_line f ints size =
    let line = int_line_loop f.rest ints size 0 [] in if f.at_eof then abort else line
