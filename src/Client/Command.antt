-- ===== src/Client/Command.antt =====
-- The commands of the client (client.c): what it sends to the server for a line, and what it prints of the
-- answer. `getline` gives the line, and `fopen` the bytes of the file of a load.
use cs165db.Prelude.{
  ℕ, zero, suc, ◌+◌, ◌-◌, ◌*◌, ◌/◌, ◌%◌, List, [], ◌∷◌, ◌++◌, length, take, drop, replicate, get_or,
  false, ltb, leb, ◌==◌, ◌&&◌, ◌||◌, if◌then◌else◌,
}
use cs165db.Word.{word, half, add32, sub32}
use cs165db.Run.{Run, done, fault, assert, read, ◌>>=◌, ◌>>◌}
use cs165db.Text.{Text}
use cs165db.Variables.{max_name_size}
use cs165db.Socket.{Socket, safe_send}
use cs165db.Session.{int_bytes}
use cs165db.Client.{File, get_name_line, get_int_line}

-- `sprintf` of an `int` with `%d`; a `uint32_t` has at most ten digits.
unfoldable pub digits : ℕ → ℕ → Text → Text
digits zero n acc = acc
digits (suc fuel) n acc =
    let more = digits fuel (n / 10) ((n % 10 + 48) ∷ acc) in
    if ltb n 10 then (n + 48) ∷ acc else more

unfoldable pub print_int : ℕ → Text
print_int v = if ltb v half then digits 10 v [] else 45 ∷ digits 10 (sub32 0 v) []

-- The loop that counts the lines and, in the first one, the commas.
unfoldable pub count_table : List ℕ → ℕ → ℕ → ℕ × ℕ
count_table [] row_count col_count = (row_count, col_count)
count_table (ch ∷ rest) row_count col_count =
    let line = count_table rest (add32 row_count 1) col_count in
    let comma = count_table rest row_count (add32 col_count 1) in
    let other = count_table rest row_count col_count in
    if ch == 10 then line else if (row_count == 0) && (ch == 44) then comma else other

-- The rows of numbers and the columns of a table, whose first line has the names. A newline at the end
-- of the file ends no further row.
unfoldable pub table_size : List ℕ → ℕ × ℕ
table_size file =
    let counted : ℕ × ℕ = count_table file 0 0 in
    (
      if get_or file (length file - 1) 0 == 10 then sub32 counted.0 1 else counted.0,
      add32 counted.1 1,
    )

-- What follows a `safe_send` that returned 0; any other result ends the client.
abbrev then_send : ℕ × Socket → (Socket → Run (ℕ × Socket)) → Run (ℕ × Socket)
then_send (zero, s) k = k s
then_send (suc r, s) k = done (suc r, s)

module _ (send : ℕ → ℕ → ℕ) where
  -- The loop over the rows, with `n` left. `int_data` keeps what a line does not set.
  unfoldable pub send_rows : ℕ → Socket → File → List ℕ → ℕ → Run (ℕ × Socket)
  send_rows zero s load_fp int_data col_count = done (0, s)
  send_rows (suc n) s load_fp int_data col_count =
      get_int_line load_fp int_data col_count >>= λ (load_fp', ints).
      safe_send send s (int_bytes ints) (col_count * 4 % word) >>= λ r.
      then_send r (λ s'. send_rows n s' load_fp' ints col_count)

  -- `load("...")`: the size of the table, the names and the rows. What `malloc` left in the arrays is taken
  -- for zeros.
  unfoldable pub load_table : Socket → List ℕ → Run (ℕ × Socket)
  load_table s file =
      let row_count = (table_size file).0 in
      let col_count = (table_size file).1 in
      let msg =
        (108 ∷ 111 ∷ 97 ∷ 100 ∷ 40 ∷ print_int col_count)
        ++ (44 ∷ (print_int row_count ++ (41 ∷ []))) in
      let total_bytes = max_name_size * col_count % word in
      let start : File = record { rest = file; at_eof = false } in
      safe_send send s msg (length msg) >>= λ r0. then_send r0 (λ s0.
        get_name_line start (replicate total_bytes 0) col_count >>= λ (load_fp, col_names).
        safe_send send s0 col_names total_bytes >>= λ r1.
        then_send r1 (λ s1. send_rows row_count s1 load_fp (replicate col_count 0) col_count))

-- `strtok` with `",)"`: the stretches between these, where there is one.
unfoldable pub tokens_from : Text → Text → List Text
tokens_from [] [] = []
tokens_from [] (a ∷ acc) = (a ∷ acc) ∷ []
tokens_from (c ∷ cs) acc =
    let rest = tokens_from cs [] in
    let longer = tokens_from cs (acc ++ (c ∷ [])) in
    let ended : List Text = elim acc [ [] ↦ rest | a ∷ more ↦ (a ∷ more) ∷ rest ] in
    if (c == 44) || (c == 41) then ended else longer

-- `strcpy` of each token to its 16 characters of `v`, which grows to hold `v_buffer` names. A token that
-- runs over its 16 characters goes on in those behind, if there are any.
unfoldable pub copy_tokens : List Text → List ℕ → ℕ → Run (List ℕ × ℕ)
copy_tokens [] v v_count = done (v, v_count)
copy_tokens (token ∷ rest) v v_count =
    let v_buffer =
      if length v == v_count * max_name_size then (1 + v_count) * 2 else length v / max_name_size in
    let grown = v ++ replicate (v_buffer * max_name_size - length v) 0 in
    let at = v_count * max_name_size in
    let copied = take at grown ++ (token ++ (0 ∷ drop (at + length token + 1) grown)) in
    let more = copy_tokens rest copied (v_count + 1) in
    if leb (at + length token + 1) (length grown) then more else fault

-- The rows of an answer to a tuple: number `i` of each of the `v_count` stretches of `row_expected`.
unfoldable pub print_row : ℕ → List ℕ → ℕ → ℕ → ℕ → Run (List ℕ)
print_row zero int_data row_expected i j = done []
print_row (suc n) int_data row_expected i j = read int_data (j * row_expected + i) >>= λ v.
    print_row n int_data row_expected i (j + 1) >>= λ rest. done (v ∷ rest)

unfoldable pub print_rows : ℕ → List ℕ → ℕ → ℕ → ℕ → Run (List (List ℕ))
print_rows zero int_data v_count row_expected i = done []
print_rows (suc n) int_data v_count row_expected i =
    print_row v_count int_data row_expected i 0 >>= λ row.
    print_rows n int_data v_count row_expected (i + 1) >>= λ rest. done (row ∷ rest)

-- `int_data` and `size_expected` of a tuple: the rows that are printed.
unfoldable pub print_tuple : List ℕ → ℕ → ℕ → Run (List (List ℕ))
print_tuple int_data size_expected v_count =
    let row_expected = size_expected / (v_count * 4) in
    if v_count == 0 then fault else print_rows row_expected int_data v_count row_expected 0

module _ (send : ℕ → ℕ → ℕ) where
  -- The head of `tuple`, `delete` and `insert`: the number of names and then the names. The newline behind
  -- the last parenthesis counts as a name, and is taken off. The result has the number of names. A line has
  -- at least the `offset` characters that are copied from it.
  unfoldable pub send_names : Socket → Text → Run (ℕ × (ℕ × Socket))
  send_names s line =
      let offset = if get_or line 0 0 == 116 then 6 else 7 in
      copy_tokens (tokens_from (drop offset line) []) (replicate (2 * max_name_size) 0) 0
      >>= λ (v, counted).
          assert (ltb 0 counted && leb offset (length line))
          >> (let v_count = counted - 1 in
              let msg = take offset line ++ (print_int v_count ++ (41 ∷ [])) in
              safe_send send s msg (length msg) >>= λ r0.
              then_send r0 (λ s0. safe_send send s0 v (max_name_size * v_count % word))
              >>= λ (r1, s1). done (v_count, (r1, s1)))
