-- ===== src/Client/Lines.antt =====
-- `get_int_line` (client_helper.c) reads back a line of numbers.
use cs165db.Prelude.{
  ℕ, suc, ◌+◌, ◌≡◌, ◌<◌, refl, sym, ap, ap₂, ◌∙◌, List, [], ◌∷◌, ◌++◌, append-nil, append_assoc,
  map, length, false, ◌==◌, if◌then◌else◌, arith, lt→ltb, ==_of_ne, ==-self, length-append,
  set-append,
}
use cs165db.Word.{word, sub32}
use cs165db.Run.{done, write, write_lem}
use cs165db.Text.{Text, atoi}
use cs165db.Client.{int_str_width, end_int_line, int_line_loop, get_int_line}

-- A cell of a line: no comma and no newline, and short enough for the holder.
abbrev pub IsCell : Text → Type 0
IsCell [] = Unit
IsCell (c ∷ cs) = ((c == 10) ≡ false) × ((c == 44) ≡ false) × IsCell cs

abbrev pub AreCells : List Text → Type 0
AreCells [] = Unit
AreCells (t ∷ ts) = IsCell t × (length t < int_str_width) × AreCells ts

-- The cells with commas between them, a newline and what follows.
unfoldable pub line_of : Text → List Text → List ℕ → List ℕ
line_of t [] rest = t ++ (10 ∷ rest)
line_of t (u ∷ us) rest = t ++ (44 ∷ line_of u us rest)

-- The characters of a cell go to the holder.
loop_cell :
    (t rest : List ℕ) (ints : List ℕ) (size item : ℕ) (holder : Text)
    → IsCell t
    → length holder + length t < int_str_width
    → int_line_loop (t ++ rest) ints size item holder
      ≡ int_line_loop rest ints size item (holder ++ t)
unfolding int_line_loop
loop_cell [] rest ints size item holder c h =
    ap (int_line_loop rest ints size item) (sym (append-nil holder))
loop_cell (x ∷ t) rest ints size item holder c h =
    rw (c.0, c.1, lt→ltb (length holder) int_str_width (omega arith))
      (loop_cell t rest ints size item (holder ++ (x ∷ [])) c.2
          (omega (arith, length-append holder (x ∷ [])))
        ∙ ap (int_line_loop rest ints size item) (append_assoc holder (x ∷ []) t))

-- A newline before any comma.
single :
    (rest ints : List ℕ) (size : ℕ) (t : Text)
    → int_line_loop (10 ∷ rest) ints size 0 t ≡ done (record { rest = rest; at_eof = false }, ints)
unfolding int_line_loop end_int_line
single rest ints size t = refl

-- One number stored behind `pre`.
stored :
    (pre : List ℕ) (x v : ℕ) (after : List ℕ)
    → write (pre ++ (x ∷ after)) (length pre) v ≡ done (pre ++ (v ∷ after))
stored pre x v after =
    let inside : length pre < length (pre ++ (x ∷ after)) =
      omega (arith, length-append pre (x ∷ after)) in
    write_lem (pre ++ (x ∷ after)) (length pre) v inside
    ∙ ap done (set-append pre (x ∷ after) (length pre) v refl (omega arith))

loop_last :
    (t rest pre : List ℕ) (x size : ℕ)
    → length t < int_str_width
    → length pre + 1 ≡ size
    → size < word
    → 0 < length pre
    → int_line_loop (10 ∷ rest) (pre ++ (x ∷ [])) size (length pre) t
      ≡ done (record { rest = rest; at_eof = false }, pre ++ (atoi t ∷ []))
unfolding int_line_loop end_int_line
loop_last t rest pre x size short e small many =
    let last : sub32 size 1 ≡ length pre = omega arith in
    rw
      (
        ==_of_ne (length pre) 0 (λ z. absurd (omega arith)),
        lt→ltb (length t) int_str_width short,
        stored pre x (atoi t) [],
        last,
        ==-self (length pre),
      )
      refl

loop_comma :
    (t rest pre : List ℕ) (x size : ℕ) (after : List ℕ)
    → length t < int_str_width
    → int_line_loop (44 ∷ rest) (pre ++ (x ∷ after)) size (length pre) t
      ≡ int_line_loop rest ((pre ++ (atoi t ∷ [])) ++ after) size (length (pre ++ (atoi t ∷ []))) []
unfolding int_line_loop
loop_comma t rest pre x size after short =
    let shifted : pre ++ (atoi t ∷ after) ≡ (pre ++ (atoi t ∷ [])) ++ after =
      sym (append_assoc pre (atoi t ∷ []) after) in
    let next : length pre + 1 ≡ length (pre ++ (atoi t ∷ [])) =
      omega (arith, length-append pre (atoi t ∷ [])) in
    rw (lt→ltb (length t) int_str_width short, stored pre x (atoi t) after)
      (ap₂ (λ i n. int_line_loop rest i size n []) shifted next)

-- The numbers of the cells behind those of `pre`.
int_line_loop_lem :
    (t : Text) (ts : List Text) (rest pre after : List ℕ) (size : ℕ)
    → IsCell t
    → length t < int_str_width
    → AreCells ts
    → length pre + suc (length ts) ≡ size
    → length after ≡ suc (length ts)
    → size < word
    → 0 < length pre + length ts
    → int_line_loop (line_of t ts rest) (pre ++ after) size (length pre) []
      ≡ done (record { rest = rest; at_eof = false }, pre ++ map atoi (t ∷ ts))
unfolding line_of
int_line_loop_lem t ts rest pre [] size c short cs e a small many = absurd (omega arith)
int_line_loop_lem t [] rest pre (x ∷ []) size c short cs e a small many =
    loop_cell t (10 ∷ rest) (pre ++ (x ∷ [])) size (length pre) [] c (omega arith)
    ∙ loop_last t rest pre x size short e small (omega arith)
int_line_loop_lem t [] rest pre (x ∷ y ∷ after) size c short cs e a small many =
    absurd (omega arith)
int_line_loop_lem t (u ∷ us) rest pre (x ∷ after) size c short cs e a small many =
    let pre' : List ℕ = pre ++ (atoi t ∷ []) in
    let longer : length pre' ≡ suc (length pre) = omega (arith, length-append pre (atoi t ∷ [])) in
    loop_cell t (44 ∷ line_of u us rest) (pre ++ (x ∷ after)) size (length pre) [] c (omega arith)
    ∙ loop_comma t (line_of u us rest) pre x size after short
    ∙ int_line_loop_lem u us rest pre' after size cs.0 cs.1 cs.2 (omega (arith, longer))
        (omega arith) small (omega (arith, longer))
    ∙ ap (λ l. done (record { rest = rest; at_eof = false }, l))
        (append_assoc pre (atoi t ∷ []) (map atoi (u ∷ us)))

-- Of a line of cells with commas between them and a newline, fewer than 2^32 and each of fewer
-- than 16 characters, get_int_line takes the line from the file and leaves the numbers of the
-- cells in the array, if there are at least two; of a line of one cell it leaves the array as it
-- was.
pub get_int_line_lem :
    (t : Text) (ts : List Text) (rest ints : List ℕ)
    → IsCell t
    → length t < int_str_width
    → AreCells ts
    → length ints ≡ suc (length ts)
    → length ints < word
    → get_int_line (record { rest = line_of t ts rest; at_eof = false }) ints (length ints)
      ≡ done (
        record { rest = rest; at_eof = false },
        if length ts == 0 then ints else map atoi (t ∷ ts),
      )
unfolding get_int_line line_of
get_int_line_lem t [] rest ints c short cs e small =
    loop_cell t (10 ∷ rest) ints (length ints) 0 [] c (omega arith)
    ∙ single rest ints (length ints) t
get_int_line_lem t (u ∷ us) rest ints c short cs e small =
    let more : (suc (length us) == 0) ≡ false =
      ==_of_ne (suc (length us)) 0 (λ z. absurd (omega arith)) in
    rw more (
      int_line_loop_lem t (u ∷ us) rest [] ints (length ints) c short cs (omega arith) e small
        (omega arith))
