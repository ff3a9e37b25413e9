-- ===== src/Join.antt =====
-- helper_join.c: the joins of two tables of rows. A table is an array of `int`s in pairs, the value of
-- a row and its place; the result is two lists of places.
pub mod Rows
pub mod Loop
pub mod Sorted
pub mod Hash
pub mod Tree
use cs165db.Prelude.{ℕ, zero, suc, ◌+◌, ◌*◌, ◌%◌, List, Bool, ltb, ◌==◌, ◌&&◌, if◌then◌else◌}
use cs165db.Word.{word, add32, sub32, lt_int}
use cs165db.Run.{Run, done, spin, read, ◌>>=◌}
use cs165db.DynArray.{DynArray, create_list, append_list}

-- The `ids` of the two variables that a join fills.
abbrev pub JoinedIds : Type 0
JoinedIds = DynArray ℕ × DynArray ℕ

-- `m[i*2]` and `m[i*2+1]`, with the index in a `uint32_t`.
abbrev pub row_val : List ℕ → ℕ → Run ℕ
row_val m i = read m (i * 2 % word)

abbrev pub row_pos : List ℕ → ℕ → Run ℕ
row_pos m i = read m (add32 (i * 2 % word) 1)

-- The places of the two rows are appended.
unfoldable pub append_pair : List ℕ → List ℕ → ℕ → ℕ → JoinedIds → Run JoinedIds
append_pair m0 m1 i j ids = row_pos m0 i >>= λ p. append_list ids.0 p >>= λ first.
    row_pos m1 j >>= λ q. append_list ids.1 q >>= λ second. done (first, second)

-- The inner loop of `loopjoin`, with `n` rows left from `j` on.
unfoldable pub loopjoin_inner : ℕ → List ℕ → List ℕ → ℕ → ℕ → JoinedIds → Run JoinedIds
loopjoin_inner zero m0 m1 i j ids = done ids
loopjoin_inner (suc n) m0 m1 i j ids = row_val m0 i >>= λ a. row_val m1 j >>= λ b.
    (if a == b then append_pair m0 m1 i j ids else done ids) >>= λ ids'.
    loopjoin_inner n m0 m1 i (j + 1) ids'

-- The outer loop, with `n` rows left from `i` on.
unfoldable pub loopjoin_outer : ℕ → List ℕ → List ℕ → ℕ → ℕ → JoinedIds → Run JoinedIds
loopjoin_outer zero m0 m1 size1 i ids = done ids
loopjoin_outer (suc n) m0 m1 size1 i ids =
    loopjoin_inner size1 m0 m1 i 0 ids >>= λ ids'. loopjoin_outer n m0 m1 size1 (i + 1) ids'

unfoldable pub loopjoin : List ℕ → List ℕ → ℕ → ℕ → Run JoinedIds
loopjoin m0 m1 size0 size1 = loopjoin_outer size0 m0 m1 size1 0 (create_list, create_list)

-- The loop of `sortjoin` up the duplicates before a match, and the one down those behind it.
unfoldable pub sortjoin_up : ℕ → List ℕ → List ℕ → ℕ → ℕ → JoinedIds → Run JoinedIds
sortjoin_up zero m0 m1 i itr ids = spin
sortjoin_up (suc fuel) m0 m1 i itr ids =
    let turn = row_val m0 i >>= λ a. row_val m1 itr >>= λ b.
    (let more =
        append_pair m0 m1 i itr ids >>= λ ids'. sortjoin_up fuel m0 m1 i (sub32 itr 1) ids' in
      if a == b then more else done ids) in
    if ltb 0 itr then turn else done ids

unfoldable pub sortjoin_down : ℕ → List ℕ → List ℕ → ℕ → ℕ → ℕ → JoinedIds → Run (ℕ × JoinedIds)
sortjoin_down zero m0 m1 size1 i itr ids = spin
sortjoin_down (suc fuel) m0 m1 size1 i itr ids =
    let turn = row_val m0 i >>= λ a. row_val m1 itr >>= λ b.
    (let more = append_pair m0 m1 i itr ids >>= λ ids'.
    sortjoin_down fuel m0 m1 size1 i (add32 itr 1) ids' in
      if a == b then more else done (itr, ids)) in
    if ltb itr size1 then turn else done (itr, ids)

-- The outer loop of `sortjoin`.
unfoldable pub sortjoin_loop : ℕ → List ℕ → List ℕ → ℕ → ℕ → ℕ → ℕ → JoinedIds → Run JoinedIds
sortjoin_loop zero m0 m1 size0 size1 i j ids = spin
sortjoin_loop (suc fuel) m0 m1 size0 size1 i j ids =
    let left = sortjoin_loop fuel m0 m1 size0 size1 (add32 i 1) j ids in
    let right = sortjoin_loop fuel m0 m1 size0 size1 i (add32 j 1) ids in
    let match = append_pair m0 m1 i j ids >>= λ ids1.
    sortjoin_up fuel m0 m1 i (sub32 j 1) ids1 >>= λ ids2.
    sortjoin_down fuel m0 m1 size1 i (add32 j 1) ids2 >>= λ (itr, ids3).
    sortjoin_loop fuel m0 m1 size0 size1 (add32 i 1) (sub32 itr 1) ids3 in
    let turn = row_val m0 i >>= λ a.
    row_val m1 j >>= λ b. if lt_int a b then left else if lt_int b a then right else match in
    if ltb i size0 && ltb j size1 then turn else done ids

unfoldable pub sortjoin : ℕ → List ℕ → List ℕ → ℕ → ℕ → JoinedIds → Run JoinedIds
sortjoin fuel m0 m1 size0 size1 ids = sortjoin_loop fuel m0 m1 size0 size1 0 0 ids
