-- ===== src/Session/JoinCommand.antt =====
-- The join commands (worker.c): the two names of the result, the tables of the two columns, and the
-- dispatch to the four joins.
use cs165db.Prelude.{
  ℕ, suc, List, [], ◌∷◌, Option, none, some, Bool, not, ◌==◌, ltb, leb, ◌&&◌, if◌then◌else◌, get_or,
  length, take, drop,
}
use cs165db.Word.{sub32, lt_int}
use cs165db.Run.{abort, Run, done, fault, assert, required, ◌>>=◌, ◌>>◌}
use cs165db.Text.{Text}
use cs165db.BitVector.{BitVector, is_marked, get_bv_count}
use cs165db.Column.{unsorted, sorted, bptree, StorageType, ColumnFile}
use cs165db.BpTree.{TreeFile}
use cs165db.Join.{JoinedIds, loopjoin, sortjoin}
use cs165db.Join.Hash.{hashjoin}
use cs165db.Join.Tree.{treejoin}
use cs165db.Variables.{deref, assign, initialize_rowid_variable, found_variable, max_name_size}
use cs165db.Store.{Stored, load_col, is_bptree}
use cs165db.Session.{Machine, Scene, Next, again, arg, in_var, in_arg_one, in_arg_two}

-- The loop that looks for the comma, after `i` characters.
unfoldable pub comma_at : Text → ℕ → Option ℕ
comma_at [] i = none
comma_at (c ∷ cs) i = let rest = comma_at cs (suc i) in if c == 44 then some i else rest

-- The two names, each copied into an array of 16 characters that is not set before. The NUL of the
-- second is put where that of the first stands: where the second is shorter the characters before it
-- are not set, and a read of them is a fault.
unfoldable pub split_names : Text → Run (Text × Text)
split_names var_raw = elim (comma_at var_raw 0) [
  | none ↦ fault
  | some i ↦
      let second = drop (suc i) var_raw in
      if ltb i max_name_size && leb (length second) max_name_size && leb i (length second)
      then done (take i var_raw, take i second)
      else fault
]

-- The marked rows of a column, as values with their places, with the values from place `j` on.
unfoldable pub marked_rows : List ℕ → BitVector → ℕ → Run (List (ℕ × ℕ))
marked_rows [] bv j = done []
marked_rows (v ∷ vs) bv j = is_marked bv j >>= λ marked.
    marked_rows vs bv (suc j) >>= λ rest. done (if marked then (v, j) ∷ rest else rest)

-- `qsort` by `compare_int`, the sign of the difference of the values. Equal ones may come in any order.
unfoldable pub insert_pair : ℕ × ℕ → List (ℕ × ℕ) → List (ℕ × ℕ)
insert_pair p [] = p ∷ []
insert_pair p (q ∷ qs) =
    let rest = insert_pair p qs in if lt_int 0 (sub32 p.0 q.0) then q ∷ rest else p ∷ q ∷ qs

unfoldable pub sort_pairs : List (ℕ × ℕ) → List (ℕ × ℕ)
sort_pairs [] = []
sort_pairs (p ∷ ps) = insert_pair p (sort_pairs ps)

unfoldable pub flatten : List (ℕ × ℕ) → List ℕ
flatten [] = []
flatten ((v, j) ∷ rest) = v ∷ j ∷ flatten rest

-- The body of the loop that fills `m[i]` and `m_size[i]`. A table that is smaller than the number of
-- marked rows is overrun.
unfoldable pub materialize : Bool → ColumnFile → BitVector → Run (List ℕ × ℕ)
materialize is_sortjoin c bv =
    assert (leb c.meta.size (length c.ints))
    >> marked_rows (take c.meta.size c.ints) bv 0
    >>= λ rows.
        (let m_size = get_bv_count bv in
          let sorted_rows : List (ℕ × ℕ) = elim c.meta.storage [
            | unsorted ↦ if is_sortjoin then sort_pairs rows else rows
            | sorted ↦ rows
            | bptree ↦ rows
          ] in
          if ltb m_size (length rows)
          then fault
          else (assert (length rows == m_size) >> done (flatten sorted_rows, m_size)))

-- `m[1]` where the tree of the second column is searched is not filled.
unfoldable pub materialize_second : ℕ → StorageType → ColumnFile → BitVector → Run (List ℕ × ℕ)
materialize_second letter first_storage c bv =
    let filled = materialize (letter == 115) c bv in
    if letter == 116 && is_bptree c.meta.storage && not (is_bptree first_storage)
    then done ([], 0)
    else filled

-- The tree that `load_col` has opened; a column that has none ends the process.
unfoldable pub opened_tree : Stored → Run TreeFile
opened_tree c = if is_bptree c.column.meta.storage then required c.tree else abort

-- `treejoin` reads one tree only: that of the first column if it has one, and else the second's.
unfoldable pub join_by_tree :
    Machine
    → Stored × Stored
    → BitVector × BitVector
    → Bool
    → (List ℕ × ℕ) × (List ℕ × ℕ)
    → JoinedIds
    → Run JoinedIds
join_by_tree m (c0, c1) bvs materialized ((m0, n0), (m1, n1)) ids =
    let storage = c0.column.meta.storage in
    (let first = opened_tree c0 in
      let second = opened_tree c1 in if is_bptree storage then first else second)
    >>= λ tree. treejoin m.depth m.width storage materialized (tree, tree) bvs (m0, m1) (n0, n1) ids

-- The `switch` on the first letter; one that it does not know ends the process. `loopjoin` starts lists of its
-- own. `materialized` is about the second variable.
unfoldable pub join_by :
    Machine
    → ℕ
    → Stored × Stored
    → BitVector × BitVector
    → Bool
    → (List ℕ × ℕ) × (List ℕ × ℕ)
    → JoinedIds
    → Run JoinedIds
join_by m letter cs bvs materialized ((m0, n0), (m1, n1)) ids =
    if letter == 108
    then loopjoin m0 m1 n0 n1
    else if letter == 115
    then sortjoin m.fuel m0 m1 n0 n1 ids
    else if letter == 104
    then hashjoin m0 m1 n0 n1 ids
    else if letter == 116
    then join_by_tree m cs bvs materialized ((m0, n0), (m1, n1)) ids
    else abort

-- The two result variables; that they have one name is left out and comes to a fault.
unfoldable pub join_command : Machine → Text → Scene → List (Option Text) → Run (Next × Scene)
join_command m command s args = arg args in_var >>= λ var_raw.
    split_names var_raw >>= λ (jv1_name, jv2_name). arg args in_arg_one >>= λ one.
    arg args in_arg_two >>= λ two. found_variable s.vars one >>= λ (p, v1).
    required v1.fetched_col >>= λ name1. load_col s.db name1 >>= λ c1.
    found_variable s.vars two >>= λ (q, v2). required v2.fetched_col >>= λ name2.
    load_col s.db name2 >>= λ c2. initialize_rowid_variable s.vars jv1_name >>= λ (j1, vars1).
    initialize_rowid_variable vars1 jv2_name >>= λ (j2, vars2). deref vars2 p >>= λ w1.
    deref vars2 q >>= λ w2. required w1.bv >>= λ bv1. required w2.bv >>= λ bv2.
    (let letter = get_or command 0 0 in
      materialize (letter == 115) c1.column bv1 >>= λ t1.
      materialize_second letter c1.column.meta.storage c2.column bv2 >>= λ t2.
      deref vars2 j1 >>= λ r1. deref vars2 j2 >>= λ r2. required r1.ids >>= λ ids1.
      required r2.ids >>= λ ids2.
      (if j1.place == j2.place
        then fault
        else join_by m letter (c1, c2) (bv1, bv2) w2.is_materialized (t1, t2) (ids1, ids2))
      >>= λ (first, second). assign vars2 j1 (record r1 { ids = some first }) >>= λ vars3.
          assign vars3 j2 (record r2 { ids = some second }) >>= λ vars4.
          done (again, record s { vars = vars4 }))
