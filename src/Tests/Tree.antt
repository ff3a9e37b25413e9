-- ===== src/Tests/Tree.antt =====
-- The search of bptree.c on a tree of two leaves.
use cs165db.Prelude.{
  ℕ, zero, suc, ◌≤◌, ◌<◌, ◌≡◌, refl, List, [], ◌∷◌, replicate, length, none, true, false, get_or,
  arith,
}
use cs165db.Word.{word}
use cs165db.Run.{done}
use cs165db.DynArray.{DynArray, append_list}
use cs165db.Column.{bptree}
use cs165db.BpTree.{Node, TreeFile, load_node}
use cs165db.BpTree.Find.{find_record_in_range_type}
use cs165db.BpTree.Find.Scan.{entries, all_entries, Ordered, Links, Filled, emitted}
use cs165db.BpTree.Find.Descent.{KeysUpTo, KeysFrom, join, IsTree}
use cs165db.BpTree.Find.Search.{IsTreeFile, find_record_in_range_type_lem}
use cs165db.Tests.Searches.{rank-le}

-- The leaves at the places 0 and 1 of the file, and the root behind them.
abbrev pub low_leaf : Node
low_leaf = record {
  keys = 10 ∷ 20 ∷ replicate 125 0;
  pointers = 4 ∷ 0 ∷ replicate 126 0;
  is_leaf = true;
  parent = 2;
  size = 2;
  next = 1;
  pos = 0;
}

abbrev pub high_leaf : Node
high_leaf = record {
  keys = 20 ∷ 30 ∷ replicate 125 0;
  pointers = 3 ∷ 1 ∷ replicate 126 0;
  is_leaf = true;
  parent = 2;
  size = 2;
  next = 0;
  pos = 1;
}

abbrev pub root_node : Node
root_node = record {
  keys = 20 ∷ replicate 126 0;
  pointers = 0 ∷ 1 ∷ replicate 126 0;
  is_leaf = false;
  parent = 0;
  size = 1;
  next = 0;
  pos = 2;
}

abbrev pub small_tree : TreeFile
small_tree = record {
  meta = record { storage = bptree; size = 2; next_free = 3; root = 2 };
  nodes = low_leaf ∷ high_leaf ∷ root_node ∷ [];
}

abbrev pub leaves : List Node
leaves = low_leaf ∷ high_leaf ∷ []

kid : ℕ → Node
kid zero = low_leaf
kid (suc i) = high_leaf

below_kid : ℕ → List Node
below_kid zero = low_leaf ∷ []
below_kid (suc i) = high_leaf ∷ []

small_tree-IsTree : IsTree small_tree 1 root_node leaves
unfolding kid below_kid join all_entries entries load_node
small_tree-IsTree = record {
  kids = kid;
  leaves = below_kid;
  inner = refl;
  keys_long = omega arith;
  pointers_long = omega arith;
  loads = loads;
  trees = trees;
  all_leaves = refl;
  left_bound = left;
  right_bound = right;
}
  where
    loads : (i : ℕ) → i ≤ 1 → load_node small_tree (get_or root_node.pointers i 0) ≡ done (kid i)
    loads zero h = refl
    loads (suc zero) h = refl
    loads (suc (suc i)) h = absurd (omega arith)

    trees : (i : ℕ) → i ≤ 1 → IsTree small_tree 0 (kid i) (below_kid i)
    trees zero h = (refl, refl)
    trees (suc i) h = (refl, refl)

    left : (i : ℕ) → i < 1 → KeysUpTo (get_or root_node.keys i 0) (all_entries (below_kid i))
    left zero h =
        (rank-le 10 20 (omega arith) (omega arith), (rank-le 20 20 (omega arith) (omega arith), tt))
    left (suc i) h = absurd (omega arith)

    right : (i : ℕ) → i < 1 → KeysFrom (get_or root_node.keys i 0) (all_entries (below_kid (suc i)))
    right zero h =
        (rank-le 20 20 (omega arith) (omega arith), (rank-le 20 30 (omega arith) (omega arith), tt))
    right (suc i) h = absurd (omega arith)

small_tree-Links : Links small_tree low_leaf (high_leaf ∷ [])
unfolding load_node
small_tree-Links = (λ e. omega arith, refl, (refl, (low_leaf, refl)))

leaves-Filled : Filled leaves
leaves-Filled = (omega arith, omega arith, (omega arith, omega arith, tt))

leaves-Ordered : Ordered 0 (all_entries leaves)
unfolding all_entries entries
leaves-Ordered = (
  omega arith,
  (
    rank-le 10 20 (omega arith) (omega arith),
    (rank-le 20 20 (omega arith) (omega arith), (rank-le 20 30 (omega arith) (omega arith), tt)),
  ),
)

pub leaves_length : length (all_entries leaves) ≡ 4
unfolding all_entries entries
leaves_length = refl

leaves_few : length (all_entries leaves) < word
unfolding all_entries entries
leaves_few = omega arith

pub small_tree-IsTreeFile : IsTreeFile small_tree 1 leaves
unfolding load_node
small_tree-IsTreeFile = record {
  root = root_node;
  root_loads = refl;
  tree = small_tree-IsTree;
  chain = small_tree-Links;
  filled = leaves-Filled;
  in_order = leaves-Ordered;
  few = leaves_few;
}

abbrev pub no_ids : DynArray ℕ
no_ids = record { next = 0; capacity = 8; cells = replicate 8 none }

find_record_in_range_type_lem_example :
    find_record_in_range_type append_list 15 25 2 2 small_tree no_ids
    ≡ emitted append_list 15 25 small_tree no_ids 0 (all_entries leaves)
find_record_in_range_type_lem_example =
    find_record_in_range_type_lem append_list 15 25 small_tree 1 2 2 leaves no_ids
      small_tree-IsTreeFile (omega arith) (omega arith)
