-- ===== src/BpTree.antt =====
-- bptree.c and bptree.h: the B+ tree file of a column. The nodes are records in a file, named by
-- their place in it; `fopen`, `fseek` and `fwrite` succeed, and a node that is not wholly there ends
-- the process when it is read.
pub mod Find
pub mod Insert
pub mod Bulk
use cs165db.Prelude.{
  ℕ, zero, suc, ◌+◌, ◌-◌, List, [], ◌∷◌, ◌++◌, length, take, drop, set, replicate, get_elem?, Bool,
  true, false, ◌&&◌, leb, if◌then◌else◌, none, some,
}
use cs165db.Word.{add32}
use cs165db.Run.{Run, done, fault, abort}
use cs165db.Column.{ColumnMeta, StorageType}

-- `BPT_SIZE` and `BPT_SPLIT` (config.h)
abbrev pub bpt_size : ℕ
bpt_size = 128

abbrev pub bpt_split : ℕ
bpt_split = 64

-- `node_t`: `keys` has 127 cells and `pointers` 128.
pub record Node : Type 0 where
  pub keys : List ℕ
  pub pointers : List ℕ
  pub is_leaf : Bool
  pub parent : ℕ
  pub size : ℕ
  pub next : ℕ
  pub pos : ℕ

-- `<name>_nodes.data`: the header and the nodes behind it.
pub record TreeFile : Type 0 where
  pub meta : ColumnMeta
  pub nodes : List Node

-- The bytes of a gap in the file, read as a node.
abbrev pub zero_node : Node
zero_node = record {
  keys = replicate 127 0;
  pointers = replicate 128 0;
  is_leaf = false;
  parent = 0;
  size = 0;
  next = 0;
  pos = 0;
}

-- The tree file that `make_new_column_file` writes.
unfoldable pub make_tree_file : StorageType → TreeFile
make_tree_file storage = record {
  meta = record { storage = storage; size = 0; next_free = 0; root = 0 };
  nodes = [];
}

-- `_load_node`
unfoldable pub load_node : TreeFile → ℕ → Run Node
load_node t pos = elim (get_elem? t.nodes pos) [ none ↦ abort | some n ↦ done n ]

-- `_write_node`
unfoldable pub write_node : TreeFile → Node → TreeFile
write_node t node = record t {
  nodes = set (t.nodes ++ replicate (suc node.pos - length t.nodes) zero_node) node.pos node;
}

-- `_write_cm`
abbrev pub write_cm : TreeFile → ColumnMeta → TreeFile
write_cm t cm = record t { meta = cm }

-- `_make_new_leaf_or_node`: the node, the header in memory, and the file with that header. The node
-- itself is written by the caller.
unfoldable pub make_new_leaf_or_node : TreeFile → ColumnMeta → Bool → Node × ColumnMeta × TreeFile
make_new_leaf_or_node t cm is_leaf =
    let after = record cm {
      next_free = add32 cm.next_free 1;
      size = if is_leaf then add32 cm.size 1 else cm.size;
    } in
    (record zero_node { is_leaf = is_leaf; pos = cm.next_free }, after, write_cm t after)

-- `memcpy` and `memmove` of `n` cells, from place `from` of one array to place `to` of another.
unfoldable pub copy_cells : List ℕ → ℕ → List ℕ → ℕ → ℕ → Run (List ℕ)
copy_cells des to src from n =
    if leb (from + n) (length src) && leb (to + n) (length des)
    then done (take to des ++ (take n (drop from src) ++ drop (to + n) des))
    else fault
