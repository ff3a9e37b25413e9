-- ===== src/BpTree/Insert.antt =====
-- bptree.c: the insertion of a record, with the splits that it causes.
pub mod Cells
pub mod Entry
use cs165db.Prelude.{
  ℕ, zero, suc, ◌+◌, ◌-◌, List, ◌++◌, length, set, replicate, true, false, not, ◌&&◌, ltb, ◌==◌,
  if◌then◌else◌,
}
use cs165db.Word.{add32, sub32}
use cs165db.Run.{Run, done, spin, assert, read, write, ◌>>=◌, ◌>>◌}
use cs165db.Search.{get_upper_bound_from_array}
use cs165db.Column.{ColumnMeta}
use cs165db.BpTree.{
  Node, TreeFile, bpt_size, bpt_split, zero_node, load_node, write_node, write_cm, copy_cells,
  make_new_leaf_or_node,
}
use cs165db.BpTree.Find.{find_leaf}

-- `get_upper_bound_from_array(n->keys, n->size, key)`: the cell behind a full array of keys, which
-- the search may read, is the first pointer.
abbrev pub key_position : Node → ℕ → Run ℕ
key_position n key = get_upper_bound_from_array (n.keys ++ n.pointers) n.size key

-- The pointers of `_add_entry_to_node`. In an inner node `size + 1 - pos` pointers are moved.
unfoldable pub insert_pointer : Node → ℕ → ℕ → Run (List ℕ)
insert_pointer n pos pointer =
    if n.is_leaf
    then (do
      moved ← copy_cells n.pointers (pos + 1) n.pointers pos (sub32 n.size pos)
      write moved pos pointer)
    else (do
      moved ←
          (if ltb pos n.size
            then copy_cells n.pointers (pos + 2) n.pointers (pos + 1) (sub32 (add32 n.size 1) pos)
            else done n.pointers)
      write moved (pos + 1) pointer)

-- `_add_entry_to_node`, with the node in memory beside the file.
unfoldable pub add_entry_to_node : TreeFile → Node → ℕ → ℕ → Run (TreeFile × Node)
add_entry_to_node f node key pointer = do
  pos ← key_position node key
  moved ← copy_cells node.keys (pos + 1) node.keys pos (sub32 node.size pos)
  keys ← write moved pos key
  pointers ← insert_pointer node pos pointer
  let after = record node { keys = keys; pointers = pointers; size = add32 node.size 1 }
  done (write_node f after, after)

-- The arrays of `_insert_node` that have room for one entry more.
pub record Temp : Type 0 where
  pub temp_keys : List ℕ
  pub temp_pointers : List ℕ

unfoldable pub fill_temp : Node → ℕ → ℕ → Run Temp
fill_temp n key pointer = do
  pos ← key_position n key
  low_keys ← copy_cells (replicate bpt_size 0) 0 n.keys 0 pos
  with_key ← write low_keys pos key
  temp_keys ← copy_cells with_key (pos + 1) n.keys pos (sub32 n.size pos)
  let offset = if n.is_leaf then pos else pos + 1
  low_pointers ← copy_cells (replicate (bpt_size + 1) 0) 0 n.pointers 0 offset
  with_pointer ← write low_pointers offset pointer
  temp_pointers ← copy_cells with_pointer (offset + 1) n.pointers offset (sub32 n.size pos)
  done (record { temp_keys = temp_keys; temp_pointers = temp_pointers })

-- The two halves: `n` keeps the first `BPT_SPLIT` keys, and the new node gets the rest, without the
-- middle key if the nodes are inner ones.
unfoldable pub split_leaf : Node → Node → Temp → Run (Node × Node)
split_leaf n new temp = do
  n_keys ← copy_cells n.keys 0 temp.temp_keys 0 bpt_split
  new_keys ← copy_cells new.keys 0 temp.temp_keys bpt_split (bpt_size - bpt_split)
  n_pointers ← copy_cells n.pointers 0 temp.temp_pointers 0 bpt_split
  new_pointers ← copy_cells new.pointers 0 temp.temp_pointers bpt_split (bpt_size - bpt_split)
  done (
    record n { keys = n_keys; pointers = n_pointers; size = bpt_split; next = new.pos },
    record new {
      keys = new_keys;
      pointers = new_pointers;
      size = bpt_size - bpt_split;
      next = n.next;
    },
  )

unfoldable pub split_inner : Node → Node → Temp → Run (Node × Node)
split_inner n new temp = do
  n_keys ← copy_cells n.keys 0 temp.temp_keys 0 bpt_split
  new_keys ← copy_cells new.keys 0 temp.temp_keys (bpt_split + 1) (bpt_size - 1 - bpt_split)
  n_pointers ← copy_cells n.pointers 0 temp.temp_pointers 0 (bpt_split + 1)
  new_pointers ← copy_cells new.pointers 0 temp.temp_pointers (bpt_split + 1) (bpt_size - bpt_split)
  done (
    record n { keys = n_keys; pointers = n_pointers; size = bpt_split; next = new.pos },
    record new {
      keys = new_keys;
      pointers = new_pointers;
      size = bpt_size - 1 - bpt_split;
      next = n.next;
    },
  )

-- The loop that tells the children of the new node their parent.
unfoldable pub adopt : ℕ → TreeFile → Node → ℕ → Run TreeFile
adopt zero f new i = done f
adopt (suc n) f new i = do
  pos ← read new.pointers i
  child ← load_node f pos
  adopt n (write_node f (record child { parent = new.pos })) new (i + 1)

-- An entry for the one overflow leaf of a full leaf of duplicates.
unfoldable pub add_to_overflow : TreeFile → ColumnMeta → Node → ℕ → ℕ → Run TreeFile
add_to_overflow f cm next_node key pointer = do
  assert (ltb next_node.size (bpt_size - 1))
  keys ← write next_node.keys next_node.size key
  pointers ← write next_node.pointers (next_node.size + 1) pointer
  let after = record next_node { keys = keys; pointers = pointers; size = add32 next_node.size 1 }
  done (write_cm (write_node f after) cm)

-- The root was split: a new root over the two halves. The `assert` stands behind the writes.
unfoldable pub grow_root : TreeFile → ColumnMeta → Node → Node → Temp → Run TreeFile
grow_root f cm n new temp = do
  middle ← read temp.temp_keys bpt_split
  after_middle ← read temp.temp_keys (bpt_split + 1)
  let (fresh, cm', f') = make_new_leaf_or_node f cm false
  let parent = record fresh {
    keys = set fresh.keys 0 middle;
    pointers = set (set fresh.pointers 0 n.pos) 1 new.pos;
    size = 1;
  }
  let cm'' = record cm' { root = parent.pos }
  let f1 = write_node f' (record new { parent = parent.pos })
  let f2 = write_node f1 (record n { parent = parent.pos })
  let f3 = write_cm (write_node f2 parent) cm''
  assert (not (middle == after_middle))
  done f3

-- The split of a full node up to the entry that its parent is to get.
unfoldable pub split_node :
    TreeFile → ColumnMeta → Node → ℕ → ℕ → Run (TreeFile × ColumnMeta × Node × Node × Temp)
split_node f cm n key pointer = do
  temp ← fill_temp n key pointer
  let (fresh, cm', f') = make_new_leaf_or_node f cm n.is_leaf
  halves ← (if n.is_leaf then split_leaf n fresh temp else split_inner n fresh temp)
  let new = halves.1
  f'' ← (if n.is_leaf then done f' else adopt (new.size + 1) f' new 0)
  done (f'', cm', halves.0, new, temp)

-- `_insert_node`; the fuel bounds the way up.
unfoldable pub insert_node : ℕ → TreeFile → ColumnMeta → Node → ℕ → ℕ → Run TreeFile
insert_node zero f cm n key pointer = spin
insert_node (suc fuel) f cm n key pointer =
    let split = split_node f cm n key pointer >>= λ (f', cm', left, new, temp).
    (let to_parent =
        (let f1 = write_node f' (record new { parent = left.parent }) in
          let f2 = write_node f1 left in
          load_node f2 left.parent >>= λ parent. read temp.temp_keys bpt_split >>= λ middle.
          insert_node fuel f2 cm' parent middle new.pos) in
      if left.parent == 0 then grow_root f' cm' left new temp else to_parent) in
    if ltb n.size (bpt_size - 1)
    then (add_entry_to_node f n key pointer >>= λ (f', n'). done (write_cm f' cm))
    else if n.is_leaf && not (n.next == 0)
    then (load_node f n.next >>= λ next_node. read next_node.keys 0 >>= λ first.
        (if (next_node.parent == 0) && (first == key)
          then add_to_overflow f cm next_node key pointer
          else split))
    else split

-- The first record of a tree: the new root is written behind the header that
-- `_make_new_leaf_or_node` wrote, and the second copy of the header lands behind the root.
unfoldable pub insert_first : TreeFile → ℕ → ℕ → Run TreeFile
insert_first f key row_index =
    let (fresh, cm, f') = make_new_leaf_or_node f f.meta true in
    let root = record fresh {
      keys = set fresh.keys 0 key;
      pointers = set (set fresh.pointers 0 row_index) (bpt_size - 1) 0;
      size = 1;
    } in
    done (record f' { nodes = set (f'.nodes ++ replicate (1 - length f'.nodes) zero_node) 0 root })

-- `bpt_insert_record`
unfoldable pub bpt_insert_record : ℕ → TreeFile → ℕ → ℕ → Run TreeFile
bpt_insert_record depth f key row_index =
    if f.meta.size == 0
    then insert_first f key row_index
    else (load_node f f.meta.root >>= λ root.
        find_leaf depth f root key >>= λ leaf. insert_node depth f f.meta leaf key row_index)
