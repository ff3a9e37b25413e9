-- ===== src/BpTree/Bulk.antt =====
-- `bulk_load` (bptree.c): a tree over a sorted array, layer by layer.
use cs165db.Prelude.{
  ℕ, zero, suc, ◌+◌, ◌-◌, ◌*◌, ◌/◌, ◌<◌, ◌≡◌, refl, List, length, replicate, Bool, true, false,
  ◌&&◌, leb, ltb, ◌==◌, if◌then◌else◌, arith, le→ltb-false,
}
use cs165db.Word.{add32, sub32}
use cs165db.Run.{Run, done, spin, fault, abort, assert, read, write, read_lem, ◌>>=◌, ◌>>◌}
use cs165db.Search.{get_ceil}
use cs165db.Column.{ColumnMeta}
use cs165db.BpTree.{Node, TreeFile, bpt_size, write_node, write_cm, copy_cells}

-- What the loops change: the file, the node `n`, the first keys and the places of the layer below, the
-- counter and the number of nodes written.
pub record BulkState : Type 0 where
  pub file : TreeFile
  pub node : Node
  pub keys : List ℕ
  pub pointers : List ℕ
  pub counter : ℕ
  pub total_nodes : ℕ

-- `for (j = 0; ...) n->pointers[j] = counter`, with `n` places left from `j` on.
unfoldable pub number_pointers : ℕ → List ℕ → ℕ → ℕ → Run (List ℕ)
number_pointers zero pointers j counter = done pointers
number_pointers (suc n) pointers j counter =
    write pointers j counter >>= λ pointers'. number_pointers n pointers' (j + 1) (counter + 1)

module _ (test : Bool) (sorted : List ℕ) (size : ℕ) where
  -- The last leaf gets what is left.
  unfoldable pub fill_last_leaf : BulkState → Run BulkState
  fill_last_leaf s = do
    let rest = sub32 size s.counter
    let n = s.node
    keys ← copy_cells n.keys 0 sorted s.counter rest
    pointers ← number_pointers rest n.pointers 0 s.counter
    done (record s {
      node = record n { keys = keys; pointers = pointers; size = rest; next = 0 };
      counter = size;
    })

  -- The other leaves are full, and a duplicate behind one ends the process where `TEST` is set.
  unfoldable pub fill_leaf : BulkState → Run BulkState
  fill_leaf s = do
    let n = s.node
    keys ← copy_cells n.keys 0 sorted s.counter (bpt_size - 1)
    pointers ← number_pointers (bpt_size - 1) n.pointers 0 s.counter
    let counter = s.counter + (bpt_size - 1)
    next_key ← read sorted counter
    last_key ← read sorted (counter - 1)
    (if (next_key == last_key) && test
        then abort
        else done (record s {
          node = record n {
            keys = keys;
            pointers = pointers;
            size = bpt_size - 1;
            next = add32 s.total_nodes 1;
          };
          counter = counter;
        }))

  -- The loop over the leaves, with `k` of them left from `i` on. The test is one of `uint32_t`s.
  unfoldable pub load_leaves : ℕ → ℕ → ℕ → BulkState → Run BulkState
  load_leaves zero num_nodes i s = done s
  load_leaves (suc k) num_nodes i s = do
    first ← read sorted s.counter
    keys ← write s.keys i first
    pointers ← write s.pointers i i
    let s1 = record s { keys = keys; pointers = pointers }
    s2 ← (if ltb (add32 (sub32 size bpt_size) 1) s.counter then fill_last_leaf s1 else fill_leaf s1)
    let filled = s2.node
    let leaf = record filled { pos = s.total_nodes; parent = add32 num_nodes (i / bpt_size) }
    load_leaves k num_nodes (i + 1) (record s2 {
      file = write_node s2.file leaf;
      node = leaf;
      total_nodes = add32 s.total_nodes 1;
    })

-- The keys and pointers of an inner node. The last one of a layer keeps the size that `n` had.
unfoldable pub fill_inner : ℕ → ℕ → BulkState → Run BulkState
fill_inner num_nodes i s =
    let n = s.node in
    let only =
      (if i == 0 then fault else (do
        keys ← copy_cells n.keys 0 s.keys (i * bpt_size) 1
        p ← read s.pointers (i * bpt_size - 1)
        q ← read s.pointers (i * bpt_size)
        first ← write n.pointers 0 p
        pointers ← write first 1 q
        done (record s {
          node = record n { keys = keys; pointers = pointers };
          counter = num_nodes;
        }))) in
    let last = (do
      keys ← copy_cells n.keys 0 s.keys (i * bpt_size + 1) (sub32 (sub32 num_nodes s.counter) 1)
      pointers ← copy_cells n.pointers 0 s.pointers (i * bpt_size) (sub32 num_nodes s.counter)
      done (record s {
        node = record n { keys = keys; pointers = pointers };
        counter = num_nodes;
      })) in
    let full = (do
      keys ← copy_cells n.keys 0 s.keys (i * bpt_size + 1) (bpt_size - 1)
      pointers ← copy_cells n.pointers 0 s.pointers (i * bpt_size) bpt_size
      done (record s {
        node = record n { keys = keys; pointers = pointers; size = bpt_size - 1 };
        counter = s.counter + bpt_size;
      })) in
    if ltb (sub32 num_nodes bpt_size) s.counter
    then (if num_nodes == 1 then only else last)
    else full

-- A layer of inner nodes, with `k` of them left from `i` on.
unfoldable pub load_layer : ℕ → ℕ → ℕ → ℕ → BulkState → Run BulkState
load_layer zero num_nodes above i s = done s
load_layer (suc k) num_nodes above i s = do
  s1 ← fill_inner num_nodes i s
  let filled = s1.node
  let inner = record filled {
    pos = s.total_nodes;
    next = 0;
    parent = add32 (sub32 (add32 s.total_nodes above) i) (i / bpt_size);
  }
  head ← read s1.keys (i * bpt_size)
  keys ← write s1.keys i head
  pointers ← write s1.pointers i s.total_nodes
  load_layer k num_nodes above (i + 1) (record s1 {
    file = write_node s1.file inner;
    node = inner;
    keys = keys;
    pointers = pointers;
    total_nodes = add32 s.total_nodes 1;
  })

-- The loop over the layers; the fuel bounds their number.
unfoldable pub load_layers : ℕ → ℕ → BulkState → Run (ℕ × BulkState)
load_layers zero num_nodes s = spin
load_layers (suc fuel) num_nodes s = get_ceil num_nodes bpt_size >>= λ above.
    (let more = load_layer above num_nodes above 0 (record s { counter = 0 }) >>= λ s'.
    load_layers fuel above s' in
      if above == 1 then done (num_nodes, s) else more)

-- The root over the last layer.
unfoldable pub load_root : ColumnMeta → ℕ → BulkState → Run TreeFile
load_root cm num_nodes s = do
  assert (leb num_nodes bpt_size)
  let n = s.node
  keys ← copy_cells n.keys 0 s.keys 1 (sub32 num_nodes 1)
  pointers ← copy_cells n.pointers 0 s.pointers 0 num_nodes
  let root = record n {
    keys = keys;
    pointers = pointers;
    parent = 0;
    pos = s.total_nodes;
    size = sub32 num_nodes 1;
  }
  done (
      write_cm (write_node s.file root)
        (record cm { next_free = add32 s.total_nodes 1; root = s.total_nodes }))

-- `bulk_load`, with the node as `malloc` left it and the value of `TEST`. The two arrays are written
-- before they are read, so their first values do not matter.
unfoldable pub bulk_load : ℕ → Bool → Node → TreeFile → List ℕ → ℕ → Run TreeFile
bulk_load fuel test junk f sorted size = do
  num_nodes ← get_ceil size (bpt_size - 1)
  let cm = f.meta
  leaves ← load_leaves test sorted size num_nodes num_nodes 0 (record {
    file = f;
    node = record junk { is_leaf = true; size = bpt_size - 1 };
    keys = replicate num_nodes 0;
    pointers = replicate num_nodes 0;
    counter = 0;
    total_nodes = 0;
  })
  let leaf = leaves.node
  (last_layer, s) ←
      load_layers fuel num_nodes
        (record leaves { node = record leaf { is_leaf = false; next = 0 } })
  load_root (record cm { size = num_nodes }) last_layer s

-- A `memcpy` from behind the end of its source faults.
copy_cells-short :
    (des : List ℕ) (to : ℕ) (src : List ℕ) (from n : ℕ)
    → length src < from + n
    → copy_cells des to src from n ≡ fault
unfolding copy_cells
copy_cells-short des to src from n h = ground arith

-- From a sorted array of at least one and fewer than 127 values, bulk_load reads past the end of
-- the array: the test for the last leaf wraps around.
pub bulk_load-short :
    (fuel : ℕ) (test : Bool) (junk : Node) (f : TreeFile) (sorted : List ℕ) (size : ℕ)
    → 0 < size
    → size < 127
    → length sorted ≡ size
    → bulk_load fuel test junk f sorted size ≡ fault
unfolding bulk_load load_leaves fill_leaf get_ceil
bulk_load-short fuel test junk f sorted size some_values short long =
    rw
      (
        one,
        read_lem sorted 0 0 (omega arith),
        wrapped,
        copy_cells-short junk.keys 0 sorted 0 127 (omega arith),
      )
      refl
  where
    one : sub32 (add32 size 127) 1 / 127 ≡ 1
    one = omega arith

    wrapped : ltb (add32 (sub32 size 128) 1) 0 ≡ false
    wrapped = le→ltb-false _ _ (omega arith)
