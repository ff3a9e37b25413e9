-- ===== src/BpTree/Insert/Entry.antt =====
-- `_add_entry_to_node` (bptree.c) on a leaf, against the entries that the search sees.
use cs165db.Prelude.{
  ℕ, zero, suc, ◌+◌, ◌-◌, ◌≤◌, ◌<◌, ◌≡◌, refl, sym, ap, ap₂, ◌∙◌, subst, List, ◌∷◌, ◌++◌, length,
  get_or, true, arith, length-append, get_or-append_left, if◌then◌else◌, if_of_true, if_of_false,
  false, lt→ltb,
}
use cs165db.Word.{add32, sub32, rank}
use cs165db.Run.{done, fault, Returns, Returns-map, Returns-done, write, ◌>>=◌, >>=-eq-done}
use cs165db.Search.Spec.{◌!◌, IsSorted, SplitsAbove}
use cs165db.Search.UpperArray.{get_upper_bound_from_array-SplitsAbove}
use cs165db.BpTree.{Node, TreeFile, bpt_size, write_node, copy_cells}
use cs165db.BpTree.Find.Scan.{Entry, entries_from, entries}
use cs165db.BpTree.Find.Descent.{KeysUpTo, KeysFrom}
use cs165db.BpTree.Insert.{add_entry_to_node, insert_pointer, key_position}
use cs165db.BpTree.Insert.Cells.{Opened, open-Opened, copy_cells-outside}

-- A leaf with its arrays, in order of keys, that is not full.
pub record HasRoom (n : Node) : Type 0 where
  pub leaf : n.is_leaf ≡ true
  pub keys_long : length n.keys + 1 ≡ bpt_size
  pub pointers_long : length n.pointers ≡ bpt_size
  pub not_full : n.size + 1 < bpt_size
  pub in_order : IsSorted n.keys n.size

-- What the call leaves of a leaf: the new entry stands behind the entries whose key is at most its
-- own, and before the others.
pub record EntryAdded (n : Node) (key pointer : ℕ) (after : Node) : Type 0 where
  pub low : List Entry
  pub high : List Entry
  pub was : entries n ≡ low ++ high
  pub is_now : entries after ≡ low ++ ((key, pointer) ∷ high)
  pub low_keys : KeysUpTo key low
  pub high_keys : KeysFrom key high
  pub keys_long : length after.keys ≡ length n.keys
  pub pointers_long : length after.pointers ≡ length n.pointers
  pub size_up : after.size ≡ n.size + 1

-- Entries read from equal cells are equal, also `d` places apart.
entries_from_ext :
    (m : ℕ) (a b : Node) (i j : ℕ)
    → ((k : ℕ)
        → k < m
        → (get_or a.keys (i + k) 0 ≡ get_or b.keys (j + k) 0)
          × (get_or a.pointers (i + k) 0 ≡ get_or b.pointers (j + k) 0))
    → entries_from m a i ≡ entries_from m b j
unfolding entries_from
entries_from_ext zero a b i j h = refl
entries_from_ext (suc m) a b i j h =
    let first = h 0 (omega arith) in
    let same_i : i + 0 ≡ i = omega arith in
    let same_j : j + 0 ≡ j = omega arith in
    let keys : get_or a.keys i 0 ≡ get_or b.keys j 0 = rw (same_i, same_j) at first.0 in
    let pointers : get_or a.pointers i 0 ≡ get_or b.pointers j 0 = rw (same_i, same_j) at first.1 in
    rw (keys, pointers)
      (ap (λ l. (get_or b.keys j 0, get_or b.pointers j 0) ∷ l)
        (entries_from_ext m a b (i + 1) (j + 1) λ k p.
          let next_i : i + 1 + k ≡ i + suc k = omega arith in
          let next_j : j + 1 + k ≡ j + suc k = omega arith in
          rw (next_i, next_j) (h (suc k) (omega arith))))

entries_from-append :
    (m k : ℕ) (n : Node) (i : ℕ)
    → entries_from (m + k) n i ≡ entries_from m n i ++ entries_from k n (i + m)
unfolding entries_from
entries_from-append zero k n i =
    let a : zero + k ≡ k = omega arith in let b : i + zero ≡ i = omega arith in rw (a, b) refl
entries_from-append (suc m) k n i =
    let a : suc m + k ≡ suc (m + k) = omega arith in
    let b : i + 1 + m ≡ i + suc m = omega arith in
    rw a (
      ap (λ l. (get_or n.keys i 0, get_or n.pointers i 0) ∷ l)
        (rw b at (entries_from-append m k n (i + 1))))

entries_from-KeysUpTo :
    (m : ℕ) (n : Node) (key i : ℕ)
    → ((k : ℕ) → k < i + m → rank (n.keys ! k) ≤ rank key)
    → KeysUpTo key (entries_from m n i)
unfolding entries_from
entries_from-KeysUpTo zero n key i h = tt
entries_from-KeysUpTo (suc m) n key i h =
    (h i (omega arith), entries_from-KeysUpTo m n key (i + 1) (λ k p. h k (omega arith)))

entries_from-KeysFrom :
    (m : ℕ) (n : Node) (key i : ℕ)
    → ((k : ℕ) → i ≤ k → k < i + m → rank key < rank (n.keys ! k))
    → KeysFrom key (entries_from m n i)
unfolding entries_from
entries_from-KeysFrom zero n key i h = tt
entries_from-KeysFrom (suc m) n key i h = (
  omega (arith, h i (omega arith) (omega arith)),
  entries_from-KeysFrom m n key (i + 1) (λ k p q. h k (omega arith) (omega arith)),
)

-- From the cells to the entries.
Opened-EntryAdded :
    (n after : Node) (key pointer pos : ℕ)
    → SplitsAbove n.keys n.size key pos
    → Opened n.keys n.size pos key after.keys
    → Opened n.pointers n.size pos pointer after.pointers
    → after.size ≡ n.size + 1
    → EntryAdded n key pointer after
unfolding entries entries_from
Opened-EntryAdded n after key pointer pos s k p up = record {
  low = entries_from pos n 0;
  high = entries_from (n.size - pos) n pos;
  was = old;
  is_now = new;
  low_keys = entries_from-KeysUpTo pos n key 0 (λ i q. s.1 i (omega arith));
  high_keys =
      entries_from-KeysFrom (n.size - pos) n key pos (λ i q r. s.2 i q (omega (arith, s.0)));
  keys_long = k.long;
  pointers_long = p.long;
  size_up = up;
}
  where
    old : entries_from n.size n 0 ≡ entries_from pos n 0 ++ entries_from (n.size - pos) n pos
    old =
        let parts : n.size ≡ pos + (n.size - pos) = omega (arith, s.0) in
        let from : 0 + pos ≡ pos = omega arith in
        ap (λ m. entries_from m n 0) parts
        ∙ entries_from-append pos (n.size - pos) n 0
        ∙ ap (λ i. entries_from pos n 0 ++ entries_from (n.size - pos) n i) from

    lower : entries_from pos after 0 ≡ entries_from pos n 0
    lower =
        entries_from_ext pos after n 0 0
          λ i q. let z : 0 + i ≡ i = omega arith in rw z (k.before i q, p.before i q)

    upper : entries_from (n.size - pos) after (pos + 1) ≡ entries_from (n.size - pos) n pos
    upper = entries_from_ext (n.size - pos) after n (pos + 1) pos λ i q. (k.after i q, p.after i q)

    at_pos :
        entries_from (suc (n.size - pos)) after pos
        ≡ (key, pointer) ∷ entries_from (n.size - pos) after (pos + 1)
    at_pos = ap₂ (λ a b. (a, b) ∷ entries_from (n.size - pos) after (pos + 1)) k.here p.here

    new :
        entries_from after.size after 0
        ≡ entries_from pos n 0 ++ ((key, pointer) ∷ entries_from (n.size - pos) n pos)
    new =
        let parts : after.size ≡ pos + suc (n.size - pos) = omega (arith, s.0) in
        let from : 0 + pos ≡ pos = omega arith in
        ap (λ m. entries_from m after 0) parts
        ∙ entries_from-append pos (suc (n.size - pos)) after 0
        ∙ ap (λ i. entries_from pos after 0 ++ entries_from (suc (n.size - pos)) after i) from
        ∙ ap₂ ◌++◌ lower (at_pos ∙ ap (λ l. (key, pointer) ∷ l) upper)

-- The position is that of the keys alone.
key_position-SplitsAbove :
    (n : Node) (key : ℕ) → HasRoom n → Returns (key_position n key) (SplitsAbove n.keys n.size key)
key_position-SplitsAbove n key room =
    Returns-map (SplitsAbove both n.size key) (SplitsAbove n.keys n.size key) (key_position n key)
      (get_upper_bound_from_array-SplitsAbove both n.size key sorted
        (omega (
          arith,
          length-append n.keys n.pointers,
          room.keys_long,
          room.pointers_long,
          room.not_full,
        ))
        (omega (arith, room.not_full)))
      λ r s. (
        s.0,
        λ i q. rw (cell i (omega (arith, s.0))) at (s.1 i q),
        λ i q t. rw (cell i t) at (s.2 i q t),
      )
  where
    both : List ℕ
    both = n.keys ++ n.pointers

    cell : (i : ℕ) → i < n.size → both ! i ≡ n.keys ! i
    cell i q =
        get_or-append_left n.keys n.pointers i 0 (omega (arith, room.keys_long, room.not_full))

    sorted : IsSorted both n.size
    sorted i j q t = rw (cell i (omega arith), cell j t) (room.in_order i j q t)

insert_pointer-Opened :
    (n : Node) (pos pointer : ℕ)
    → HasRoom n
    → pos ≤ n.size
    → Returns (insert_pointer n pos pointer) (Opened n.pointers n.size pos pointer)
unfolding insert_pointer
insert_pointer-Opened n pos pointer room h =
    subst (λ r. Returns r (Opened n.pointers n.size pos pointer))
      (sym (if_of_true n.is_leaf _ _ room.leaf))
      (open-Opened n.pointers n.size pos pointer h
        (omega (arith, room.pointers_long, room.not_full)) (omega (arith, room.not_full)))

-- On a leaf in order of keys that is not full, _add_entry_to_node puts the new entry behind the
-- entries whose key is at most its own and before the others, keeps these and their order, counts
-- one entry more, keeps the lengths of the arrays, and writes the node to the file.
pub add_entry_to_node-EntryAdded :
    (f : TreeFile) (n : Node) (key pointer : ℕ)
    → HasRoom n
    → Returns
        (add_entry_to_node f n key pointer)
        (λ (g, after). (g ≡ write_node f after) × EntryAdded n key pointer after)
unfolding add_entry_to_node
add_entry_to_node-EntryAdded f n key pointer room =
    let (pos, found, s) =
      Returns-done (SplitsAbove n.keys n.size key) (key_position n key)
        (key_position-SplitsAbove n key room) in
    let (keys, keys_done, k) = Returns-done (Opened n.keys n.size pos key) _ (
      open-Opened n.keys n.size pos key s.0 (omega (arith, room.keys_long, room.not_full))
        (omega (arith, room.not_full))) in
    let (moved, moves, writes) =
      >>=-eq-done (copy_cells n.keys (pos + 1) n.keys pos (sub32 n.size pos)) (λ m. write m pos key)
        keys_done in
    let (pointers, pointers_done, p) =
      Returns-done (Opened n.pointers n.size pos pointer) (insert_pointer n pos pointer)
        (insert_pointer-Opened n pos pointer room s.0) in
    let up : add32 n.size 1 ≡ n.size + 1 = omega (arith, room.not_full) in
    rw (Returns, found, moves, writes, pointers_done)
      (refl, Opened-EntryAdded n _ key pointer pos s k p up)

-- In an inner node with 126 keys and all its pointers, adding an entry before the last one moves
-- the pointers one cell past the end of their array.
pub insert_pointer-overrun :
    (n : Node) (pos pointer : ℕ)
    → n.is_leaf ≡ false
    → n.size ≡ 126
    → length n.pointers ≡ bpt_size
    → pos < 126
    → insert_pointer n pos pointer ≡ fault
unfolding insert_pointer
insert_pointer-overrun n pos pointer inner full long h =
    let moved : sub32 (add32 n.size 1) pos ≡ 127 - pos = omega arith in
    if_of_false n.is_leaf _ _ inner
    ∙ ap
        (λ b.
          (if b
            then copy_cells n.pointers (pos + 2) n.pointers (pos + 1) (sub32 (add32 n.size 1) pos)
            else done n.pointers)
          >>= λ m. write m (pos + 1) pointer)
        (lt→ltb pos n.size (omega arith))
    ∙ ap (λ r. r >>= λ m. write m (pos + 1) pointer)
        (copy_cells-outside n.pointers (pos + 2) n.pointers (pos + 1) (sub32 (add32 n.size 1) pos)
          (omega arith))
