-- ===== src/BpTree/Find/Scan.antt =====
-- The scan along the leaves (`_find_record_in_range_type`) against the entries that they hold.
use cs165db.Prelude.{
  ℕ, zero, suc, ◌+◌, ◌≤◌, ◌<◌, ◌≡◌, ◌≢◌, refl, sym, ap, ◌∙◌, List, [], ◌∷◌, ◌++◌, length, get_or,
  Bool, true, false, ◌&&◌, ◌||◌, if◌then◌else◌, ◌==◌, ==_of_ne, ==_iff, arith, length-append, inl,
  inr, Bool-cases, ltb→lt,
}
use cs165db.Word.{word, add32, rank, le_int, lt_int}
use cs165db.Run.{Run, done, read, read_lem, ◌>>=◌, bind_assoc, bind_ext}
use cs165db.BpTree.{Node, TreeFile, load_node}
use cs165db.BpTree.Find.{scan_leaf, scan_leaves}

-- A key and the place of its row.
abbrev pub Entry : Type 0
Entry = ℕ × ℕ

-- The `n` entries of a leaf from `i` on, and all of them.
unfoldable pub entries_from : ℕ → Node → ℕ → List Entry
entries_from zero leaf i = []
entries_from (suc n) leaf i =
    (get_or leaf.keys i 0, get_or leaf.pointers i 0) ∷ entries_from n leaf (i + 1)

unfoldable pub entries : Node → List Entry
unfolding entries_from
entries leaf = entries_from leaf.size leaf 0

unfoldable pub all_entries : List Node → List Entry
all_entries [] = []
all_entries (leaf ∷ rest) = entries leaf ++ all_entries rest

-- The keys are not below `b` and in ascending order.
abbrev pub Ordered : ℕ → List Entry → Type 0
Ordered b [] = Unit
Ordered b ((k, p) ∷ es) = (b ≤ rank k) × Ordered (rank k) es

-- The rows of the entries with a key from `low` to `high`, in the order of the entries.
unfoldable pub hits : ℕ → ℕ → List Entry → List ℕ
hits low high [] = []
hits low high ((k, p) ∷ es) =
    let rest = hits low high es in if le_int k high && le_int low k then p ∷ rest else rest

pub length-hits : (low high : ℕ) (es : List Entry) → length (hits low high es) ≤ length es
unfolding hits
length-hits low high [] = omega arith
length-hits low high ((k, p) ∷ es) = ground (arith, length-hits low high es)

pub length-entries_from : (n : ℕ) (leaf : Node) (i : ℕ) → length (entries_from n leaf i) ≡ n
unfolding entries_from
length-entries_from zero leaf i = refl
length-entries_from (suc n) leaf i = ap suc (length-entries_from n leaf (i + 1))

-- Some key is above `high`.
over : ℕ → List Entry → Bool
over high [] = false
over high ((k, p) ∷ es) = lt_int high k || over high es

-- Entries that start above `high` hold no hit.
hits-above :
    (low high b : ℕ) (es : List Entry) → rank high < b → Ordered b es → hits low high es ≡ []
unfolding hits
hits-above low high b [] h o = refl
hits-above low high b ((k, p) ∷ es) h o = ground (arith, hits-above low high (rank k) es)

module _ {S : Type 0} (emit : S → ℕ → Run S) where
  -- The results in a row.
  unfoldable pub emit_all : S → List ℕ → Run S
  emit_all s [] = done s
  emit_all s (p ∷ ps) = emit s p >>= λ s'. emit_all s' ps

  pub emit_all-append :
      (s : S) (ps qs : List ℕ) → emit_all s (ps ++ qs) ≡ (emit_all s ps >>= λ s'. emit_all s' qs)
  unfolding emit_all
  emit_all-append s [] qs = refl
  emit_all-append s (p ∷ ps) qs =
      bind_ext (emit s p) _ _ (λ s'. emit_all-append s' ps qs)
      ∙ sym (bind_assoc (emit s p) (λ s'. emit_all s' ps) (λ s'. emit_all s' qs))

module _ {S : Type 0} (emit : S → ℕ → Run S) (low high : ℕ) where
  -- What the scan of a leaf comes to.
  abbrev scanned : S → ℕ → List Entry → Run (S × ℕ × Bool)
  scanned s count es = emit_all emit s (hits low high es) >>= λ s'.
      done (s', count + length (hits low high es), over high es)

  scan_leaf-scanned :
      (n : ℕ) (leaf : Node) (i : ℕ) (s : S) (count b : ℕ)
      → i + n ≤ length leaf.keys
      → i + n ≤ length leaf.pointers
      → count + n < word
      → Ordered b (entries_from n leaf i)
      → scan_leaf emit low high n leaf i s count ≡ scanned s count (entries_from n leaf i)
  unfolding scan_leaf entries_from hits over emit_all
  scan_leaf-scanned zero leaf i s count b lk lp lc o = ap (λ c. done (s, c, false)) (omega arith)
  scan_leaf-scanned (suc n) leaf i s count b lk lp lc o =
      let k : ℕ = get_or leaf.keys i 0 in
      let p : ℕ = get_or leaf.pointers i 0 in
      let es : List Entry = entries_from n leaf (i + 1) in
      let keys_read : read leaf.keys i ≡ done k = read_lem leaf.keys i 0 (omega arith) in
      let pointers_read : read leaf.pointers i ≡ done p =
        read_lem leaf.pointers i 0 (omega arith) in
      let ih : (s' : S) (c : ℕ)
          → c + n < word
          → scan_leaf emit low high n leaf (i + 1) s' c ≡ scanned s' c es =
        λ s' c q.
          scan_leaf-scanned n leaf (i + 1) s' c (rank k) (omega arith) (omega arith) q o.1 in
      elim (Bool-cases (lt_int high k)) [
        | inl above ↦
            rw
              (
                keys_read,
                above,
                not_below k above,
                hits-above low high (rank k) es (ltb→lt _ _ above) o.1,
              )
              (ap (λ c. done (s, c, true)) (omega arith))
        | inr fits ↦ elim (Bool-cases (le_int low k)) [
          | inl hit ↦
              rw (keys_read, fits, below k fits, hit, pointers_read)
                (bind_assoc (emit s p) (λ s'. done (s', add32 count 1)) _
                  ∙ bind_ext (emit s p) _ _ (λ s'.
                    ih s' (add32 count 1) (omega arith)
                    ∙ bind_ext (emit_all emit s' (hits low high es)) _ _
                        (λ x. ap (λ c. done (x, c, over high es)) (omega arith)))
                  ∙ sym (bind_assoc (emit s p) (λ s'. emit_all emit s' (hits low high es)) _))
          | inr miss ↦ rw (keys_read, fits, below k fits, miss) (ih s count (omega arith))
        ]
      ]
    where
      not_below : (k : ℕ) → lt_int high k ≡ true → le_int k high ≡ false
      not_below k h = ground arith

      below : (k : ℕ) → lt_int high k ≡ false → le_int k high ≡ true
      below k h = ground arith

Ordered-left : (es fs : List Entry) (b : ℕ) → Ordered b (es ++ fs) → Ordered b es
Ordered-left [] fs b o = tt
Ordered-left ((k, p) ∷ es) fs b o = (o.0, Ordered-left es fs (rank k) o.1)

pub Ordered-right : (es fs : List Entry) (b : ℕ) → Ordered b (es ++ fs) → (c : ℕ) × Ordered c fs
Ordered-right [] fs b o = (b, o)
Ordered-right ((k, p) ∷ es) fs b o = Ordered-right es fs (rank k) o.1

-- Nothing is left to find behind a key above `high`.
over-hits :
    (low high : ℕ) (es fs : List Entry) (b : ℕ)
    → Ordered b (es ++ fs)
    → over high es ≡ true
    → hits low high (es ++ fs) ≡ hits low high es
unfolding over hits
over-hits low high [] fs b o h = cc
over-hits low high ((k, p) ∷ es) fs b o h = elim (Bool-cases (lt_int high k)) [
  | inl above ↦
      let l : rank high < rank k = ltb→lt _ _ above in
      rw (
        hits-above low high (rank k) (es ++ fs) l o.1,
        hits-above low high (rank k) es l (Ordered-left es fs (rank k) o.1),
      )
  | inr fits ↦ rw (over-hits low high es fs (rank k) o.1 (rw fits at h))
]

pub hits-append :
    (low high : ℕ) (es fs : List Entry)
    → hits low high (es ++ fs) ≡ hits low high es ++ hits low high fs
unfolding hits
hits-append low high [] fs = refl
hits-append low high ((k, p) ∷ es) fs = ground (arith, hits-append low high es fs)

-- The leaves follow one another by their `next` fields, and the first node can be read.
abbrev pub Links : TreeFile → Node → List Node → Type 0
Links f leaf [] = (leaf.next ≡ 0) × ((n : Node) × (load_node f 0 ≡ done n))
Links f leaf (m ∷ ms) = (leaf.next ≢ 0) × (load_node f leaf.next ≡ done m) × Links f m ms

-- Each leaf has its arrays, and no more entries than they hold.
abbrev pub Filled : List Node → Type 0
Filled [] = Unit
Filled (n ∷ ns) = (n.size ≤ length n.keys) × (n.size ≤ length n.pointers) × Filled ns

module _ {S : Type 0} (emit : S → ℕ → Run S) (low high : ℕ) (f : TreeFile) where
  -- What a scan that starts with `s` and `count` is to come to.
  abbrev pub emitted : S → ℕ → List Entry → Run (S × ℕ)
  emitted s count es =
      emit_all emit s (hits low high es) >>= λ s'. done (s', count + length (hits low high es))

  emitted-append :
      (s : S) (count : ℕ) (es fs : List Entry)
      → emitted s count (es ++ fs) ≡ (
          emit_all emit s (hits low high es) >>= λ s'.
          emitted s' (count + length (hits low high es)) fs)
  emitted-append s count es fs =
      rw (hits-append low high es fs, emit_all-append emit s (hits low high es) (hits low high fs))
        (bind_assoc (emit_all emit s (hits low high es)) _ _
          ∙ bind_ext (emit_all emit s (hits low high es)) _ _ (λ x.
            bind_ext (emit_all emit x (hits low high fs)) _ _ (λ y.
              ap (λ c. done (y, c))
                (omega (arith, length-append (hits low high es) (hits low high fs))))))

  -- The first leaf, up to what follows it.
  first_leaf :
      (fuel : ℕ) (leaf : Node) (rest : List Node) (s : S) (count b : ℕ)
      → Filled (leaf ∷ rest)
      → Ordered b (all_entries (leaf ∷ rest))
      → count + length (all_entries (leaf ∷ rest)) < word
      → ((x : S) (c : ℕ)
          → c + length (all_entries rest) < word
          → over high (entries leaf) ≡ false
          → (load_node f leaf.next >>= λ next_leaf.
              if leaf.next == 0
              then done (x, c)
              else scan_leaves emit low high fuel f next_leaf x c)
            ≡ emitted x c (all_entries rest))
      → scan_leaves emit low high (suc fuel) f leaf s count
        ≡ emitted s count (all_entries (leaf ∷ rest))
  unfolding scan_leaves all_entries entries
  first_leaf fuel leaf rest s count b fi o c follow =
      let size : length (entries leaf) ≡ leaf.size = length-entries_from leaf.size leaf 0 in
      let both : length (entries leaf ++ all_entries rest)
          ≡ length (entries leaf) + length (all_entries rest) =
        length-append (entries leaf) (all_entries rest) in
      rw
        (scan_leaf-scanned emit low high leaf.size leaf 0 s count b (omega arith) (omega arith)
          (omega arith) (Ordered-left (entries leaf) (all_entries rest) b o))
        (bind_assoc (emit_all emit s (hits low high (entries leaf))) _ _
          ∙ elim (Bool-cases (over high (entries leaf))) [
            | inl above ↦ rw (above, over-hits low high (entries leaf) (all_entries rest) b o above)
            | inr fits ↦ rw fits (
                bind_ext (emit_all emit s (hits low high (entries leaf))) _ _ (λ x.
                  follow x (count + length (hits low high (entries leaf)))
                    (omega (arith, length-hits low high (entries leaf))) fits)
                ∙ sym (emitted-append s count (entries leaf) (all_entries rest)))
          ])

  -- With fuel for each leaf, from a leaf with linked leaves behind it, each with its arrays, in
  -- ascending order of keys and with room in the 32-bit count, the scan emits the rows of exactly
  -- the entries in the range, in their order, and counts them.
  pub scan_leaves_lem :
      (fuel : ℕ) (leaf : Node) (rest : List Node) (s : S) (count b : ℕ)
      → length rest < fuel
      → Links f leaf rest
      → Filled (leaf ∷ rest)
      → Ordered b (all_entries (leaf ∷ rest))
      → count + length (all_entries (leaf ∷ rest)) < word
      → scan_leaves emit low high fuel f leaf s count ≡ emitted s count (all_entries (leaf ∷ rest))
  unfolding all_entries hits emit_all
  scan_leaves_lem zero leaf rest s count b fu ls fi o c = absurd (omega arith)
  scan_leaves_lem (suc fuel) leaf [] s count b fu ls fi o c =
      first_leaf fuel leaf [] s count b fi o c λ x k q fits.
        let z : (leaf.next == 0) ≡ true = (==_iff leaf.next 0).1 ls.0 in
        let (n, e) = ls.1 in
        let loaded : load_node f leaf.next ≡ done n = ap (load_node f) ls.0 ∙ e in
        rw (loaded, z) (ap (λ c. done (x, c)) (omega arith))
  scan_leaves_lem (suc fuel) leaf (m ∷ ms) s count b fu ls fi o c =
      first_leaf fuel leaf (m ∷ ms) s count b fi o c λ x k q fits.
        let z : (leaf.next == 0) ≡ false = ==_of_ne leaf.next 0 ls.0 in
        let (b', o') = behind o in
        rw (ls.1, z) (scan_leaves_lem fuel m ms x k b' (omega arith) ls.2 fi.2 o' q)
    where
      behind :
          Ordered b (all_entries (leaf ∷ m ∷ ms)) → (b' : ℕ) × Ordered b' (all_entries (m ∷ ms))
      behind o = Ordered-right (entries leaf) (all_entries (m ∷ ms)) b o
