-- ===== src/Values/Math.antt =====
-- `math_op_on_var` (helper_math_command.c) applies its operation value by value.
use cs165db.Prelude.{
  ℕ, zero, suc, ◌+◌, ◌≤◌, ◌<◌, ◌≡◌, refl, sym, ◌∙◌, subst, List, length, get_or, set, replicate,
  arith, length-set, length-replicate, get_or-set_self, get_or-set_ne,
}
use native.Mathlib.Decide.{ℕ_discrete}
use cs165db.Run.{Run, done, Returns, Returns-map, read_lem, write_lem}
use cs165db.Values.{math_op_loop, math_op_on_var}

module _ (op : ℕ → ℕ → Run ℕ) (g : ℕ → ℕ → ℕ) (m1 m2 : List ℕ) where
  -- What the loop leaves of `val` when it goes on from `i` to `last`.
  record Filled (i last : ℕ) (val out : List ℕ) : Type 0 where
    long : length out ≡ length val
    kept : (k : ℕ) → k < i → get_or out k 0 ≡ get_or val k 0
    new : (k : ℕ) → i ≤ k → k < last → get_or out k 0 ≡ g (get_or m1 k 0) (get_or m2 k 0)

  math_op_loop-Filled :
      (n i last : ℕ) (val : List ℕ)
      → ((k : ℕ)
          → k < last
          → op (get_or m1 k 0) (get_or m2 k 0) ≡ done (g (get_or m1 k 0) (get_or m2 k 0)))
      → i + n ≡ last
      → last ≤ length m1
      → last ≤ length m2
      → last ≤ length val
      → Returns (math_op_loop op n m1 m2 i val) (Filled i last val)
  unfolding math_op_loop
  math_op_loop-Filled zero i last val ops e h1 h2 h = record {
    long = refl;
    kept = λ k p. refl;
    new = λ k p q. absurd (omega arith);
  }
  math_op_loop-Filled (suc n) i last val ops e h1 h2 h =
      let v : ℕ = g (get_or m1 i 0) (get_or m2 i 0) in
      let op_done : op (get_or m1 i 0) (get_or m2 i 0) ≡ done v = ops i (omega arith) in
      rw
        (
          Returns,
          read_lem m1 i 0 (omega arith),
          read_lem m2 i 0 (omega arith),
          op_done,
          write_lem val i v (omega arith),
        )
        (Returns-map (Filled (i + 1) last (set val i v)) (Filled i last val)
          (math_op_loop op n m1 m2 (i + 1) (set val i v))
          (math_op_loop-Filled n (i + 1) last (set val i v) ops (omega arith) h1 h2
            (omega (arith, length-set val i v)))
          λ out f. record {
            long = f.long ∙ length-set val i v;
            kept = λ k p. f.kept k (omega arith) ∙ get_or-set_ne val i k v 0 (λ z. omega arith);
            new = λ k p q. elim (ℕ_discrete k i) [
              | no other ↦ f.new k (omega arith) q
              | yes same ↦
                  subst (λ t. get_or out t 0 ≡ g (get_or m1 t 0) (get_or m2 t 0)) (sym same)
                    (f.kept i (omega arith) ∙ get_or-set_self val i v 0 (omega arith))
            ];
          })

  -- For an operation that is defined on each pair of values of two long enough arrays,
  -- math_op_on_var ends with its results in the order of the pairs.
  pub math_op_on_var-cells :
      (n : ℕ)
      → ((k : ℕ)
          → k < n
          → op (get_or m1 k 0) (get_or m2 k 0) ≡ done (g (get_or m1 k 0) (get_or m2 k 0)))
      → n ≤ length m1
      → n ≤ length m2
      → Returns (math_op_on_var op n m1 m2) (λ val.
        (length val ≡ n) × ((k : ℕ) → k < n → get_or val k 0 ≡ g (get_or m1 k 0) (get_or m2 k 0)))
  unfolding math_op_on_var
  math_op_on_var-cells n ops h1 h2 =
      Returns-map (Filled 0 n (replicate n 0)) _ (math_op_loop op n m1 m2 0 (replicate n 0))
        (math_op_loop-Filled n 0 n (replicate n 0) ops (omega arith) h1 h2
          (omega (arith, length-replicate {A = ℕ} n 0)))
        λ val f. (f.long ∙ length-replicate n 0, λ k p. f.new k (omega arith) p)
