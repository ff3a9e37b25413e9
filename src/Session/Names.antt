-- ===== src/Session/Names.antt =====
-- The two names of the result of a join (worker.c), from the text before the `=`.
use cs165db.Prelude.{
  ℕ, suc, ◌+◌, ◌≡◌, ◌≤◌, ◌<◌, refl, ap, ◌∙◌, [], ◌∷◌, ◌++◌, some, true, false, length, take, drop,
  arith, leb, ◌==◌, if◌then◌else◌, lt→ltb, append-nil,
}
use cs165db.Run.{done, fault}
use cs165db.Text.{Text}
use cs165db.Socket.Receive.{take-append, drop-append}
use cs165db.Variables.{max_name_size}
use cs165db.Session.JoinCommand.{comma_at, split_names}

-- No character of the name is a comma.
abbrev pub HasNoComma : Text → Type 0
HasNoComma [] = Unit
HasNoComma (c ∷ cs) = ((c == 44) ≡ false) × HasNoComma cs

comma_at-append :
    (a b : Text) (i j : ℕ) → HasNoComma a → j ≡ i + length a → comma_at (a ++ (44 ∷ b)) i ≡ some j
unfolding comma_at
comma_at-append [] b i j h e = let z : i ≡ j = omega arith in ap some z
comma_at-append (c ∷ a) b i j h e = rw h.0 (comma_at-append a b (suc i) j h.1 (omega arith))

-- Of two names with a comma between them, the first shorter than 16 characters and without a
-- comma, the second not longer than 16, a join takes the first as it is and the second cut to the
-- length of the first; where the second is shorter than the first, the join reads characters that
-- were never set.
pub split_names_lem :
    (a b : Text)
    → HasNoComma a
    → length a < max_name_size
    → length b ≤ max_name_size
    → split_names (a ++ (44 ∷ b))
      ≡ (if leb (length a) (length b) then done (a, take (length a) b) else fault)
unfolding split_names
split_names_lem a b h short fits =
    let first : take (length a) (a ++ (44 ∷ b)) ≡ a =
      take-append a (44 ∷ b) (length a) 0 (omega arith) ∙ append-nil a in
    let second : drop (suc (length a)) (a ++ (44 ∷ b)) ≡ b =
      drop-append a (44 ∷ b) (suc (length a)) 1 (omega arith) in
    let room : leb (length b) max_name_size ≡ true = ground arith in
    rw
      (
        split_names,
        comma_at-append a b 0 (length a) h (omega arith),
        first,
        second,
        lt→ltb (length a) max_name_size short,
        room,
      )
      refl
