-- ===== src/Parser.antt =====
-- `match_regex` (parser.c): what the regular expression of a command matched is copied into the
-- arguments of the session. `regexec` belongs to the C library: it comes in as a function that gives,
-- for each group of the expression, the places where it matched, or nothing where there is no match.
use cs165db.Prelude.{
  ℕ, zero, suc, ◌-◌, List, [], ◌∷◌, Option, none, some, take, drop, length, Bool, true, false, ltb,
  if◌then◌else◌,
}
use cs165db.Run.{Run, done, fault, write, ◌>>=◌}
use cs165db.Text.{Text}

-- `MAX_ARG_NUM` and `MAX_INPUT_BYTES`
abbrev pub max_arg_num : ℕ
max_arg_num = 7

abbrev pub max_input_bytes : ℕ
max_input_bytes = 32

-- `regmatch_t`, where `rm_so` of -1 is `none`.
abbrev pub Span : Type 0
Span = Option (ℕ × ℕ)

abbrev pub Regex : Type 0
Regex = Text → Option (List Span)

-- An argument that is not set is `none`. The arguments from `j` on are emptied; `j` is the index of the group behind them, plus one.
unfoldable pub clear_args : ℕ → ℕ → List (Option Text) → Run (List (Option Text))
clear_args zero j args = done args
clear_args (suc n) zero args = fault
clear_args (suc n) (suc j) args =
    write args j (some []) >>= λ args'. clear_args n (suc (suc j)) args'

-- The argument of group `i`: the stretch that matched, which must leave room for the NUL.
unfoldable pub copy_arg : Text → ℕ → ℕ × ℕ → List (Option Text) → Run (List (Option Text))
copy_arg to_match zero span args = done args
copy_arg to_match (suc j) (start, finish) args =
    if ltb start finish
    then (if ltb (finish - start) max_input_bytes
        then write args j (some (take (finish - start) (drop start to_match)))
        else fault)
    else write args j (some [])

-- The loop over the groups from `i` on. A group that did not match ends it, and all the arguments
-- from there on are emptied.
unfoldable pub match_groups : Text → List Span → ℕ → List (Option Text) → Run (List (Option Text))
match_groups to_match [] i args = done args
match_groups to_match (none ∷ rest) i args = clear_args (suc (length rest)) i args
match_groups to_match (some span ∷ rest) i args =
    copy_arg to_match i span args >>= λ args'. match_groups to_match rest (suc i) args'

-- `match_regex`: whether there was no match, and the arguments.
unfoldable pub match_regex : Regex → Text → List (Option Text) → Run (Bool × List (Option Text))
match_regex regexec to_match args = elim (regexec to_match) [
  | none ↦ done (true, args)
  | some spans ↦
      match_groups to_match (take max_arg_num spans) 0 args >>= λ args'. done (false, args')
]
