-- ===== src/Session/Words.antt =====
-- The texts that `db_worker` (worker.c) compares a message and its command with, and the one that it
-- answers with where the syntax is not known.
use cs165db.Prelude.{[], ◌∷◌}
use cs165db.Text.{Text}

abbrev pub the_create : Text
the_create = 99 ∷ 114 ∷ 101 ∷ 97 ∷ 116 ∷ 101 ∷ []

abbrev pub the_select : Text
the_select = 115 ∷ 101 ∷ 108 ∷ 101 ∷ 99 ∷ 116 ∷ []

abbrev pub the_fetch : Text
the_fetch = 102 ∷ 101 ∷ 116 ∷ 99 ∷ 104 ∷ []

abbrev pub the_load : Text
the_load = 108 ∷ 111 ∷ 97 ∷ 100 ∷ []

abbrev pub the_tuple : Text
the_tuple = 116 ∷ 117 ∷ 112 ∷ 108 ∷ 101 ∷ []

abbrev pub the_insert : Text
the_insert = 105 ∷ 110 ∷ 115 ∷ 101 ∷ 114 ∷ 116 ∷ []

abbrev pub the_update : Text
the_update = 117 ∷ 112 ∷ 100 ∷ 97 ∷ 116 ∷ 101 ∷ []

abbrev pub the_delete : Text
the_delete = 100 ∷ 101 ∷ 108 ∷ 101 ∷ 116 ∷ 101 ∷ []

abbrev pub the_add : Text
the_add = 97 ∷ 100 ∷ 100 ∷ []

abbrev pub the_sub : Text
the_sub = 115 ∷ 117 ∷ 98 ∷ []

abbrev pub the_div : Text
the_div = 100 ∷ 105 ∷ 118 ∷ []

abbrev pub the_mul : Text
the_mul = 109 ∷ 117 ∷ 108 ∷ []

abbrev pub the_count : Text
the_count = 99 ∷ 111 ∷ 117 ∷ 110 ∷ 116 ∷ []

abbrev pub the_min : Text
the_min = 109 ∷ 105 ∷ 110 ∷ []

abbrev pub the_max : Text
the_max = 109 ∷ 97 ∷ 120 ∷ []

abbrev pub the_sum : Text
the_sum = 115 ∷ 117 ∷ 109 ∷ []

abbrev pub the_avg : Text
the_avg = 97 ∷ 118 ∷ 103 ∷ []

abbrev pub the_join : Text
the_join = 106 ∷ 111 ∷ 105 ∷ 110 ∷ []

abbrev pub the_exit : Text
the_exit = 101 ∷ 120 ∷ 105 ∷ 116 ∷ []

abbrev pub syntax_msg : Text
syntax_msg =
    112 ∷ 108 ∷ 101 ∷ 97 ∷ 115 ∷ 101 ∷ 32 ∷ 101 ∷ 110 ∷ 116 ∷ 101 ∷ 114 ∷ 32 ∷ 116 ∷ 104 ∷ 101 ∷ 32
    ∷ 99 ∷ 111 ∷ 114 ∷ 114 ∷ 101 ∷ 99 ∷ 116 ∷ 32 ∷ 115 ∷ 121 ∷ 110 ∷ 116 ∷ 97 ∷ 120 ∷ 33 ∷ 10 ∷ []
