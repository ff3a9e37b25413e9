-- ===== src/Client/Tuples.antt =====
-- A tuple from the variables of a session (tuple_helper, worker.c) to what the client (client.c) prints.
use cs165db.Prelude.{
  ℕ, ◌+◌, ◌*◌, ◌≡◌, ◌≤◌, ◌<◌, refl, sym, ap, ◌∙◌, List, [], ◌∷◌, ◌++◌, length, take, get_or, true,
  false, arith, length-append, ◌==◌, ==-self, ==_of_ne, leb, ltb, some,
}
use cs165db.Word.{word, half}
use cs165db.Run.{done, Returns, Returns-done}
use cs165db.Text.{Text, text_at}
use cs165db.Socket.{MovesBytes, meta_size}
use cs165db.Socket.Send.{take_all}
use cs165db.Variables.{Variable, Variables, Pointer, max_name_size, found_variable}
use cs165db.Store.{Db}
use cs165db.Session.{Machine, Scene, Session, Next, again, reply}
use cs165db.Session.Pending.{tuple_vals, tuple_helper, after_tuple, tuple_data}
use cs165db.Client.Rows.{concat, EachLong, rows_of}
use cs165db.Client.Loop.{receive_tuple}
use cs165db.Client.Answers.{receive_tuple-reply, reply-wrote}

-- The name at place `i` of the buffer is that of a variable with the values `c`.
pub record HoldsValues (vars : Variables) (data_buffer : List ℕ) (i : ℕ) (c : List ℕ) : Type 0 where
  pub name : Text
  pub variable : Variable
  pub pointer : Pointer
  pub named : text_at data_buffer (i * max_name_size) ≡ done name
  pub found : found_variable vars name ≡ done (pointer, variable)
  pub materialized : variable.is_materialized ≡ true
  pub sized : variable.val_size ≡ length c
  pub held : variable.val ≡ some c

-- The names from place `i` on are those of variables with these values.
abbrev pub AllHold : Variables → List ℕ → ℕ → List (List ℕ) → Type 0
AllHold vars data_buffer i [] = Unit
AllHold vars data_buffer i (c ∷ cs) =
    HoldsValues vars data_buffer i c × AllHold vars data_buffer (i + 1) cs

tuple_vals_lem :
    (vars : Variables) (data_buffer : List ℕ) (n i : ℕ) (cols : List (List ℕ))
    → AllHold vars data_buffer i cols
    → EachLong n cols
    → tuple_vals (length cols) vars data_buffer n i ≡ done (concat cols)
unfolding tuple_vals
tuple_vals_lem vars data_buffer n i [] h e = refl
tuple_vals_lem vars data_buffer n i (c ∷ cs) h e =
    let size : h.0.variable.val_size ≡ n = h.0.sized ∙ e.0 in
    let fits : leb n (length c) ≡ true = ground (arith, e.0) in
    let all : take n c ≡ c = ap (λ k. take k c) (sym e.0) ∙ take_all c in
    rw
      (
        h.0.named,
        h.0.found,
        size,
        ==-self n,
        h.0.held,
        fits,
        all,
        tuple_vals_lem vars data_buffer n (i + 1) cs h.1 e.1,
      )
      refl

tuple_helper_lem :
    (db : Db) (vars : Variables) (data_buffer : List ℕ) (n : ℕ) (c : List ℕ) (cs : List (List ℕ))
    → AllHold vars data_buffer 0 (c ∷ cs)
    → EachLong n (c ∷ cs)
    → 0 < n
    → tuple_helper db vars data_buffer (length (c ∷ cs)) ≡ done (concat (c ∷ cs))
unfolding tuple_helper
tuple_helper_lem db vars data_buffer n c cs h e some_rows =
    let size : h.0.variable.val_size ≡ n = h.0.sized ∙ e.0 in
    let several : ltb 0 n ≡ true = ground arith in
    rw (h.0.named, h.0.found, h.0.materialized, size, several)
      (tuple_vals_lem vars data_buffer n 0 (c ∷ cs) h e)

module _ (recv : ℕ → ℕ → ℕ) (moves : MovesBytes recv) where
  -- Where the names that a tuple has announced, at least one, are in the buffer, and are those of
  -- variables that hold values, each as many and at least one, the worker answers over a kernel
  -- that moves bytes, its loop goes on with the tuple over, and the client that receives the
  -- answer prints a row for each place, with the value of each variable there in the order of the
  -- names.
  pub tuple_data-printed :
      (m : Machine) (s : Session) (n : ℕ) (c : List ℕ) (cs : List (List ℕ)) (buffer later : List ℕ)
      → MovesBytes m.send
      → s.scene.socket.outgoing ≡ []
      → s.locals.v_count ≡ length (c ∷ cs)
      → AllHold s.scene.vars s.data_buffer 0 (c ∷ cs)
      → EachLong n (c ∷ cs)
      → 0 < n
      → ((i : ℕ) → i < length (concat (c ∷ cs)) → get_or (concat (c ∷ cs)) i 0 < word)
      → length (concat (c ∷ cs)) * 4 < half
      → meta_size ≤ length buffer
      → (t : Session) × (tuple_data m s ≡ done (again, t))
        × (t.locals.is_tuple ≡ false)
        × Returns
            (receive_tuple recv
              (record {
                data_buffer = buffer;
                socket = record {
                  incoming = t.scene.socket.outgoing ++ later;
                  outgoing = [];
                  calls = 0;
                };
              })
              (length (c ∷ cs)))
            (λ a.
              (a.going ≡ true)
              × (a.printed ≡ rows_of n (c ∷ cs) 0)
              × (a.client.socket.incoming ≡ later))
  unfolding tuple_data after_tuple
  tuple_data-printed m s n c cs buffer later sends fresh count h e some_rows words small room =
      let scene : Scene = s.scene in
      let vals : List ℕ = concat (c ∷ cs) in
      let helped : tuple_helper scene.db scene.vars s.data_buffer (length (c ∷ cs)) ≡ done vals =
        tuple_helper_lem scene.db scene.vars s.data_buffer n c cs h e some_rows in
      let not_empty : (length vals == 0) ≡ false =
        ==_of_ne (length vals) 0 (λ z. absurd (omega (arith, e.0, length-append c (concat cs)))) in
      let ((next, scene'), run, (go, wrote)) =
        Returns-done _ (reply m scene vals) (reply-wrote m scene vals sends fresh small) in
      let replied : reply m scene vals ≡ done (again, scene') =
        run ∙ ap (λ k. done (k, scene')) go in
      let t : (Next × Session) = after_tuple s again scene' in
      (
        t.1,
        rw (count, helped, not_empty, replied) refl,
        refl,
        (receive_tuple-reply recv moves m scene scene' again (c ∷ cs) n
            (record {
              data_buffer = buffer;
              socket = record {
                incoming = scene'.socket.outgoing ++ later;
                outgoing = [];
                calls = 0;
              };
            })
            later sends fresh (omega arith) e words small replied refl room).1,
      )
