-- ===== src/Session/Data.antt =====
-- The data that a load, tuple, insert or delete has announced (worker.c) leaves the locals of `db_worker`
-- sound.
use cs165db.Prelude.{
  ℕ, ◌+◌, ◌-◌, ◌/◌, ◌%◌, ◌*◌, ◌≡◌, refl, ◌∙◌, List, [], true, false, not, ◌==◌, ltb, leb, length,
  Bool-cases, inl, inr,
}
use cs165db.Run.{
  done, assert, write, ◌>>◌, WhenDone, WhenDone-bind, WhenDone-then, WhenDone-if, write-length,
}
use cs165db.Variables.{max_name_size}
use cs165db.Socket.{meta_size}
use cs165db.Session.{Machine, Locals, Scene, Session, Next, again, hang_up, bytes_ints, reply}
use cs165db.Store.{load_helper, get_pos_from_var}
use cs165db.Session.Pending.{
  tuple_data, insert_data, delete_data, load_data, finish_load, load_row, insert_pairs, delete_each,
  tuple_helper, buffer_head, after_tuple,
}
use cs165db.Text.{text_at}
use cs165db.Session.Invariant.{
  OnePending, nothing, loading, tuple, insert, delete, IsSound, Sound, sound, idle-IsSound,
}

-- A pending flag that is set is the only one.
loading_only :
    (l : Locals)
    → OnePending l
    → l.is_loading ≡ true
    → (l.is_tuple ≡ false) × (l.is_insert ≡ false) × (l.is_delete ≡ false)
loading_only l (nothing a b c d) e = absurd (cc (a, e))
loading_only l (loading a b c d) e = (b, c, d)
loading_only l (tuple a b c d) e = absurd (cc (a, e))
loading_only l (insert a b c d) e = absurd (cc (a, e))
loading_only l (delete a b c d) e = absurd (cc (a, e))

tuple_only :
    (l : Locals)
    → OnePending l
    → l.is_tuple ≡ true
    → (l.is_loading ≡ false) × (l.is_insert ≡ false) × (l.is_delete ≡ false)
tuple_only l (nothing a b c d) e = absurd (cc (b, e))
tuple_only l (loading a b c d) e = absurd (cc (b, e))
tuple_only l (tuple a b c d) e = (a, c, d)
tuple_only l (insert a b c d) e = absurd (cc (b, e))
tuple_only l (delete a b c d) e = absurd (cc (b, e))

insert_only :
    (l : Locals)
    → OnePending l
    → l.is_insert ≡ true
    → (l.is_loading ≡ false) × (l.is_tuple ≡ false) × (l.is_delete ≡ false)
insert_only l (nothing a b c d) e = absurd (cc (c, e))
insert_only l (loading a b c d) e = absurd (cc (c, e))
insert_only l (tuple a b c d) e = absurd (cc (c, e))
insert_only l (insert a b c d) e = (a, b, d)
insert_only l (delete a b c d) e = absurd (cc (c, e))

delete_only :
    (l : Locals)
    → OnePending l
    → l.is_delete ≡ true
    → (l.is_loading ≡ false) × (l.is_tuple ≡ false) × (l.is_insert ≡ false)
delete_only l (nothing a b c d) e = absurd (cc (d, e))
delete_only l (loading a b c d) e = absurd (cc (d, e))
delete_only l (tuple a b c d) e = absurd (cc (d, e))
delete_only l (insert a b c d) e = absurd (cc (d, e))
delete_only l (delete a b c d) e = (a, b, c)

module _ (m : Machine) (s : Session) (i : IsSound s.locals) where
  after_tuple-Sound :
      (next : Next) (scene : Scene) → s.locals.is_tuple ≡ true → Sound (after_tuple s next scene)
  unfolding after_tuple
  after_tuple-Sound again scene e =
      let (a, c, d) = tuple_only s.locals i.one e in
      let l : Locals = s.locals in
      idle-IsSound (record l { is_tuple = false }) (a, refl, c, d) i.header
  after_tuple-Sound hang_up scene e = i
  after_tuple-Sound Next.give_up scene e = i

  pub tuple_data-Sound : s.locals.is_tuple ≡ true → WhenDone (tuple_data m s) Sound
  unfolding tuple_data
  tuple_data-Sound e =
      let scene : Scene = s.scene in
      WhenDone-bind Sound (tuple_helper scene.db scene.vars s.data_buffer s.locals.v_count) _
        (λ vals.
          WhenDone-bind Sound (assert (not (length vals == 0)) >> reply m scene vals) _
            (λ (next, scene'). after_tuple-Sound next scene' e))

  pub insert_data-Sound : s.locals.is_insert ≡ true → WhenDone (insert_data m s) Sound
  unfolding insert_data
  insert_data-Sound e =
      let l : Locals = s.locals in
      let (a, b, d) = insert_only l i.one e in
      WhenDone-bind Sound
        (assert (l.v_count % 2 == 0)
          >> insert_pairs m.depth (l.v_count / 2) s.scene.db s.data_buffer 0)
        _ (λ db. idle-IsSound (record l { is_insert = false }) (a, b, refl, d) i.header)

  pub delete_data-Sound : s.locals.is_delete ≡ true → WhenDone (delete_data s) Sound
  unfolding delete_data
  delete_data-Sound e =
      let l : Locals = s.locals in
      let (a, b, c) = delete_only l i.one e in
      WhenDone-bind Sound (text_at s.data_buffer 0) _ (λ name.
        WhenDone-bind Sound (get_pos_from_var s.scene.vars name) _ (λ pos_val.
          WhenDone-bind Sound (delete_each (l.v_count - 1) s.scene.db s.data_buffer pos_val 1) _
            (λ db. idle-IsSound (record l { is_delete = false }) (a, b, c, refl) i.header)))

  -- The end of a load, from locals that are still those of the load.
  finish_load-Sound :
      (l : Locals)
      → (l.is_tuple ≡ false) × (l.is_insert ≡ false) × (l.is_delete ≡ false)
      → (l.is_waiting_for_meta ≡ true → l.size_expected ≡ meta_size)
      → WhenDone (finish_load m s l) Sound
  unfolding finish_load
  finish_load-Sound l (b, c, d) header =
      WhenDone-bind Sound
        (load_helper m.fuel m.test m.junk s.scene.db l.load_col_names l.ints_buffer l.col_size) _
        (λ db.
          idle-IsSound
            (record l { is_loading = false; cur_row = 0; load_col_names = []; ints_buffer = [] })
            (refl, b, c, d) header)

  load_row-Sound : s.locals.is_loading ≡ true → WhenDone (load_row m s) Sound
  unfolding load_row
  load_row-Sound e =
      let l : Locals = s.locals in
      let (b, c, d) = loading_only l i.one e in
      let next_row : ℕ = l.cur_row + 1 in
      WhenDone-bind Sound (buffer_head s.data_buffer (l.col_size * 4)) _ (λ bytes.
        (let row : List ℕ = bytes_ints l.col_size bytes in
          WhenDone-then (λ rows. length rows ≡ length l.ints_buffer) Sound
            (write l.ints_buffer (l.cur_row - 1) row) _
            (write-length l.ints_buffer (l.cur_row - 1) row)
            (λ rows k.
              (let stored : Locals = record l { ints_buffer = rows; cur_row = next_row } in
                WhenDone-if Sound (leb next_row l.row_size)
                  (done (again, record s { locals = stored })) (finish_load m s stored)
                  (λ t. sound stored (loading e b c d) (λ x. k ∙ i.rows e) i.header)
                  (λ t. finish_load-Sound stored (b, c, d) i.header)))))

  pub load_data-Sound : s.locals.is_loading ≡ true → WhenDone (load_data m s) Sound
  unfolding load_data
  load_data-Sound e =
      let l : Locals = s.locals in
      let (b, c, d) = loading_only l i.one e in
      WhenDone-bind Sound (assert (ltb 0 l.col_size) >> assert (ltb 0 l.row_size)) _ (λ u.
        elim (Bool-cases (l.cur_row == 0)) [
          | inl t ↦ rw t (
              WhenDone-bind Sound (buffer_head s.data_buffer (l.col_size * max_name_size)) _
                (λ bytes.
                  sound (record l { load_col_names = bytes; cur_row = 1 }) (loading e b c d) i.rows
                    i.header))
          | inr t ↦ rw t (
              WhenDone-if Sound (leb l.cur_row l.row_size) (load_row m s) (finish_load m s l)
                (λ t. load_row-Sound e) (λ t. finish_load-Sound l (b, c, d) i.header))
        ])
