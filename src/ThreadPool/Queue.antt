-- ===== src/ThreadPool/Queue.antt =====
-- The pool's circular array is a first-in first-out queue of at most 100 sockets.
use cs165db.Prelude.{
  ℕ, zero, suc, ◌+◌, ◌-◌, ◌%◌, ◌≤◌, ◌<◌, ◌≡◌, refl, ap, ap₂, ◌∙◌, List, [], ◌∷◌, ◌++◌, length,
  get_or, set, arith, length-set, get_or-set_self, get_or-set_ne, none, some, ==_of_ne,
}
use cs165db.Word.{add32, sub32}
use cs165db.Run.{done, Returns, read_lem, write_lem, ◌>>=◌}
use cs165db.ThreadPool.{ThreadPool, max_queue_size, add_new_socket, get_socket, worker_takes}

-- The `n` sockets from index `h` on, going round at the end of the array.
abbrev pub window : List ℕ → ℕ → ℕ → List ℕ
window sockets h zero = []
window sockets h (suc n) = get_or sockets h 0 ∷ window sockets ((h + 1) % max_queue_size) n

abbrev pub waiting : ThreadPool → List ℕ
waiting pool = window pool.sockets pool.q_head pool.q_waiting

pub record IsValid (pool : ThreadPool) : Type 0 where
  pub storage : length pool.sockets ≡ max_queue_size
  pub head_in : pool.q_head < max_queue_size
  pub waiting_in : pool.q_waiting ≤ max_queue_size

window_of_pos :
    (s : List ℕ) (h n : ℕ)
    → 0 < n
    → window s h n ≡ get_or s h 0 ∷ window s ((h + 1) % max_queue_size) (n - 1)
window_of_pos s h zero p = absurd (omega arith)
window_of_pos s h (suc n) p = ap (λ k. window s h (suc k)) (omega arith)

pub length-window : (s : List ℕ) (h n : ℕ) → length (window s h n) ≡ n
length-window s h zero = refl
length-window s h (suc n) = ap suc (length-window s ((h + 1) % max_queue_size) n)

-- A write just behind a window extends it.
window-set :
    (s : List ℕ) (x n h i : ℕ)
    → length s ≡ max_queue_size
    → h < max_queue_size
    → n < max_queue_size
    → i ≡ (h + n) % max_queue_size
    → window (set s i x) h (suc n) ≡ window s h n ++ (x ∷ [])
window-set s x zero h i len p q e =
    let same : i ≡ h = omega arith in
    ap (λ v. v ∷ []) (rw same (get_or-set_self s h x 0 (omega arith)))
window-set s x (suc n) h i len p q e =
    ap₂ ◌∷◌ (get_or-set_ne s i h x 0 (λ w. omega arith))
      (window-set s x n ((h + 1) % max_queue_size) i len (omega arith) (omega arith) (omega arith))

-- What `add_new_socket` leaves of a pool that is not full.
pub record Added (pool : ThreadPool) (socket : ℕ) (after : ThreadPool) : Type 0 where
  pub valid : IsValid after
  pub queue : waiting after ≡ waiting pool ++ (socket ∷ [])

-- On a valid pool with fewer than 100 sockets waiting, add_new_socket keeps the pool valid and
-- puts its socket at the end of the queue.
pub add_new_socket-Added :
    (pool : ThreadPool) (socket : ℕ)
    → IsValid pool
    → pool.q_waiting < max_queue_size
    → Returns (add_new_socket pool socket) (Added pool socket)
unfolding add_new_socket
add_new_socket-Added pool socket v room =
    let pos : ℕ = (pool.q_head + pool.q_waiting) % max_queue_size in
    let next : add32 pool.q_waiting 1 ≡ suc pool.q_waiting = omega arith in
    rw (Returns, write_lem pool.sockets pos socket (omega (arith, v.storage)))
      (record {
        valid = record {
          storage = length-set pool.sockets pos socket ∙ v.storage;
          head_in = v.head_in;
          waiting_in = omega arith;
        };
        queue = rw next (
            window-set pool.sockets socket pool.q_waiting pool.q_head pos v.storage v.head_in room
              refl);
      })

-- On a valid pool with 100 sockets waiting, add_new_socket overwrites the oldest one, and the
-- count becomes 101.
pub add_new_socket-overwrites :
    (pool : ThreadPool) (socket : ℕ)
    → IsValid pool
    → pool.q_waiting ≡ max_queue_size
    → Returns (add_new_socket pool socket) (λ after.
      (get_or after.sockets pool.q_head 0 ≡ socket) × (after.q_waiting ≡ max_queue_size + 1))
unfolding add_new_socket
add_new_socket-overwrites pool socket v full =
    let pos : ℕ = (pool.q_head + pool.q_waiting) % max_queue_size in
    let e : pos ≡ pool.q_head = omega (arith, v.head_in) in
    rw (Returns, write_lem pool.sockets pos socket (omega (arith, v.storage)), e)
      (
        get_or-set_self pool.sockets pool.q_head socket 0 (omega (arith, v.storage, v.head_in)),
        omega arith,
      )

-- What `get_socket` returns and leaves.
abbrev pub Taken : ThreadPool → ℕ × ThreadPool → Type 0
Taken pool r =
    IsValid r.1 × (waiting pool ≡ r.0 ∷ waiting r.1) × (r.1.q_waiting + 1 ≡ pool.q_waiting)

-- On a valid pool with a socket waiting, get_socket keeps the pool valid, returns the oldest
-- socket and takes it off the queue.
pub get_socket-Taken :
    (pool : ThreadPool) → IsValid pool → 0 < pool.q_waiting → Returns (get_socket pool) (Taken pool)
unfolding get_socket
get_socket-Taken pool v some_waiting =
    let fewer : sub32 pool.q_waiting 1 ≡ pool.q_waiting - 1 = omega (arith, v.waiting_in) in
    let next : add32 pool.q_head 1 % max_queue_size ≡ (pool.q_head + 1) % max_queue_size =
      omega (arith, v.head_in) in
    rw
      (
        Returns,
        read_lem pool.sockets pool.q_head 0 (omega (arith, v.storage, v.head_in)),
        fewer,
        next,
      )
      (
        record {
          storage = v.storage;
          head_in = omega arith;
          waiting_in = omega (arith, v.waiting_in);
        },
        window_of_pos pool.sockets pool.q_head pool.q_waiting some_waiting,
        omega arith,
      )

-- A worker that finds nothing waits and changes nothing.
pub worker_takes-empty :
    (pool : ThreadPool) → pool.q_waiting ≡ 0 → worker_takes pool ≡ done (none, pool)
unfolding worker_takes
worker_takes-empty pool e = rw e

pub worker_takes-some :
    (pool : ThreadPool)
    → 0 < pool.q_waiting
    → worker_takes pool ≡ (get_socket pool >>= λ (socket, after). done (some socket, after))
unfolding worker_takes
worker_takes-some pool h = rw (==_of_ne pool.q_waiting 0 (λ e. omega arith))
