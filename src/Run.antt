-- ===== src/Run.antt =====
-- What a stretch of the C program can come to. A read or write outside an object, a shift by the
-- width of the type and the like are `fault`; a failed `assert` and a call of `exit` are `abort`;
-- `spin` means that the fuel of a loop ran out.
use cs165db.Prelude.{ℕ, ◌<◌, ◌≡◌, refl, subst, Option, none, some, List, [], ◌∷◌, Bool, true, false}
use cs165db.Prelude.{get_elem?, get_or, set, length, ltb, if◌then◌else◌}
use cs165db.Prelude.{get_elem?-eq-get_or, length-set, lt→ltb, ap}

pub data Run {ℓ} (A : Type ℓ) : Type ℓ where
  done : A → Run A
  fault : Run A
  abort : Run A
  spin : Run A

infixl 5 ◌>>=◌ ◌>>◌
abbrev pub ◌>>=◌ {ℓ κ} : {A : Type ℓ} {B : Type κ} → Run A → (A → Run B) → Run B
done a >>= f = f a
fault >>= f = fault
abort >>= f = abort
spin >>= f = spin

abbrev pub ◌>>◌ {ℓ} : {B : Type ℓ} → Run (Unit {0}) → Run B → Run B
m >> k = m >>= λ _. k

-- The run ends, with a result that satisfies `P`.
abbrev pub Returns {ℓ} : {A : Type ℓ} → Run A → (A → Type 0) → Type 0
Returns (done a) P = P a
Returns fault P = ⊥
Returns abort P = ⊥
Returns spin P = ⊥

-- `assert(b)`
abbrev pub assert : Bool → Run (Unit {0})
assert true = done tt
assert false = abort

-- A pointer that is followed without a test.
abbrev pub required {ℓ} : {A : Type ℓ} → Option A → Run A
required o = elim o [ none ↦ fault | some a ↦ done a ]

-- `a[i]` as a value, and `a[i] = v`.
module _ {ℓ} {A : Type ℓ} where
  abbrev pub read : List A → ℕ → Run A
  read a i = elim (get_elem? a i) [ none ↦ fault | some v ↦ done v ]

  abbrev pub write : List A → ℕ → A → Run (List A)
  write a i v = if ltb i (length a) then done (set a i v) else fault

  pub read_lem : (a : List A) (i : ℕ) (d : A) → i < length a → read a i ≡ done (get_or a i d)
  read_lem a i d h =
      ap (λ o. elim o [ none ↦ fault | some v ↦ done v ]) (get_elem?-eq-get_or a i d h)

  pub write_lem : (a : List A) (i : ℕ) (v : A) → i < length a → write a i v ≡ done (set a i v)
  write_lem a i v h = ap (λ b. if b then done (set a i v) else fault) (lt→ltb _ _ h)

-- What follows a run that returns.
pub Returns-bind {ℓ ℓ'} :
    {A : Type ℓ} {B : Type ℓ'} (P : A → Type 0) (Q : B → Type 0) (m : Run A) (f : A → Run B)
    → Returns m P
    → ((a : A) → P a → Returns (f a) Q)
    → Returns (m >>= f) Q
Returns-bind P Q (done a) f h k = k a h
Returns-bind P Q fault f h k = absurd h
Returns-bind P Q abort f h k = absurd h
Returns-bind P Q spin f h k = absurd h

pub Returns-map {ℓ} :
    {A : Type ℓ} (P Q : A → Type 0) (m : Run A) → Returns m P → ((a : A) → P a → Q a) → Returns m Q
Returns-map P Q (done a) h k = k a h
Returns-map P Q fault h k = h
Returns-map P Q abort h k = h
Returns-map P Q spin h k = h

pub Returns-done {ℓ} :
    {A : Type ℓ} (P : A → Type 0) (m : Run A) → Returns m P → (a : A) × (m ≡ done a) × P a
Returns-done P (done a) h = (a, refl, h)
Returns-done P fault h = absurd h
Returns-done P abort h = absurd h
Returns-done P spin h = absurd h

pub Returns-at {ℓ} :
    {A : Type ℓ} (P : A → Type 0) (m : Run A) (a : A) → Returns m P → m ≡ done a → P a
Returns-at P m a h e = subst (λ r. Returns r P) e h

-- Inversion of a run of two steps that returns.
pub >>=-eq-done {ℓ κ} :
    {A : Type ℓ} {B : Type κ} (m : Run A) (f : A → Run B) {b : B}
    → (m >>= f) ≡ done b
    → (a : A) × (m ≡ done a) × (f a ≡ done b)
>>=-eq-done (done a) f h = (a, refl, h)
>>=-eq-done fault f h = cc
>>=-eq-done abort f h = cc
>>=-eq-done spin f h = cc

pub bind_assoc {ℓ κ μ} :
    {A : Type ℓ} {B : Type κ} {C : Type μ} (m : Run A) (f : A → Run B) (g : B → Run C)
    → ((m >>= f) >>= g) ≡ (m >>= λ a. f a >>= g)
bind_assoc (done a) f g = refl
bind_assoc fault f g = refl
bind_assoc abort f g = refl
bind_assoc spin f g = refl

-- Two continuations that agree on every result.
pub bind_ext {ℓ κ} :
    {A : Type ℓ} {B : Type κ} (m : Run A) (f g : A → Run B)
    → ((a : A) → f a ≡ g a)
    → (m >>= f) ≡ (m >>= g)
bind_ext (done a) f g h = h a
bind_ext fault f g h = refl
bind_ext abort f g h = refl
bind_ext spin f g h = refl

-- Where the run ends, its result satisfies `P`. It may also not end.
abbrev pub WhenDone {ℓ} : {A : Type ℓ} → Run A → (A → Type 0) → Type 0
WhenDone (done a) P = P a
WhenDone fault P = Unit
WhenDone abort P = Unit
WhenDone spin P = Unit

pub WhenDone-bind {ℓ κ} :
    {A : Type ℓ} {B : Type κ} (Q : B → Type 0) (m : Run A) (f : A → Run B)
    → ((a : A) → WhenDone (f a) Q)
    → WhenDone (m >>= f) Q
WhenDone-bind Q (done a) f h = h a
WhenDone-bind Q fault f h = tt
WhenDone-bind Q abort f h = tt
WhenDone-bind Q spin f h = tt

pub WhenDone-then {ℓ κ} :
    {A : Type ℓ} {B : Type κ} (P : A → Type 0) (Q : B → Type 0) (m : Run A) (f : A → Run B)
    → WhenDone m P
    → ((a : A) → P a → WhenDone (f a) Q)
    → WhenDone (m >>= f) Q
WhenDone-then P Q (done a) f h k = k a h
WhenDone-then P Q fault f h k = tt
WhenDone-then P Q abort f h k = tt
WhenDone-then P Q spin f h k = tt

pub WhenDone-if {ℓ} :
    {A : Type ℓ} (P : A → Type 0) (b : Bool) (x y : Run A)
    → (b ≡ true → WhenDone x P)
    → (b ≡ false → WhenDone y P)
    → WhenDone (if b then x else y) P
WhenDone-if P true x y h k = h refl
WhenDone-if P false x y h k = k refl

pub WhenDone-at {ℓ} :
    {A : Type ℓ} (P : A → Type 0) (m : Run A) (a : A) → WhenDone m P → m ≡ done a → P a
WhenDone-at P m a h e = subst (λ r. WhenDone r P) e h

-- A chain of `else if`: the first branch whose test holds, and else the last one.
abbrev pub first_match {ℓ} : {A : Type ℓ} → List (Bool × A) → A → A
first_match [] last = last
first_match ((b, x) ∷ rest) last = let y = first_match rest last in if b then x else y

abbrev pub EachBranch {ℓ} : {A : Type ℓ} → (A → Type 0) → List (Bool × A) → Type 0
EachBranch P [] = Unit
EachBranch P ((b, x) ∷ rest) = P x × EachBranch P rest

pub first_match-each {ℓ} :
    {A : Type ℓ} (P : A → Type 0) (branches : List (Bool × A)) (last : A)
    → EachBranch P branches
    → P last
    → P (first_match branches last)
first_match-each P [] last h k = k
first_match-each P ((true, x) ∷ rest) last h k = h.0
first_match-each P ((false, x) ∷ rest) last h k = first_match-each P rest last h.1 k

pub write-length {ℓ} :
    {A : Type ℓ} (a : List A) (i : ℕ) (v : A) → WhenDone (write a i v) (λ b. length b ≡ length a)
write-length a i v =
    WhenDone-if (λ b. length b ≡ length a) (ltb i (length a)) (done (set a i v)) fault
      (λ e. length-set a i v) (λ e. tt)
