-- ===== src/Outcome.antt =====
-- C++ exceptions as values: a computation over a state ends normally, by an exception, or not at
-- all within the rounds that it is given. The state outlives the exception.
use drop_file.Common.{◌≡◌, refl, Bytes}

-- include/DropFileBaseException.hpp and its subclasses, each with its what(), then the exceptions
-- of the libraries.
pub data Exception : Type 0 where
  socket_exception : Bytes → Exception
  init_session_message_exception : Bytes → Exception
  sessions_manager_exception : Bytes → Exception
  utils_exception : Bytes → Exception
  fs_entry_info_exception : Bytes → Exception
  drop_file_receive_exception : Bytes → Exception
  drop_file_send_exception : Bytes → Exception
  zstd_exception : Bytes → Exception
  archive_manager_exception : Bytes → Exception
  client_arg_parser_exception : Bytes → Exception
  -- boost::wrapexcept<boost::system::system_error>
  system_error : Exception
  -- std::filesystem::filesystem_error
  filesystem_error : Exception
  -- nlohmann::json::exception
  json_exception : Exception
  -- std::runtime_error
  runtime_error : Bytes → Exception
  -- std::out_of_range, of vector::at
  out_of_range : Exception
  -- No exception: the C++ code has undefined behaviour.
  undefined : Exception

pub data Outcome {ℓ κ} (S : Type ℓ) (A : Type κ) : Type (ℓ ⊔ κ) where
  done : A → S → Outcome S A
  thrown : Exception → S → Outcome S A
  -- The fuel of a loop ran out: no result of the program.
  unfinished : Outcome S A

abbrev pub Action {ℓ κ} : Type ℓ → Type κ → Type (ℓ ⊔ κ)
Action S A = S → Outcome S A

module _ {ℓ κ} {S : Type ℓ} {A : Type κ} where
  abbrev pub pure : A → Action S A
  pure a s = done a s

  abbrev pub throw : Exception → Action S A
  throw e s = thrown e s

-- What follows runs on a normal end.
abbrev pub bind {ℓ κ μ} :
    {S : Type ℓ} {A : Type κ} {B : Type μ} → Outcome S A → (A → Action S B) → Outcome S B
bind (done a s) f = f a s
bind (thrown e s) f = thrown e s
bind unfinished f = unfinished

infixl 5 ◌>>=◌ ◌>>◌
abbrev pub ◌>>=◌ {ℓ κ μ} :
    {S : Type ℓ} {A : Type κ} {B : Type μ} → Action S A → (A → Action S B) → Action S B
◌>>=◌ m f s = bind (m s) f

abbrev pub ◌>>◌ {ℓ κ} : {S : Type ℓ} {B : Type κ} → Action S (Unit {0}) → Action S B → Action S B
◌>>◌ m k = m >>= λ _. k

-- A step whose first part is known.
module _ {ℓ κ μ} {S : Type ℓ} {A : Type κ} {B : Type μ} (m : Action S A) (f : A → Action S B) where
  pub >>=-done : {s s' : S} {a : A} → m s ≡ done a s' → (m >>= f) s ≡ f a s'
  >>=-done e = rw (e, ◌>>=◌)

  pub >>=-thrown : {s s' : S} {e : Exception} → m s ≡ thrown e s' → (m >>= f) s ≡ thrown e s'
  >>=-thrown e = rw (e, ◌>>=◌)

bind-eq-done {ℓ κ μ} :
    {S : Type ℓ} {A : Type κ} {B : Type μ} (o : Outcome S A) (f : A → Action S B) {b : B} {t : S}
    → bind o f ≡ done b t
    → (a : A) × (u : S) × (o ≡ done a u) × (f a u ≡ done b t)
bind-eq-done (done a u) f h = (a, u, refl, h)
bind-eq-done (thrown e u) f h = cc
bind-eq-done unfinished f h = cc

-- Inversion of a normal end.
pub >>=-eq-done {ℓ κ μ} :
    {S : Type ℓ} {A : Type κ} {B : Type μ} (m : Action S A) (f : A → Action S B) (s : S) {b : B}
    {t : S}
    → (m >>= f) s ≡ done b t
    → (a : A) × (u : S) × (m s ≡ done a u) × (f a u ≡ done b t)
>>=-eq-done m f s h = bind-eq-done (m s) f h

-- Every exception that the outcome is meets `P`.
abbrev pub Raises {ℓ κ} : {S : Type ℓ} {A : Type κ} → (Exception → Type 0) → Outcome S A → Type 0
Raises P (done a s) = Unit
Raises P (thrown e s) = P e
Raises P unfinished = Unit

pub Raises-bind {ℓ κ μ} :
    {S : Type ℓ} {A : Type κ} {B : Type μ} (P : Exception → Type 0) (o : Outcome S A)
    (f : A → Action S B)
    → Raises P o
    → ((a : A) (s : S) → o ≡ done a s → Raises P (f a s))
    → Raises P (bind o f)
Raises-bind P (done a s) f h k = k a s refl
Raises-bind P (thrown e s) f h k = h
Raises-bind P unfinished f h k = tt

-- The state that is left meets `P`, on a normal end and on an exception.
abbrev pub Leaves {ℓ κ} : {S : Type ℓ} {A : Type κ} → (S → Type 0) → Outcome S A → Type 0
Leaves P (done a s) = P s
Leaves P (thrown e s) = P s
Leaves P unfinished = Unit

pub Leaves-bind {ℓ κ μ} :
    {S : Type ℓ} {A : Type κ} {B : Type μ} (P : S → Type 0) (o : Outcome S A) (f : A → Action S B)
    → Leaves P o
    → ((a : A) (s : S) → o ≡ done a s → P s → Leaves P (f a s))
    → Leaves P (bind o f)
Leaves-bind P (done a s) f h k = k a s refl h
Leaves-bind P (thrown e s) f h k = h
Leaves-bind P unfinished f h k = tt

-- Where it ends, the state that is left meets `P`, and an exception meets `E`.
abbrev pub Goes {ℓ κ} :
    {S : Type ℓ} {A : Type κ} → (Exception → Type 0) → (S → Type 0) → Outcome S A → Type 0
Goes E P (done a s) = P s
Goes E P (thrown e s) = E e × P s
Goes E P unfinished = Unit

pub Goes-bind {ℓ κ μ} :
    {S : Type ℓ} {A : Type κ} {B : Type μ} (E : Exception → Type 0) (P : S → Type 0)
    (o : Outcome S A) (f : A → Action S B)
    → Goes E P o
    → ((a : A) (s : S) → P s → Goes E P (f a s))
    → Goes E P (bind o f)
Goes-bind E P (done a s) f h k = k a s h
Goes-bind E P (thrown e s) f h k = h
Goes-bind E P unfinished f h k = tt

pub Raises-Leaves-Goes {ℓ κ} :
    {S : Type ℓ} {A : Type κ} (E : Exception → Type 0) (P : S → Type 0) (o : Outcome S A)
    → Raises E o
    → Leaves P o
    → Goes E P o
Raises-Leaves-Goes E P (done a s) h k = k
Raises-Leaves-Goes E P (thrown e s) h k = (h, k)
Raises-Leaves-Goes E P unfinished h k = tt

-- A computation on a part of the state, put back by `put`.
abbrev pub settled {ℓ κ μ} :
    {S : Type ℓ} {T : Type κ} {A : Type μ} → (S → T) → Outcome S A → Outcome T A
settled put (done a s) = done a (put s)
settled put (thrown e s) = thrown e (put s)
settled put unfinished = unfinished

-- Total correctness: the outcome is a result that meets `P`, or an exception that meets `E`.
abbrev pub Ensures {ℓ κ} :
    {S : Type ℓ} {A : Type κ} → (Exception → Type 0) → (A → S → Type 0) → Outcome S A → Type 0
Ensures E P (done a s) = P a s
Ensures E P (thrown e s) = E e
Ensures E P unfinished = ⊥

pub Ensures-bind {ℓ κ μ} :
    {S : Type ℓ} {A : Type κ} {B : Type μ} (E : Exception → Type 0) (P : A → S → Type 0)
    (Q : B → S → Type 0) (o : Outcome S A) (f : A → Action S B)
    → Ensures E P o
    → ((a : A) (s : S) → P a s → Ensures E Q (f a s))
    → Ensures E Q (bind o f)
Ensures-bind E P Q (done a s) f h k = k a s h
Ensures-bind E P Q (thrown e s) f h k = h
Ensures-bind E P Q unfinished f h k = absurd h

pub Ensures-settled {ℓ κ μ} :
    {S : Type ℓ} {T : Type κ} {A : Type μ} (E : Exception → Type 0) (P : A → S → Type 0)
    (Q : A → T → Type 0) (put : S → T) (o : Outcome S A)
    → Ensures E P o
    → ((a : A) (s : S) → P a s → Q a (put s))
    → Ensures E Q (settled put o)
Ensures-settled E P Q put (done a s) h k = k a s h
Ensures-settled E P Q put (thrown e s) h k = h
Ensures-settled E P Q put unfinished h k = absurd h

pub Ensures-map {ℓ κ} :
    {S : Type ℓ} {A : Type κ} (E : Exception → Type 0) (P Q : A → S → Type 0) (o : Outcome S A)
    → Ensures E P o
    → ((a : A) (s : S) → P a s → Q a s)
    → Ensures E Q o
Ensures-map E P Q (done a s) h k = k a s h
Ensures-map E P Q (thrown e s) h k = h
Ensures-map E P Q unfinished h k = absurd h

pub Ensures-weaken {ℓ κ} :
    {S : Type ℓ} {A : Type κ} (E F : Exception → Type 0) (P : A → S → Type 0) (o : Outcome S A)
    → Ensures E P o
    → ((e : Exception) → E e → F e)
    → Ensures F P o
Ensures-weaken E F P (done a s) h k = h
Ensures-weaken E F P (thrown e s) h k = k e h
Ensures-weaken E F P unfinished h k = absurd h
