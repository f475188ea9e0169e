-- ===== src/ClientSocket/Threads.antt =====
-- The constructor, the destructor and the moves of src/client/ClientSocket.cpp: who owns the io_context
-- and the thread that runs it.
use drop_file.Result.{Result, err, ok}
use drop_file.Common.{
  ℕ, suc, zero, ◌≡◌, refl, sym, ap, ◌∙◌, Option, none, some, List, [], ◌∷◌, ◌++◌, append-nil,
  append_assoc,
}

-- The io_context is named by a number; the thread, by the io_context that it runs. `none`: there is no
-- io_context, or the thread is not joinable.
pub record Owner : Type 0 where
  pub io_context : Option ℕ
  pub context_thread : Option ℕ

-- What a destructor calls: io_context::stop, and join of the thread that runs an io_context.
pub data Call : Type 0 where
  stops joins : ℕ → Call

unfoldable pub start_thread : Owner → Owner
start_thread o = record o { context_thread = o.io_context }

-- The move constructor: the target, and what is left of the source.
unfoldable pub move_socket : Owner → Owner × Owner
move_socket o = (o, record { io_context = none; context_thread = none })

abbrev pub joined : Option ℕ → List Call
joined none = []
joined (some k) = joins k ∷ []

-- The body of the destructor, and then that of std::jthread, which joins what is joinable still.
abbrev pub ended : Option ℕ → Option ℕ → List Call
ended none thread = joined thread
ended (some k) thread = stops k ∷ joined thread

unfoldable pub destroy_socket : Owner → List Call
destroy_socket o = ended o.io_context o.context_thread

-- The constructor, on how connect ends: an exception of its body ends the object, which the
-- constructor that it delegates to has made.
unfoldable pub construct : ℕ → Result (Unit {0}) → List Call × Result Owner
unfolding start_thread destroy_socket
construct k (ok _) = ([], ok (start_thread (record { io_context = some k; context_thread = none })))
construct k (err e) =
    (destroy_socket (record { io_context = some k; context_thread = none }), err e)

-- The objects that a number of moves leaves, the last one first.
unfoldable pub moved : ℕ → Owner → List Owner
unfolding move_socket
moved zero o = o ∷ []
moved (suc n) o = let (target, source) = move_socket o in moved n target ++ source ∷ []

unfoldable pub destroy_all : List Owner → List Call
destroy_all [] = []
destroy_all (o ∷ os) = destroy_socket o ++ destroy_all os

destroy_all-append :
    (os ps : List Owner) → destroy_all (os ++ ps) ≡ destroy_all os ++ destroy_all ps
unfolding destroy_all
destroy_all-append [] ps = refl
destroy_all-append (o ∷ os) ps =
    ap (◌++◌ (destroy_socket o)) (destroy_all-append os ps)
    ∙ sym (append_assoc (destroy_socket o) (destroy_all os) (destroy_all ps))

destroy_all-moved : (n : ℕ) (o : Owner) → destroy_all (moved n o) ≡ destroy_socket o
unfolding moved destroy_all destroy_socket
destroy_all-moved zero o = append-nil (destroy_socket o)
destroy_all-moved (suc n) o =
    destroy_all-append (moved n o) _ ∙ append-nil (destroy_all (moved n o)) ∙ destroy_all-moved n o

abbrev pub IsClosed : ℕ → ℕ → List Call × Result Owner → Type 0
IsClosed k n (calls, ok o) = calls ++ destroy_all (moved n o) ≡ stops k ∷ joins k ∷ []
IsClosed k n (calls, err e) = calls ≡ stops k ∷ []

-- However often a socket is moved: when all of its objects are gone, the io_context was stopped and
-- then the thread joined, once; if connect fails, no thread was started, and the io_context was
-- stopped.
pub construct-IsClosed :
    (k n : ℕ) (connected : Result (Unit {0})) → IsClosed k n (construct k connected)
unfolding construct destroy_socket
construct-IsClosed k n (ok u) =
    destroy_all-moved n (record { io_context = some k; context_thread = some k })
construct-IsClosed k n (err e) = refl
