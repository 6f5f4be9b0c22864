-- ===== src/Receive/Main.antt =====
-- receive/Main.cxx: what main does with the threads and tells the operator, by how the opening of
-- the socket and the work go. The threads themselves, the configuration and the socket have modules
-- of their own; what they return is an argument.
pub mod Order
use others.Base.{ℕ, Bool, true, false, not, ltb, if◌then◌else◌, List, [], ◌∷◌, ◌++◌}

pub data Thread : Type 0 where
  work hc hc_check db : Thread

-- MESSAGE_APP_START and its kin
pub data Message : Type 0 where
  app_start app_error_thread app_error_socket app_end : Message

-- `creates` is a thread that runs from there on; `waits` returns when it has ended.
pub data Action : Type 0 where
  creates : Thread → Action
  cancels : Thread → Action
  waits : Thread → Action
  deletes : Thread → Action
  tells : Message → Action
  exits : ℕ → Action

-- How Open and Connect go: an exception without a signal, the exception of Connect for SIGTERM,
-- before which it has cancelled and joined the work thread, or a connection; and after that how
-- ReadWork is left, which is by an exception alone: for SIGTERM, before which the work thread is
-- cancelled and joined too, or for another reason (accept() in Connect after a lost connection, or
-- the buffer for the data), with nothing done for the work thread.
pub data Connection : Type 0 where
  fails interrupted works_until_signal works_until_failure : Connection

-- How the making of the threads goes: the object of one of them cannot be made, or DBWrite::Init
-- throws, before any thread runs; Create() throws for one of them, with those before it running;
-- or all of them run.
pub data Making : Type 0 where
  no_objects : Making
  stops_at : Thread → Making
  all_made : Making

-- What happens to the process: argc, whether the configuration can be read, the making of the
-- threads, and the connection.
pub record Course : Type 0 where
  pub argc : ℕ
  pub configured : Bool
  pub making : Making
  pub connection : Connection

abbrev stop_thread : Thread → List Action
stop_thread t = cancels t ∷ waits t ∷ []

-- Connect or ReadWork, which stop the work thread.
abbrev stop_work : List Action
stop_work = stop_thread work

unfoldable pub delete_all : List Action
delete_all = deletes work ∷ deletes hc_check ∷ deletes hc ∷ deletes db ∷ []

-- The handler of the exceptions of Open and Connect, after what Connect has done.
unfoldable pub socket_error : List Action → Message → List Action
socket_error before message =
    before
    ++ (stop_thread hc_check
        ++ (stop_thread hc ++ (stop_thread db ++ (delete_all ++ tells message ∷ exits 255 ∷ []))))

-- From the end of ReadWork on.
unfoldable pub after_work : List Action
after_work =
    stop_thread hc_check
    ++ (stop_thread hc ++ (stop_thread db ++ (delete_all ++ tells app_end ∷ exits 0 ∷ [])))

-- From the making of the socket on.
unfoldable pub serve : Connection → List Action
serve fails = socket_error [] app_error_socket
serve interrupted = socket_error stop_work app_end
serve works_until_signal = stop_work ++ after_work
serve works_until_failure = after_work

-- The handler of the exceptions of the making of the threads.
unfoldable pub thread_error : List Action
thread_error = delete_all ++ tells app_error_thread ∷ exits 255 ∷ []

-- The try block that makes the threads, in its order, and what comes after it.
unfoldable pub make_threads : Making → Connection → List Action
make_threads no_objects k = thread_error
make_threads (stops_at work) k = thread_error
make_threads (stops_at hc_check) k = creates work ∷ thread_error
make_threads (stops_at hc) k = creates work ∷ creates hc_check ∷ thread_error
make_threads (stops_at db) k = creates work ∷ creates hc_check ∷ creates hc ∷ thread_error
make_threads all_made k = creates work ∷ creates hc_check ∷ creates hc ∷ creates db ∷ serve k

-- main; exit(-1) is the code 255.
unfoldable pub main : Course → List Action
main c =
    if ltb c.argc 2
    then exits 255 ∷ []
    else if not c.configured
    then exits 255 ∷ []
    else tells app_start ∷ make_threads c.making c.connection
