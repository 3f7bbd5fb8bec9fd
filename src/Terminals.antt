-- ===== src/Terminals.antt =====
-- The terminals of a connection: twispRegistry, handleTwisp, close, and the calls of them by
-- handleDataPacket, handleClosePacket and deleteAllWispStreams (wisp/twisp.go,
-- wisp/wisp-connection.go). A terminal is known by its address, which is its position in `store`. The
-- process and its pseudo-terminal are parameters: whether they start, and what is read and when they
-- end, are arguments.
pub mod Registry
pub mod Shutdown
pub mod Named
pub mod Orphan
use wispurr.Base.{
  ℕ, zero, suc, ◌+◌, List, [], ◌∷◌, ◌++◌, Bool, true, false, ◌&&◌, ◌||◌, not, Option, none, some,
  ◌==◌, get_elem?, set, length, if◌then◌else◌,
}
use wispurr.Base.Map.{Map, insert, delete, nat_key}
use wispurr.Protocol.CloseReason
use wispurr.Shell.{split_shell}

-- `killed` says that its pseudo-terminal was closed and its process killed.
pub record TwispStream : Type 0 where
  pub stream_id : ℕ
  pub is_open : Bool
  pub killed : Bool

-- The terminals that the registry has been given, and twispRegistry's map from ids; `starting` are the
-- ids of the calls of handleTwisp whose process runs and which have not come to the registry yet;
-- `sent` are the packets that the connection is asked to send: for a close, the id and the reason.
pub record Terminals : Type 0 where
  pub store : List TwispStream
  pub streams : Map ℕ ℕ
  pub starting : List ℕ
  pub sent : List (ℕ × ℕ)

unfoldable pub no_terminals : Terminals
no_terminals = record { store = []; streams = λ id. none; starting = []; sent = [] }

unfoldable pub send_close : Terminals → ℕ → ℕ → Terminals
send_close t stream_id reason = record t { sent = t.sent ++ ((stream_id, reason) ∷ []) }

-- twispStreams.add: the registry takes a terminal under its id.
unfoldable pub add : Terminals → ℕ → Terminals
add t stream_id = record t {
  store = t.store ++ (record { stream_id = stream_id; is_open = true; killed = false } ∷ []);
  streams = insert stream_id (length t.store) t.streams;
}

unfoldable pub start_on : Terminals → ℕ → Option (List (List ℕ)) → Bool → Terminals
start_on t stream_id none started = send_close t stream_id CloseReason.invalid_info
start_on t stream_id (some []) started = send_close t stream_id CloseReason.invalid_info
start_on t stream_id (some (program ∷ args)) started =
    if started
    then record t { starting = t.starting ++ (stream_id ∷ []) }
    else send_close t stream_id CloseReason.network_error

-- handleTwisp up to the start of the process; `started` says that pty.StartWithSize succeeds.
unfoldable pub handle_twisp : Terminals → ℕ → List ℕ → Bool → Terminals
handle_twisp t stream_id command started = start_on t stream_id (split_shell command) started

unfoldable pub remove_at : List ℕ → ℕ → List ℕ
remove_at [] n = []
remove_at (x ∷ xs) zero = xs
remove_at (x ∷ xs) (suc n) = x ∷ remove_at xs n

-- handleTwisp from there on, of the n-th of those calls. No lock is held in between.
unfoldable pub register_on : Terminals → ℕ → Option ℕ → Terminals
register_on t n none = t
register_on t n (some stream_id) = add (record t { starting = remove_at t.starting n }) stream_id

unfoldable pub register : Terminals → ℕ → Terminals
register t n = register_on t n (get_elem? t.starting n)

unfoldable pub close_on : Terminals → ℕ → ℕ → Option TwispStream → Terminals
close_on t address reason none = t
close_on t address reason (some s) =
    if s.is_open
    then send_close
        (record t {
          store = set t.store address (record s { is_open = false; killed = true });
          streams = delete s.stream_id t.streams;
        })
        s.stream_id reason
    else t

-- close of the terminal at an address
unfoldable pub close_terminal : Terminals → ℕ → ℕ → Terminals
close_terminal t address reason = close_on t address reason (get_elem? t.store address)

-- The close that a packet of the client asks for.
unfoldable pub close_found : Terminals → Option ℕ → Terminals
close_found t none = t
close_found t (some address) = close_terminal t address CloseReason.voluntary

unfoldable pub close_id : Terminals → ℕ → Terminals
close_id t stream_id = close_found t (t.streams stream_id)

-- The terminals of the registry at the end of deleteAllWispStreams.
unfoldable pub is_at : Option ℕ → ℕ → Bool
is_at none address = false
is_at (some a) address = a == address

unfoldable pub listed_on : Terminals → ℕ → Option TwispStream → Bool
listed_on t address none = false
listed_on t address (some s) = is_at (t.streams s.stream_id) address

unfoldable pub listed : Terminals → ℕ → Bool
listed t address = listed_on t address (get_elem? t.store address)

unfoldable pub listed_below : Terminals → ℕ → List ℕ
listed_below t zero = []
listed_below t (suc n) =
    let rest = listed_below t n in if listed t n then rest ++ (n ∷ []) else rest

unfoldable pub close_each : Terminals → List ℕ → Terminals
close_each t [] = t
close_each t (a ∷ rest) = close_each (close_terminal t a CloseReason.unspecified) rest

unfoldable pub close_all : Terminals → Terminals
close_all t = close_each t (listed_below t (length t.store))

-- A CONNECT packet for a terminal that handleTwispConnect lets through, the registration of a terminal
-- whose process has started, the end of a process or of its output, which are only waited for after
-- that, a CLOSE packet, and the end of the connection.
pub data Event : Type 0 where
  starts : ℕ → List ℕ → Bool → Event
  adds : ℕ → Event
  exits : ℕ → ℕ → Event
  closes : ℕ → Event
  ends : Event

unfoldable pub step : Terminals → Event → Terminals
step t (starts stream_id command started) = handle_twisp t stream_id command started
step t (adds n) = register t n
step t (exits address reason) = close_terminal t address reason
step t (closes stream_id) = close_id t stream_id
step t ends = close_all t

unfoldable pub run : Terminals → List Event → Terminals
run t [] = t
run t (e ∷ rest) = run (step t e) rest
