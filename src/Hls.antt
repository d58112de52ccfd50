-- ===== src/Hls.antt =====
-- services/hls_service.py, with the media task manager that it shares: one stream for each key, each
-- with a lease. `running` is what `proc.poll() is None` would say; a process ends by itself in
-- `process_ends`. The cleanup attached to a lease is named by the lease's identifier, and `cleanups`
-- says which key it stops. Every operation runs under the service's lock.
pub mod Attaches
pub mod Capacity
pub mod Closes
pub mod Held
pub mod Kept
pub mod Keys
pub mod Moves
pub mod Refines
pub mod Sections
pub mod Sound
pub mod Starts
pub mod Steps
pub mod Stops
pub mod Touches
pub mod Watch
use iptv_sniffer_web.Base.{
  ℕ, zero, suc, ◌+◌, ◌-◌, ◌*◌, ◌/◌, ◌%◌, ◌^◌, ◌≤◌, ◌<◌, min, max, String, ◌≡◌, refl, sym, ap, ◌∙◌,
  ◌≢◌, ◌↔◌, ◌⊎◌, inl, inr, Bool, true, false, not, ◌&&◌, ◌||◌, Option, none, some, List, [], ◌∷◌,
  ◌++◌, map, arith, ◌>>=◌, >>=-eq-some, ltb, leb, if◌then◌else◌, ◌==◌, nat_eq, string_eq, pair_eq,
  list_eq, Bool-cases, Option-cases, ltb→lt, ltb→le, lt→ltb, le→ltb, leb→le, le→leb, length, get_or,
  get_elem?, take, drop, last_n, length-append, length-take, length-drop, take-append-drop,
  take-append, drop-append, take_all, take-append_le, drop-append_le, slice-append, get_or-append,
  All, All-append, byte_at, slice, be16, be32, le16, le32, IsByte, AreBytes, put_be16, put_be32,
  put_le16, put_le32, ==_iff, ==_refl, Text, str_nat, is_digit, digits_value, digits_value-str_nat,
}
use iptv_sniffer_web.Base.Dict.{Dict, lookup, insert, erase, contains}
use iptv_sniffer_web.Address.{valid_ipv4_multicast}
use iptv_sniffer_web.Media.{
  Task, Lease, Manager, Call, cleans, calls_back, Outcome, acquire, attach, close, request_cancel,
}

-- `make_key`: an underscore is code point 95.
unfoldable pub make_key : Text → ℕ → Text
make_key host port = host ++ 95 ∷ str_nat port

-- The parts of a key at its last underscore.
unfoldable pub split_last : Text → Option (Text × Text)
split_last [] = none
split_last (c ∷ cs) =
    let rest = split_last cs in
    elim rest [ none ↦ if c == 95 then some ([], cs) else none | some p ↦ some (c ∷ p.0, p.1) ]

-- `int(text)` where its result is printed back and compared: a text other than a plain numeral may
-- still be an integer for Python, but never the numeral of a port.
unfoldable pub int_of : Text → Option ℕ
int_of w = if length w == 0 then none else digits_value 0 w

unfoldable pub parse_port : Text → Text → ℕ → Option (Text × ℕ)
parse_port key host port =
    if not (valid_ipv4_multicast host) || not (leb 1 port && leb port 65535)
    then none
    else if make_key host port == key
    then some (host, port)
    else none

-- `parse_key`; the index of the underscore is at least 1.
unfoldable pub parse_key : Text → Option (Text × ℕ)
parse_key key = elim (split_last key) [
  | none ↦ none
  | some p ↦ if length p.0 == 0 then none else int_of p.1 >>= parse_port key p.0
]

pub record Stream : Type 0 where
  pub running : Bool
  pub path_mode : String
  pub localaddr : String
  pub lease : ℕ
  pub last_access : ℕ
  pub host : Text
  pub port : ℕ

pub record Service : Type 0 where
  pub streams : Dict Text Stream
  pub waiters : List Text
  pub cleanups : Dict ℕ Text
  pub manager : Manager

-- `HlsService.__init__` with a manager that others use as well.
unfoldable pub init : Manager → Service
init m = record { streams = []; waiters = []; cleanups = []; manager = m }

-- The cleanups of HLS leases never raise.
abbrev pub quietly : ℕ → Bool
quietly c = false

unfoldable pub remove_stream : Text → Service → Service
remove_stream key s = record s { streams = erase key s.streams }

unfoldable pub with_manager : Manager → Service → Service
with_manager m s = record s { manager = m }

-- `_stop_locked`: the stream goes first, so that the cleanup which its lease then calls, `_stop` of
-- the lease's key, finds nothing. Each call removes a stream, hence at most as many calls as streams.
unfoldable pub run_cleanups : (Text → Service → Service) → List Call → Service → Service
run_cleanups stop [] s = s
run_cleanups stop (cleans c ∷ calls) s =
    run_cleanups stop calls (elim (lookup c s.cleanups) [ none ↦ s | some key ↦ stop key s ])
run_cleanups stop (calls_back c ∷ calls) s = run_cleanups stop calls s

unfoldable pub stop_locked : ℕ → Text → Service → Service
stop_locked zero key s = s
stop_locked (suc fuel) key s = elim (lookup key s.streams) [
  | none ↦ s
  | some t ↦
      let out = close quietly t.lease s.manager in
      run_cleanups (stop_locked fuel) out.calls (with_manager out.manager (remove_stream key s))
]

-- `_stop` and `stop`.
unfoldable pub stop : Text → Service → Service
stop key s = stop_locked (suc (length s.streams)) key s

unfoldable pub reuses : String → String → Stream → Bool
reuses path_mode localaddr t = t.running && (t.path_mode == path_mode && t.localaddr == localaddr)

unfoldable pub touched : ℕ → Stream → Stream
touched now t = record t { last_access = now }

unfoldable pub put_stream : Text → Stream → Service → Service
put_stream key t s = record s { streams = insert key t s.streams }

-- How `ensure` ends: a running stream, ValueError, MediaCapacityError, or what the launch raised.
pub data Ensured : Type 0 where
  streaming invalid full not_launched : Ensured

pub record Request : Type 0 where
  pub host : Text
  pub port : ℕ
  pub path_mode : String
  pub localaddr : String

unfoldable pub new_stream : ℕ → ℕ → Request → Stream
new_stream id now r = record {
  running = true;
  path_mode = r.path_mode;
  localaddr = r.localaddr;
  lease = id;
  last_access = now;
  host = r.host;
  port = r.port;
}

-- The attached cleanup, and what the attachment calls at once if the lease is closed.
unfoldable pub attach_stop : ℕ → Text → Service → Service
attach_stop id key s =
    let out = attach quietly id id s.manager in
    run_cleanups stop out.calls
      (record s { cleanups = insert id key s.cleanups; manager = out.manager })

-- From the acquired lease on; `launches` says whether the directory and ffmpeg can be had.
unfoldable pub launch : Bool → ℕ → ℕ → Text → Request → Service → Service × Ensured
launch launches id now key r s =
    if launches
    then (attach_stop id key (put_stream key (new_stream id now r) s), streaming)
    else (let out = close quietly id s.manager in
        (run_cleanups stop out.calls (with_manager out.manager s), not_launched))

unfoldable pub start_stream : Bool → ℕ → ℕ → Text → Request → Service → Service × Ensured
start_stream launches id now key r s = elim (acquire id "hls" key s.manager) [
  | none ↦ (s, full)
  | some m ↦ launch launches id now key r (with_manager m s)
]

-- `ensure` under the lock, for a valid key; the lease gets the identifier `id`.
unfoldable pub ensure_locked : Bool → ℕ → ℕ → Text → Request → Service → Service × Ensured
ensure_locked launches id now key r s = elim (lookup key s.streams) [
  | none ↦ start_stream launches id now key r s
  | some t ↦
      if reuses r.path_mode r.localaddr t
      then (put_stream key (touched now t) s, streaming)
      else start_stream launches id now key r (stop key s)
]

unfoldable pub ensure : Bool → ℕ → ℕ → Request → Service → Service × Ensured
ensure launches id now r s = elim (parse_key (make_key r.host r.port)) [
  | none ↦ (s, invalid)
  | some p ↦ ensure_locked launches id now (make_key r.host r.port) r s
]

-- `claim_waiter`; `none` is MediaCapacityError.
unfoldable pub is_waiting : Text → List Text → Bool
is_waiting key [] = false
is_waiting key (w ∷ ws) = w == key || is_waiting key ws

unfoldable pub claim_waiter : Text → Service → Option Service
claim_waiter key s =
    if is_waiting key s.waiters then none else some (record s { waiters = key ∷ s.waiters })

unfoldable pub discard : Text → List Text → List Text
discard key [] = []
discard key (w ∷ ws) = if w == key then discard key ws else w ∷ discard key ws

unfoldable pub release_waiter : Text → Service → Service
release_waiter key s = record s { waiters = discard key s.waiters }

-- `existing_directory`, and whether it answers with a directory.
unfoldable pub existing_directory : ℕ → Text → Service → Service × Bool
existing_directory now key s = elim (parse_key key) [
  | none ↦ (s, false)
  | some p ↦ elim (lookup key s.streams) [
    | none ↦ (s, false)
    | some t ↦ if t.running then (put_stream key (touched now t) s, true) else (s, false)
  ]
]

unfoldable pub touch : ℕ → Text → Service → Service
touch now key s = elim (lookup key s.streams) [
  | none ↦ s
  | some t ↦ put_stream key (touched now t) s
]

unfoldable pub process_ends : Text → Service → Service
process_ends key s = elim (lookup key s.streams) [
  | none ↦ s
  | some t ↦ put_stream key (record t { running = false }) s
]

unfoldable pub idle_timeout : ℕ
idle_timeout = 60

-- What the watchdog stops: a dead process, or a stream that nobody asked for in a while.
unfoldable pub is_stale : ℕ → Stream → Bool
is_stale now t = not t.running || ltb idle_timeout (now - t.last_access)

unfoldable pub stale_keys : ℕ → Dict Text Stream → List Text
stale_keys now [] = []
stale_keys now ((k, t) ∷ d) = if is_stale now t then k ∷ stale_keys now d else stale_keys now d

-- The watchdog's second look, at the time `now`, under the lock again.
unfoldable pub stop_if_stale : ℕ → Text → Service → Service
stop_if_stale now key s = elim (lookup key s.streams) [
  | none ↦ s
  | some t ↦ if is_stale now t then stop key s else s
]

unfoldable pub keys_of : Dict Text Stream → List Text
keys_of [] = []
keys_of ((k, t) ∷ d) = k ∷ keys_of d

unfoldable pub stop_each : List Text → Service → Service
stop_each [] s = s
stop_each (k ∷ ks) s = stop_each ks (stop k s)

unfoldable pub stop_all : Service → Service
stop_all s = stop_each (keys_of s.streams) s

-- One round of the watchdog's loop: keys that are stale at `now`, each looked at again under the lock
-- at a time of its own.
unfoldable pub watch_keys : (Text → ℕ) → List Text → Service → Service
watch_keys later [] s = s
watch_keys later (k ∷ ks) s = watch_keys later ks (stop_if_stale (later k) k s)

unfoldable pub watch_round : ℕ → (Text → ℕ) → Service → Service
watch_round now later s = watch_keys later (stale_keys now s.streams) s
