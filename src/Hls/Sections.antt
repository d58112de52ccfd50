-- ===== src/Hls/Sections.antt =====
-- services/hls_service.py and services/media_task_service.py, as threads run them together: one step is
-- one locked section of one thread. `lease.close()` is up to three of them (the lease is marked, its
-- cleanup stops a stream under the service's lock, the task is dropped), and a start is three as well
-- (the lease, the stream, the attachment). A step may come whenever the code that does it may, and
-- more often: the relation holds no thread to finishing what it began.
use iptv_sniffer_web.Base.{
  ℕ, String, ◌≡◌, Bool, true, false, Option, none, some, [], ◌∷◌, if◌then◌else◌, ◌==◌, nat_eq,
  string_eq, pair_eq, list_eq, Text,
}
use iptv_sniffer_web.Base.Dict.{lookup, insert}
use iptv_sniffer_web.Media.{
  Lease, Manager, cleans, acquire, attach, set_callback, mark_closed, drop_task, mark_cancelled,
}
use iptv_sniffer_web.Hls.{
  Service, Request, init, quietly, remove_stream, with_manager, run_cleanups, put_stream,
  new_stream, touch, process_ends, existing_directory, claim_waiter, release_waiter,
}
use iptv_sniffer_web.Hls.Stops.{leases_of, Apart}

-- The service, and what the threads are about to do: leases that `ensure` was granted, those whose
-- stream it entered and that it has not attached to, the cleanup that a closed lease still runs, and
-- the leases whose task may be dropped.
pub record World : Type 0 where
  pub service : Service
  pub granted : ℕ → Bool
  pub entering : ℕ → Bool
  pub cleaning : ℕ → Option ℕ
  pub dropping : ℕ → Bool

abbrev pub at {ℓ} : {A : Type ℓ} → ℕ → A → (ℕ → A) → ℕ → A
at id a f j = if j == id then a else f j

abbrev pub on_manager : Manager → World → World
on_manager m w = record w { service = with_manager m w.service }

abbrev pub start_world : Manager → World
start_world m = record {
  service = init m;
  granted = λ j. false;
  entering = λ j. false;
  cleaning = λ j. none;
  dropping = λ j. false;
}

-- The stream of an `ensure` with a lease: its place in the table, and the key that its cleanup stops.
abbrev pub entered : ℕ → ℕ → Text → Request → Service → Service
entered id now key r s =
    put_stream key (new_stream id now r) (record s { cleanups = insert id key s.cleanups })

-- `lease.attach`, which at a closed lease takes the stream out at once.
abbrev pub attached : ℕ → Service → Service
attached id s =
    let out = attach quietly id id s.manager in
    run_cleanups remove_stream out.calls (with_manager out.manager s)

-- One locked section. A new lease's identifier was never given out, as `uuid4` promises; other users
-- of the manager attach to leases of their own; a lease can be cancelled and closed by anyone.
pub data Step (w : World) : World → Type 0 where
  takes_out : (key : Text) → Step w (record w { service = remove_stream key w.service })
  touches : (now : ℕ) (key : Text) → Step w (record w { service = touch now key w.service })
  reads :
      (now : ℕ) (key : Text)
      → Step w (record w { service = (existing_directory now key w.service).0 })
  ends : (key : Text) → Step w (record w { service = process_ends key w.service })
  claims :
      (key : Text) (s : Service)
      → claim_waiter key w.service ≡ some s
      → Step w (record w { service = s })
  releases : (key : Text) → Step w (record w { service = release_waiter key w.service })
  is_granted :
      (id : ℕ) (key : Text) (m : Manager)
      → lookup id w.service.manager.leases ≡ none
      → w.dropping id ≡ false
      → acquire id "hls" key w.service.manager ≡ some m
      → Step w (record w { service = with_manager m w.service; granted = at id true w.granted })
  enters :
      (id now : ℕ) (key : Text) (r : Request)
      → w.granted id ≡ true
      → Step w (record w {
        service = entered id now key r w.service;
        granted = at id false w.granted;
        entering = at id true w.entering;
      })
  attaches :
      (id : ℕ)
      → w.entering id ≡ true
      → Step w (record w { service = attached id w.service; entering = at id false w.entering })
  others_acquire :
      (id : ℕ) (kind : String) (key : Text) (m : Manager)
      → lookup id w.service.manager.leases ≡ none
      → w.dropping id ≡ false
      → acquire id kind key w.service.manager ≡ some m
      → Step w (on_manager m w)
  others_attach :
      (raises : ℕ → Bool) (id c : ℕ)
      → Apart id (leases_of w.service.streams)
      → w.granted id ≡ false
      → w.entering id ≡ false
      → Step w (on_manager (attach raises id c w.service.manager).manager w)
  sets_callback : (id c : ℕ) → Step w (on_manager (set_callback id c w.service.manager) w)
  marks_cancelled :
      (id : ℕ) (l : Lease)
      → lookup id w.service.manager.leases ≡ some l
      → Step w (on_manager (mark_cancelled id l w.service.manager) w)
  marks_closed :
      (id : ℕ) (l : Lease)
      → lookup id w.service.manager.leases ≡ some l
      → l.closed ≡ false
      → l.cleanup ≡ none
      → Step w (record w {
        service = with_manager (mark_closed id l w.service.manager) w.service;
        dropping = at id true w.dropping;
      })
  takes_cleanup :
      (id c : ℕ) (l : Lease)
      → lookup id w.service.manager.leases ≡ some l
      → l.closed ≡ false
      → l.cleanup ≡ some c
      → Step w (record w {
        service = with_manager (mark_closed id l w.service.manager) w.service;
        cleaning = at id (some c) w.cleaning;
      })
  runs_cleanup :
      (id c : ℕ)
      → w.cleaning id ≡ some c
      → Step w (record w {
        service = run_cleanups remove_stream (cleans c ∷ []) w.service;
        dropping = at id true w.dropping;
      })
  drops_task :
      (id : ℕ) → w.dropping id ≡ true → Step w (on_manager (drop_task id w.service.manager) w)
  shuts_down : Step w (on_manager (record w.service.manager { closed = true }) w)

pub data Reach (w : World) : World → Type 0 where
  here : Reach w w
  next : {u v : World} → Reach w u → Step u v → Reach w v
