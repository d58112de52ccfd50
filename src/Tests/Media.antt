-- ===== src/Tests/Media.antt =====
-- A manager with two open leases, whose cleanups raise.
use iptv_sniffer_web.Base.{
  ℕ, String, ◌≡◌, refl, Bool, true, false, none, some, [], ◌∷◌, nat_eq, string_eq, pair_eq, list_eq,
  Text,
}
use iptv_sniffer_web.Base.Dict.{lookup, insert}
use iptv_sniffer_web.Media.{
  Lease, Manager, init, acquire, has_task, shutdown, limit_of, count_kind, new_lease,
}
use iptv_sniffer_web.Media.Capacity.{here, next, acquires, IsWithin, Reach-IsWithin}
use iptv_sniffer_web.Media.Shutdown.{IsReleased, shutdown-IsReleased}

abbrev idle : Lease
idle = record { cleanup = none; closed = false; cancel_callback = none; cancel_requested = false }

abbrev worker : Lease
worker = record {
  cleanup = some 4;
  closed = false;
  cancel_callback = some 9;
  cancel_requested = false;
}

abbrev one_task : Manager
one_task = record {
  limit = 3;
  limits = ("hls", 2) ∷ [];
  tasks = record { id = 1; kind = "hls"; key = b'k' ∷ [] } ∷ [];
  closed = false;
  leases = (1, idle) ∷ [];
}

abbrev two_tasks : Manager
two_tasks = record {
  limit = 3;
  limits = ("hls", 2) ∷ [];
  tasks =
      record { id = 1; kind = "hls"; key = b'k' ∷ [] }
      ∷ record { id = 2; kind = "catchup"; key = [] }
      ∷ [];
  closed = false;
  leases = (1, idle) ∷ (2, worker) ∷ [];
}

abbrev always : ℕ → Bool
always c = true

Reach-IsWithin_example : IsWithin one_task
unfolding init acquire limit_of count_kind new_lease insert lookup
Reach-IsWithin_example =
    Reach-IsWithin 3 (("hls", 2) ∷ []) one_task
      (next here (acquires 1 "hls" (b'k' ∷ []) one_task refl))

shutdown-IsReleased_example :
    IsReleased 2 worker (shutdown always two_tasks)
    × ((id : ℕ) (kind : String) (key : Text)
        → acquire id kind key (shutdown always two_tasks).manager ≡ none)
unfolding has_task lookup
shutdown-IsReleased_example = shutdown-IsReleased always two_tasks 2 worker refl refl refl
