-- ===== src/Hls/Held.antt =====
-- What keeps the task of a stream's lease in the manager while the stream is in the table.
use iptv_sniffer_web.Base.{
  ℕ, ◌≡◌, ◌∙◌, true, false, Option, none, some, arith, nat_eq, string_eq, pair_eq, list_eq, Text,
}
use iptv_sniffer_web.Base.Dict.{lookup}
use iptv_sniffer_web.Media.{Lease}
use iptv_sniffer_web.Hls.{Stream}
use iptv_sniffer_web.Hls.Stops.{holds}
use iptv_sniffer_web.Hls.Sections.{World}

abbrev pub lease_at : ℕ → World → Option Lease
lease_at id w = lookup id w.service.manager.leases

-- The task is there, and nobody is about to drop it.
abbrev pub Safe : ℕ → World → Type 0
Safe id w = (holds id w.service.manager.tasks ≡ true) × (w.dropping id ≡ false)

-- The lease of a stream: open with its stop attached, closed with its stop still to run, or entered by
-- a start that has yet to attach to it.
pub data Held (id : ℕ) (w : World) : Type 0 where
  open_lease :
      (l : Lease)
      → lease_at id w ≡ some l
      → l.closed ≡ false
      → l.cleanup ≡ some id
      → Safe id w
      → Held id w
  closed_lease :
      (l : Lease)
      → lease_at id w ≡ some l
      → l.closed ≡ true
      → w.cleaning id ≡ some id
      → Safe id w
      → Held id w
  new_entry : w.entering id ≡ true → Held id w

-- The lease of a start that has yet to attach to it.
pub data Waiting (id : ℕ) (w : World) : Type 0 where
  still_safe : (l : Lease) → lease_at id w ≡ some l → l.cleanup ≡ none → Safe id w → Waiting id w
  already_closed :
      (l : Lease) → lease_at id w ≡ some l → l.cleanup ≡ none → l.closed ≡ true → Waiting id w

-- A lease whose cleanup was taken is closed.
abbrev pub IsClosed : ℕ → World → Type 0
IsClosed id w = (l : Lease) × (lease_at id w ≡ some l) × (l.closed ≡ true)

-- A step changes nothing for a lease, but may add its task.
pub record Same (id : ℕ) (w v : World) : Type 0 where
  pub lease : lease_at id v ≡ lease_at id w
  pub task : holds id w.service.manager.tasks ≡ true → holds id v.service.manager.tasks ≡ true
  pub entry : v.entering id ≡ w.entering id
  pub clean : v.cleaning id ≡ w.cleaning id
  pub drop : v.dropping id ≡ w.dropping id

pub Held-Same : (id : ℕ) (w v : World) → Same id w v → Held id w → Held id v
Held-Same id w v s (open_lease l f o c (h, d)) =
    open_lease l (s.lease ∙ f) o c (s.task h, s.drop ∙ d)
Held-Same id w v s (closed_lease l f o c (h, d)) =
    closed_lease l (s.lease ∙ f) o (s.clean ∙ c) (s.task h, s.drop ∙ d)
Held-Same id w v s (new_entry e) = new_entry (s.entry ∙ e)

pub Waiting-Same : (id : ℕ) (w v : World) → Same id w v → Waiting id w → Waiting id v
Waiting-Same id w v s (still_safe l f c (h, d)) =
    still_safe l (s.lease ∙ f) c (s.task h, s.drop ∙ d)
Waiting-Same id w v s (already_closed l f c o) = already_closed l (s.lease ∙ f) c o

-- The entry of a stream in the table.
pub record IsKept (w : World) (x : Text × Stream) : Type 0 where
  pub target : lookup (x.1).lease w.service.cleanups ≡ some x.0
  pub left : w.granted (x.1).lease ≡ false
  pub held : Held (x.1).lease w

-- A lease that was relabelled: neither its end nor its cleanup changed.
pub record IsRelabelled (id : ℕ) (w v : World) : Type 0 where
  pub old : Lease
  pub new : Lease
  pub found : lease_at id w ≡ some old
  pub result : lease_at id v ≡ some new
  pub closed : new.closed ≡ old.closed
  pub cleanup : new.cleanup ≡ old.cleanup
  pub task : holds id v.service.manager.tasks ≡ holds id w.service.manager.tasks
  pub entry : v.entering id ≡ w.entering id
  pub clean : v.cleaning id ≡ w.cleaning id
  pub drop : v.dropping id ≡ w.dropping id

same_lease :
    (id : ℕ) (w : World) (l k : Lease) → lease_at id w ≡ some l → lease_at id w ≡ some k → l ≡ k
same_lease id w l k e f = ground (arith, e, f)

pub Held-IsRelabelled : (id : ℕ) (w v : World) → IsRelabelled id w v → Held id w → Held id v
Held-IsRelabelled id w v s (open_lease l f o c (h, d)) =
    let e = same_lease id w s.old l s.found f in
    open_lease s.new s.result (s.closed ∙ rw e o) (s.cleanup ∙ rw e c) (s.task ∙ h, s.drop ∙ d)
Held-IsRelabelled id w v s (closed_lease l f o c (h, d)) =
    let e = same_lease id w s.old l s.found f in
    closed_lease s.new s.result (s.closed ∙ rw e o) (s.clean ∙ c) (s.task ∙ h, s.drop ∙ d)
Held-IsRelabelled id w v s (new_entry e) = new_entry (s.entry ∙ e)

pub Waiting-IsRelabelled :
    (id : ℕ) (w v : World) → IsRelabelled id w v → Waiting id w → Waiting id v
Waiting-IsRelabelled id w v s (still_safe l f c (h, d)) =
    let e = same_lease id w s.old l s.found f in
    still_safe s.new s.result (s.cleanup ∙ rw e c) (s.task ∙ h, s.drop ∙ d)
Waiting-IsRelabelled id w v s (already_closed l f c o) =
    let e = same_lease id w s.old l s.found f in
    already_closed s.new s.result (s.cleanup ∙ rw e c) (s.closed ∙ rw e o)
