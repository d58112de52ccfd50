-- ===== src/Hls/Closes.antt =====
-- The steps that attach to a lease, close it, run its cleanup and drop its task keep the invariant of
-- the streams.
use iptv_sniffer_web.Base.{
  ℕ, ◌≡◌, refl, sym, ◌∙◌, ◌≢◌, inl, inr, Bool, true, false, Option, none, some, [], ◌∷◌, arith,
  nat_eq, string_eq, pair_eq, list_eq, Bool-cases, ◌==◌, ==_iff,
}
use iptv_sniffer_web.Base.Dict.{insert, lookup-insert_same}
use iptv_sniffer_web.Media.{Lease, Manager, cleans, mark_closed, drop_task}
use iptv_sniffer_web.Media.Capacity.{IsWithin-same, drop_task-IsWithin}
use iptv_sniffer_web.Hls.{remove_stream, with_manager, run_cleanups}
use iptv_sniffer_web.Hls.Stops.{leases_of, Apart}
use iptv_sniffer_web.Hls.Sound.{holds-remove_task}
use iptv_sniffer_web.Hls.Sections.{World, at, on_manager}
use iptv_sniffer_web.Hls.Held.{
  lease_at, Held, open_lease, closed_lease, new_entry, Waiting, still_safe, already_closed,
}
use iptv_sniffer_web.Hls.Kept.{IsKeeping, Only, Only-IsKeeping, cleaned, cleaned-IsKeeping}
use iptv_sniffer_web.Hls.Moves.{at_own, at_other, replaced_others}

one_lease :
    (id : ℕ) (w : World) (l k : Lease) → lease_at id w ≡ some l → lease_at id w ≡ some k → l ≡ k
one_lease id w l k e f = ground (arith, e, f)

pub lease_closed :
    (id : ℕ) (w : World) (l k : Lease) (b : Bool)
    → lease_at id w ≡ some l
    → lease_at id w ≡ some k
    → k.closed ≡ b
    → l.closed ≡ b
lease_closed id w l k b e f h = rw (one_lease id w l k e f) h

lease_cleanup :
    (id : ℕ) (w : World) (l k : Lease) (o : Option ℕ)
    → lease_at id w ≡ some l
    → lease_at id w ≡ some k
    → k.cleanup ≡ o
    → l.cleanup ≡ o
lease_cleanup id w l k o e f h = rw (one_lease id w l k e f) h

-- A step that replaces a lease, and may mark it.
module _ (id : ℕ) (l l' : Lease) (w : World) (found : lease_at id w ≡ some l) where
  abbrev pub replaced : Manager
  replaced = record w.service.manager { leases = insert id l' w.service.manager.leases }

  pub replaced-Only :
      (e : ℕ → Bool) (c : ℕ → Option ℕ) (d : ℕ → Bool)
      → ((j : ℕ) → j ≢ id → e j ≡ w.entering j)
      → ((j : ℕ) → j ≢ id → c j ≡ w.cleaning j)
      → ((j : ℕ) → j ≢ id → d j ≡ w.dropping j)
      → Only id w (record w {
        service = with_manager replaced w.service;
        entering = e;
        cleaning = c;
        dropping = d;
      })
  unfolding with_manager
  replaced-Only e c d f g h = record {
    streams = refl;
    cleanups = λ j n. refl;
    others = λ j n. record {
      lease = replaced_others id l' w.service.manager j n;
      task = λ t. t;
      entry = f j n;
      clean = g j n;
      drop = h j n;
    };
    grants = λ j n. refl;
    within = λ x. IsWithin-same w.service.manager replaced (refl, refl, refl) x;
  }

-- An open lease without a cleanup is closed: its task may go.
pub marks_closed-IsKeeping :
    (id : ℕ) (l : Lease) (w : World)
    → lease_at id w ≡ some l
    → l.closed ≡ false
    → l.cleanup ≡ none
    → IsKeeping w
    → IsKeeping (record w {
      service = with_manager (mark_closed id l w.service.manager) w.service;
      dropping = at id true w.dropping;
    })
unfolding mark_closed with_manager
marks_closed-IsKeeping id l w found is_open bare k =
    let l' = record l { closed = true; cleanup = none } in
    let v : World = record w {
      service = with_manager (replaced id l l' w found) w.service;
      dropping = at id true w.dropping;
    } in
    let result : lease_at id v ≡ some l' = lookup-insert_same id l' w.service.manager.leases in
    let own : Held id w → Held id v = λ h. elim h [
      | open_lease x f o c s ↦
          absurd (ground (arith, bare, lease_cleanup id w l x (some id) found f c))
      | closed_lease x f o c s ↦
          absurd (ground (arith, is_open, lease_closed id w l x true found f o))
      | new_entry e ↦ new_entry e
    ] in
    Only-IsKeeping id w v
      (replaced-Only id l l' w found w.entering w.cleaning (at id true w.dropping) (λ j n. refl)
        (λ j n. refl) (λ j n. at_other id j true w.dropping n))
      (record {
        held = inr (refl, λ left h. (left, own h));
        waiting = λ h. already_closed l' result refl refl;
        apart = k.apart id;
        closed = λ c h. (l', result, refl);
      })
      k

-- A cleanup is taken from an open lease.
pub takes_cleanup-IsKeeping :
    (id c : ℕ) (l : Lease) (w : World)
    → lease_at id w ≡ some l
    → l.closed ≡ false
    → l.cleanup ≡ some c
    → IsKeeping w
    → IsKeeping (record w {
      service = with_manager (mark_closed id l w.service.manager) w.service;
      cleaning = at id (some c) w.cleaning;
    })
unfolding mark_closed with_manager
takes_cleanup-IsKeeping id c l w found is_open full k =
    let l' = record l { closed = true; cleanup = none } in
    let v : World = record w {
      service = with_manager (replaced id l l' w found) w.service;
      cleaning = at id (some c) w.cleaning;
    } in
    let result : lease_at id v ≡ some l' = lookup-insert_same id l' w.service.manager.leases in
    let own : Held id w → Held id v = λ h. elim h [
      | open_lease x f o d s ↦
          closed_lease l' result refl
            (at_own id (some c) w.cleaning ∙ sym full ∙ lease_cleanup id w l x (some id) found f d)
            s
      | closed_lease x f o d s ↦
          absurd (ground (arith, is_open, lease_closed id w l x true found f o))
      | new_entry e ↦ new_entry e
    ] in
    let not_waiting : Waiting id w → Waiting id v = λ h. elim h [
      | still_safe x f d s ↦ absurd (ground (arith, full, lease_cleanup id w l x none found f d))
      | already_closed x f d o ↦
          absurd (ground (arith, full, lease_cleanup id w l x none found f d))
    ] in
    Only-IsKeeping id w v
      (replaced-Only id l l' w found w.entering (at id (some c) w.cleaning) w.dropping (λ j n. refl)
        (λ j n. at_other id j (some c) w.cleaning n) (λ j n. refl))
      (record {
        held = inr (refl, λ left h. (left, own h));
        waiting = λ h. not_waiting (k.waiting id h);
        apart = k.apart id;
        closed = λ d h. (l', result, refl);
      })
      k

-- The cleanup of a closed lease has run, and its task may go.
may_drop-IsKeeping :
    (id c : ℕ) (w : World)
    → w.cleaning id ≡ some c
    → Apart c (leases_of w.service.streams)
    → IsKeeping w
    → IsKeeping (record w { dropping = at id true w.dropping })
may_drop-IsKeeping id c w h a k =
    let v : World = record w { dropping = at id true w.dropping } in
    let (l, found, shut) = k.closed id c h in
    let own : (c == id) ≡ false → Held id w → Held id v = λ other x. elim x [
      | open_lease y f o d s ↦ absurd (ground (arith, o, lease_closed id w y l true f found shut))
      | closed_lease y f o d s ↦ absurd (ground (arith, h, d, other, (==_iff c id).1))
      | new_entry e ↦ new_entry e
    ] in
    let wait : Waiting id w → Waiting id v = λ x. elim x [
      | still_safe y f d s ↦ already_closed y f d (lease_closed id w y l true f found shut)
      | already_closed y f d o ↦ already_closed y f d o
    ] in
    Only-IsKeeping id w v
      (record {
        streams = refl;
        cleanups = λ j n. refl;
        others = λ j n. record {
          lease = refl;
          task = λ t. t;
          entry = refl;
          clean = refl;
          drop = at_other id j true w.dropping n;
        };
        grants = λ j n. refl;
        within = λ x. x;
      })
      (record {
        held = elim (Bool-cases (c == id)) [
          | inl same ↦ inl (rw (← (==_iff c id).0 same) a)
          | inr other ↦ inr (refl, λ left x. (left, own other x))
        ];
        waiting = λ x. wait (k.waiting id x);
        apart = k.apart id;
        closed = k.closed id;
      })
      k

pub runs_cleanup-IsKeeping :
    (id c : ℕ) (w : World)
    → w.cleaning id ≡ some c
    → IsKeeping w
    → IsKeeping (record w {
      service = run_cleanups remove_stream (cleans c ∷ []) w.service;
      dropping = at id true w.dropping;
    })
runs_cleanup-IsKeeping id c w h k =
    let done = cleaned-IsKeeping c w k in may_drop-IsKeeping id c (cleaned c w) h done.1 done.0

pub drops_task-IsKeeping :
    (id : ℕ) (w : World)
    → w.dropping id ≡ true
    → IsKeeping w
    → IsKeeping (on_manager (drop_task id w.service.manager) w)
unfolding drop_task with_manager
drops_task-IsKeeping id w h k =
    let v = on_manager (drop_task id w.service.manager) w in
    let own : Held id w → Held id v = λ x. elim x [
      | open_lease l f o c s ↦ absurd (ground (arith, h, s.1))
      | closed_lease l f o c s ↦ absurd (ground (arith, h, s.1))
      | new_entry e ↦ new_entry e
    ] in
    let wait : Waiting id w → Waiting id v = λ x. elim x [
      | still_safe l f c s ↦ absurd (ground (arith, h, s.1))
      | already_closed l f c o ↦ already_closed l f c o
    ] in
    Only-IsKeeping id w v
      (record {
        streams = refl;
        cleanups = λ j n. refl;
        others = λ j n. record {
          lease = refl;
          task = λ t. holds-remove_task id j w.service.manager.tasks n ∙ t;
          entry = refl;
          clean = refl;
          drop = refl;
        };
        grants = λ j n. refl;
        within = λ x. drop_task-IsWithin id w.service.manager x;
      })
      (record {
        held = inr (refl, λ left x. (left, own x));
        waiting = λ x. wait (k.waiting id x);
        apart = k.apart id;
        closed = k.closed id;
      })
      k
