-- ===== src/Hls/Attaches.antt =====
-- The steps that attach to a lease keep the invariant of the streams.
use iptv_sniffer_web.Base.{
  ℕ, ◌≡◌, refl, inl, inr, Bool, true, false, some, [], ◌∷◌, arith, nat_eq, string_eq, pair_eq,
  list_eq, Bool-cases, Option-cases,
}
use iptv_sniffer_web.Base.Dict.{lookup, insert, lookup-insert_same}
use iptv_sniffer_web.Media.{Lease, Manager, cleans, quiet, attach}
use iptv_sniffer_web.Hls.{Service, remove_stream, with_manager, run_cleanups}
use iptv_sniffer_web.Hls.Stops.{leases_of, Apart}
use iptv_sniffer_web.Hls.Sections.{World, at, on_manager, attached}
use iptv_sniffer_web.Hls.Held.{lease_at, Safe, open_lease, still_safe, already_closed}
use iptv_sniffer_web.Hls.Kept.{IsKeeping, Only-IsKeeping, cleaned, cleaned-IsKeeping}
use iptv_sniffer_web.Hls.Moves.{at_own, at_other}
use iptv_sniffer_web.Hls.Closes.{replaced, replaced-Only, lease_closed}

-- `lease.attach` of a start whose lease is open.
open_attached :
    (id : ℕ) (l : Lease) (s : Service)
    → lookup id s.manager.leases ≡ some l
    → l.closed ≡ false
    → attached id s
      ≡ with_manager
          (record s.manager {
            leases = insert id (record l { cleanup = some id }) s.manager.leases;
          })
          s
unfolding attach quiet run_cleanups
open_attached id l s found is_open = rw (attach, found, is_open) refl

closed_attached :
    (id : ℕ) (l : Lease) (s : Service)
    → lookup id s.manager.leases ≡ some l
    → l.closed ≡ true
    → attached id s ≡ run_cleanups remove_stream (cleans id ∷ []) s
unfolding attach quiet with_manager
closed_attached id l s found shut = rw (attach, found, shut) refl

no_grant : (id : ℕ) (w : World) → IsKeeping w → w.entering id ≡ true → w.granted id ≡ false
no_grant id w k h = elim (Bool-cases (w.granted id)) [
  | inr calm ↦ calm
  | inl busy ↦ absurd (ground (arith, h, k.apart id busy))
]

-- A start that is over, whose lease no stream has.
entry_over-IsKeeping :
    (id : ℕ) (w : World)
    → w.granted id ≡ false
    → Apart id (leases_of w.service.streams)
    → IsKeeping w
    → IsKeeping (record w { entering = at id false w.entering })
entry_over-IsKeeping id w calm a k =
    Only-IsKeeping id w (record w { entering = at id false w.entering })
      (record {
        streams = refl;
        cleanups = λ j n. refl;
        others = λ j n. record {
          lease = refl;
          task = λ t. t;
          entry = at_other id j false w.entering n;
          clean = refl;
          drop = refl;
        };
        grants = λ j n. refl;
        within = λ x. x;
      })
      (record {
        held = inl a;
        waiting = λ x. absurd (ground (arith, x, calm, at_own id false w.entering));
        apart = λ x. at_own id false w.entering;
        closed = k.closed id;
      })
      k

-- The stop of an open lease that waited for it.
open_attach-IsKeeping :
    (id : ℕ) (l : Lease) (w : World)
    → lease_at id w ≡ some l
    → l.closed ≡ false
    → w.granted id ≡ false
    → Safe id w
    → IsKeeping w
    → IsKeeping (record w {
      service =
          with_manager
            (record w.service.manager {
              leases = insert id (record l { cleanup = some id }) w.service.manager.leases;
            })
            w.service;
      entering = at id false w.entering;
    })
unfolding with_manager
open_attach-IsKeeping id l w found is_open calm safe k =
    let l' = record l { cleanup = some id } in
    let v : World = record w {
      service = with_manager (replaced id l l' w found) w.service;
      entering = at id false w.entering;
    } in
    let result : lease_at id v ≡ some l' = lookup-insert_same id l' w.service.manager.leases in
    Only-IsKeeping id w v
      (replaced-Only id l l' w found (at id false w.entering) w.cleaning w.dropping
        (λ j n. at_other id j false w.entering n) (λ j n. refl) (λ j n. refl))
      (record {
        held = inr (refl, λ left h. (left, open_lease l' result is_open refl safe));
        waiting = λ x. absurd (ground (arith, x, calm, at_own id false w.entering));
        apart = λ x. at_own id false w.entering;
        closed = λ c h.
            let (x, f, shut) = k.closed id c h in
            absurd (ground (arith, is_open, lease_closed id w l x true found f shut));
      })
      k

pub attaches-IsKeeping :
    (id : ℕ) (w : World)
    → w.entering id ≡ true
    → IsKeeping w
    → IsKeeping (record w { service = attached id w.service; entering = at id false w.entering })
attaches-IsKeeping id w h k =
    let calm = no_grant id w k h in
    let shut : (l : Lease)
        → lease_at id w ≡ some l
        → l.closed ≡ true
        → IsKeeping
            (record w { service = attached id w.service; entering = at id false w.entering }) =
      λ l f o.
        let done = cleaned-IsKeeping id w k in
        rw (closed_attached id l w.service f o)
          (entry_over-IsKeeping id (cleaned id w) calm done.1 done.0) in
    elim (k.waiting id (ground (arith, h))) [
      | already_closed l f c o ↦ shut l f o
      | still_safe l f c s ↦ elim (Bool-cases l.closed) [
        | inl o ↦ shut l f o
        | inr is_open ↦
            rw (open_attached id l w.service f is_open)
              (open_attach-IsKeeping id l w f is_open calm s k)
      ]
    ]

attach_open_manager :
    (raises : ℕ → Bool) (id c : ℕ) (l : Lease) (m : Manager)
    → lookup id m.leases ≡ some l
    → l.closed ≡ false
    → (attach raises id c m).manager
      ≡ record m { leases = insert id (record l { cleanup = some c }) m.leases }
unfolding attach quiet
attach_open_manager raises id c l m found is_open = rw (attach, found, is_open) refl

-- Another user attaches to a lease that is no stream's and no start's.
pub others_attach-IsKeeping :
    (raises : ℕ → Bool) (id c : ℕ) (w : World)
    → Apart id (leases_of w.service.streams)
    → w.granted id ≡ false
    → w.entering id ≡ false
    → IsKeeping w
    → IsKeeping (on_manager (attach raises id c w.service.manager).manager w)
unfolding attach quiet with_manager
others_attach-IsKeeping raises id c w a calm still k =
    elim (Option-cases (lookup id w.service.manager.leases)) [
      | inl gone ↦ rw (attach, gone) k
      | inr (l, found) ↦ elim (Bool-cases l.closed) [
        | inl shut ↦ rw (attach, found, shut) k
        | inr is_open ↦ rw (attach_open_manager raises id c l w.service.manager found is_open) (
            let l' = record l { cleanup = some c } in
            Only-IsKeeping id w (on_manager (replaced id l l' w found) w)
              (replaced-Only id l l' w found w.entering w.cleaning w.dropping (λ j n. refl)
                (λ j n. refl) (λ j n. refl))
              (record {
                held = inl a;
                waiting = λ x. absurd (ground (arith, x, calm, still));
                apart = λ x. still;
                closed = λ d h.
                    let (x, f, shut) = k.closed id d h in
                    absurd (ground (arith, is_open, lease_closed id w l x true found f shut));
              })
              k)
      ]
    ]
