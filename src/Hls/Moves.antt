-- ===== src/Hls/Moves.antt =====
-- The steps of `Hls.Sections` keep the invariant of the streams, one by one.
use iptv_sniffer_web.Base.{
  ℕ, String, ◌≡◌, refl, sym, ap, ◌∙◌, ◌≢◌, inl, inr, Bool, true, false, none, some, [], ◌∷◌, arith,
  nat_eq, string_eq, pair_eq, list_eq, Bool-cases, All, Text, ◌==◌, ==_iff, ==_refl,
}
use iptv_sniffer_web.Base.Dict.{
  Dict, lookup, insert, lookup-insert_same, lookup-insert_other, All-insert,
}
use iptv_sniffer_web.Media.{Lease, Manager, new_lease, acquire}
use iptv_sniffer_web.Media.Capacity.{IsWithin-same, acquired, acquire-IsGranted, acquire-IsWithin}
use iptv_sniffer_web.Hls.{Stream, Request, with_manager, put_stream, new_stream}
use iptv_sniffer_web.Hls.Stops.{leases_of, Apart}
use iptv_sniffer_web.Hls.Starts.{holds-append, Distinct-insert}
use iptv_sniffer_web.Hls.Sections.{World, at, on_manager, entered}
use iptv_sniffer_web.Hls.Held.{
  lease_at, Held, open_lease, closed_lease, new_entry, Waiting, still_safe, already_closed, IsKept,
  IsRelabelled, Held-IsRelabelled, Waiting-IsRelabelled,
}
use iptv_sniffer_web.Hls.Kept.{IsKeeping, Only, Only-IsKeeping, table-IsKeeping}

pub at_own {ℓ} : {A : Type ℓ} (id : ℕ) (a : A) (f : ℕ → A) → at id a f id ≡ a
at_own id a f = rw (==_refl id) refl

pub at_other {ℓ} : {A : Type ℓ} (id j : ℕ) (a : A) (f : ℕ → A) → j ≢ id → at id a f j ≡ f j
at_other id j a f n = elim (Bool-cases (j == id)) [
  | inl same ↦ absurd (n ((==_iff j id).0 same))
  | inr other ↦ rw other refl
]

-- What a lease that is somewhere is not: one that was never given out.
given : (id : ℕ) (w : World) → lease_at id w ≡ none → Waiting id w → ⊥
given id w h (still_safe l f c s) = absurd (ground (arith, h, f))
given id w h (already_closed l f c o) = absurd (ground (arith, h, f))

not_entering : (id : ℕ) (w : World) → IsKeeping w → lease_at id w ≡ none → w.entering id ≡ false
not_entering id w k h = elim (Bool-cases (w.entering id)) [
  | inr calm ↦ calm
  | inl busy ↦ absurd (given id w h (k.waiting id (ground (arith, busy))))
]

pub not_granted : (id : ℕ) (w : World) → IsKeeping w → lease_at id w ≡ none → w.granted id ≡ false
not_granted id w k h = elim (Bool-cases (w.granted id)) [
  | inr calm ↦ calm
  | inl busy ↦ absurd (given id w h (k.waiting id (ground (arith, busy))))
]

-- A lease whose label changes, and not its end or its cleanup.
relabelled-IsKeeping :
    (id : ℕ) (w v : World)
    → Only id w v
    → IsRelabelled id w v
    → v.granted id ≡ w.granted id
    → lookup id v.service.cleanups ≡ lookup id w.service.cleanups
    → IsKeeping w
    → IsKeeping v
relabelled-IsKeeping id w v o r g same_key k =
    Only-IsKeeping id w v o
      (record {
        held = inr (same_key, λ left h. (g ∙ left, Held-IsRelabelled id w v r h));
        waiting = λ h. Waiting-IsRelabelled id w v r (k.waiting id (rw (← g, ← r.entry) h));
        apart = λ h. r.entry ∙ k.apart id (sym g ∙ h);
        closed = λ c h.
            let (l, found, shut) = k.closed id c (sym r.clean ∙ h) in
            let same : l ≡ r.old = ground (arith, found, r.found) in
            (r.new, r.result, r.closed ∙ rw (← same) shut);
      })
      k

-- The manager with one lease replaced.
pub replaced_others :
    (id : ℕ) (l : Lease) (m : Manager) (j : ℕ)
    → j ≢ id
    → lookup j (insert id l m.leases) ≡ lookup j m.leases
replaced_others id l m j n = lookup-insert_other id j l m.leases n

pub replaced-IsKeeping :
    (id : ℕ) (l l' : Lease) (w : World)
    → lease_at id w ≡ some l
    → l'.closed ≡ l.closed
    → l'.cleanup ≡ l.cleanup
    → IsKeeping w
    → IsKeeping
        (on_manager (record w.service.manager { leases = insert id l' w.service.manager.leases }) w)
unfolding with_manager
replaced-IsKeeping id l l' w found shut clean k =
    let m = w.service.manager in
    let m' = record m { leases = insert id l' m.leases } in
    relabelled-IsKeeping id w (on_manager m' w)
      (record {
        streams = refl;
        cleanups = λ j n. refl;
        others = λ j n. record {
          lease = replaced_others id l' m j n;
          task = λ t. t;
          entry = refl;
          clean = refl;
          drop = refl;
        };
        grants = λ j n. refl;
        within = λ h. IsWithin-same m m' (refl, refl, refl) h;
      })
      (record {
        old = l;
        new = l';
        found = found;
        result = lookup-insert_same id l' m.leases;
        closed = shut;
        cleanup = clean;
        task = refl;
        entry = refl;
        clean = refl;
        drop = refl;
      })
      refl refl k

held_given : (id : ℕ) (w : World) → IsKeeping w → lease_at id w ≡ none → Held id w → ⊥
held_given id w k h (open_lease l f o c s) = absurd (ground (arith, h, f))
held_given id w k h (closed_lease l f o c s) = absurd (ground (arith, h, f))
held_given id w k h (new_entry e) = absurd (ground (arith, not_entering id w k h, e))

-- A new lease of anyone, with which the marks of the granted leases become `g`.
pub acquired-IsKeeping :
    (id : ℕ) (kind : String) (key : Text) (m : Manager) (g : ℕ → Bool) (w : World)
    → acquire id kind key w.service.manager ≡ some m
    → lease_at id w ≡ none
    → ((j : ℕ) → j ≢ id → g j ≡ w.granted j)
    → (g id ≡ true → kind ≡ "hls")
    → w.dropping id ≡ false
    → IsKeeping w
    → IsKeeping (record w { service = with_manager m w.service; granted = g })
unfolding with_manager
acquired-IsKeeping id kind key m g w h fresh same hls calm k =
    let granted = acquire-IsGranted id kind key w.service.manager m h in
    let m' = acquired id kind key w.service.manager in
    let v : World = record w { service = with_manager m' w.service; granted = g } in
    let quiet_entry = not_entering id w k fresh in
    rw granted.result (
      Only-IsKeeping id w v
        (record {
          streams = refl;
          cleanups = λ j n. refl;
          others = λ j n. record {
            lease = replaced_others id new_lease w.service.manager j n;
            task = λ t.
                rw
                  (
                    holds-append j w.service.manager.tasks
                        (record { id = id; kind = kind; key = key } ∷ []),
                    t,
                  )
                  refl;
            entry = refl;
            clean = refl;
            drop = refl;
          };
          grants = same;
          within =
              λ i. acquire-IsWithin id kind key w.service.manager m' i (h ∙ ap some granted.result);
        })
        (record {
          held = inr (refl, λ left x. absurd (held_given id w k fresh x));
          waiting = λ x.
              still_safe new_lease (lookup-insert_same id new_lease w.service.manager.leases)
                (unfold new_lease in refl)
                (
                  rw
                      (
                        holds-append id w.service.manager.tasks
                            (record { id = id; kind = kind; key = key } ∷ []),
                        hls (ground (arith, quiet_entry, x)),
                        ==_refl id,
                      )
                      (ground arith),
                  calm,
                );
          apart = λ x. quiet_entry;
          closed = λ c x.
              let (l, found, shut) = k.closed id c x in absurd (ground (arith, found, fresh));
        })
        k)

Apart-granted :
    (id : ℕ) (w : World) (xs : Dict Text Stream)
    → w.granted id ≡ true
    → All (IsKept w) xs
    → Apart id (leases_of xs)
Apart-granted id w [] h a = tt
Apart-granted id w ((j, t) ∷ xs) h a = (
  λ same.
      let left : w.granted id ≡ false = rw (← same) (a.0).left in absurd (ground (arith, h, left)),
  Apart-granted id w xs h a.1,
)

Waiting-entered :
    (id : ℕ) (w v : World)
    → v.service.manager ≡ w.service.manager
    → v.dropping ≡ w.dropping
    → Waiting id w
    → Waiting id v
Waiting-entered id w v e d (still_safe l f c (h, q)) = still_safe l (rw e f) c (rw e h, rw d q)
Waiting-entered id w v e d (already_closed l f c o) = already_closed l (rw e f) c o

pub enters-IsKeeping :
    (id now : ℕ) (key : Text) (r : Request) (w : World)
    → w.granted id ≡ true
    → IsKeeping w
    → IsKeeping (record w {
      service = entered id now key r w.service;
      granted = at id false w.granted;
      entering = at id true w.entering;
    })
unfolding put_stream new_stream
enters-IsKeeping id now key r w h k =
    let t = new_stream id now r in
    let a = Apart-granted id w w.service.streams h k.kept in
    let v : World = record w {
      service = record w.service { cleanups = insert id key w.service.cleanups };
      granted = at id false w.granted;
      entering = at id true w.entering;
    } in
    let kv =
      Only-IsKeeping id w v
        (record {
          streams = refl;
          cleanups = λ j n. lookup-insert_other id j key w.service.cleanups n;
          others = λ j n. record {
            lease = refl;
            task = λ x. x;
            entry = at_other id j true w.entering n;
            clean = refl;
            drop = refl;
          };
          grants = λ j n. at_other id j false w.granted n;
          within = λ x. x;
        })
        (record {
          held = inl a;
          waiting = λ x. Waiting-entered id w v refl refl (k.waiting id (ground (arith, h)));
          apart = λ x. absurd (ground (arith, x, at_own id false w.granted));
          closed = k.closed id;
        })
        k in
    table-IsKeeping v _ (insert key t w.service.streams) refl
      (All-insert (IsKept v) key t w.service.streams kv.kept (record {
        target = lookup-insert_same id key w.service.cleanups;
        left = at_own id false w.granted;
        held = new_entry (at_own id true w.entering);
      }))
      (Distinct-insert key t w.service.streams a k.distinct) kv
