-- ===== src/Hls/Refines.antt =====
-- What the service promises: for each key, how its stream was asked for. The view forgets leases,
-- processes and times; `ensure` and the stops act on it as on a plain table.
use iptv_sniffer_web.Base.{
  ℕ, String, ◌≡◌, refl, ◌∙◌, inl, inr, Bool, true, false, Option, none, some, arith, if◌then◌else◌,
  ◌==◌, nat_eq, string_eq, pair_eq, list_eq, Bool-cases, Option-cases, ==_iff, ==_refl, Text,
}
use iptv_sniffer_web.Base.Dict.{lookup, lookup-insert, lookup-erase}
use iptv_sniffer_web.Hls.{
  Stream, Service, Request, Ensured, streaming, full, invalid, not_launched, remove_stream,
  with_manager, stop, put_stream, new_stream, start_stream, reuses, touched, ensure_locked, ensure,
  make_key, parse_key,
}
use iptv_sniffer_web.Hls.Stops.{IsSound, stopped}
use iptv_sniffer_web.Hls.Sound.{stop-stopped}
use iptv_sniffer_web.Hls.Starts.{start_stream-cases}

-- For a key, the path mode and the local address of its stream.
abbrev pub Table : Type 0
Table = Text → Option (String × String)

abbrev pub view : Service → Table
view s key = elim (lookup key s.streams) [ none ↦ none | some t ↦ some (t.path_mode, t.localaddr) ]

abbrev pub with_entry : Text → Option (String × String) → Table → Table
with_entry key e table j = if key == j then e else table j

-- What `ensure` does to the table, by how it ends.
abbrev pub table_after : Ensured → Request → Table → Table
table_after streaming r table =
    with_entry (make_key r.host r.port) (some (r.path_mode, r.localaddr)) table
table_after invalid r table = table
table_after full r table = with_entry (make_key r.host r.port) none table
table_after not_launched r table = with_entry (make_key r.host r.port) none table

pub lookup-stop :
    (key j : Text) (s : Service)
    → IsSound s
    → lookup j (stop key s).streams ≡ (if key == j then none else lookup j s.streams)
unfolding with_manager remove_stream
lookup-stop key j s v = rw (stop-stopped key s v) (elim (Option-cases (lookup key s.streams)) [
  | inl gone ↦ rw (stopped, gone) (ground (arith, gone, (==_iff key j).0))
  | inr (t, found) ↦ rw (stopped, found) (lookup-erase key j s.streams)
])

view-stop :
    (key j : Text) (s : Service) → IsSound s → view (stop key s) j ≡ with_entry key none (view s) j
view-stop key j s v = ground (arith, lookup-stop key j s v)

-- A start on a service that has no stream of the key, and agrees elsewhere with a table.
view-start_stream :
    (launches : Bool) (id now : ℕ) (r : Request) (s : Service) (table : Table) (j : Text)
    → lookup (make_key r.host r.port) s.streams ≡ none
    → ((make_key r.host r.port == j) ≡ false → view s j ≡ table j)
    → view (start_stream launches id now (make_key r.host r.port) r s).0 j
      ≡ table_after (start_stream launches id now (make_key r.host r.port) r s).1 r table j
unfolding new_stream with_manager
view-start_stream launches id now r s table j gone agree =
    let key = make_key r.host r.port in
    let keyed = (==_iff key j).0 in
    elim (start_stream-cases launches id now key r s) [
      | inl none_free ↦ rw none_free (ground (arith, gone, keyed, agree))
      | inr (granted, inl up) ↦
          rw up (ground (arith, lookup-insert key j (new_stream id now r) s.streams, agree))
      | inr (granted, inr down) ↦ rw down (ground (arith, gone, keyed, agree))
    ]

reuses-same :
    (path_mode localaddr : String) (t : Stream)
    → reuses path_mode localaddr t ≡ true
    → (t.path_mode ≡ path_mode) × (t.localaddr ≡ localaddr)
unfolding reuses
reuses-same path_mode localaddr t h = (
  (==_iff t.path_mode path_mode).0 (ground arith),
  (==_iff t.localaddr localaddr).0 (ground arith),
)

-- On a service whose streams each have a lease of their own, `ensure`, however it ends, acts on the
-- table of streams as `table_after` says: a success enters the request, an invalid request changes
-- nothing, and a refused or failed start leaves no stream of the key; no other key changes.
pub view-ensure :
    (launches : Bool) (id now : ℕ) (r : Request) (s : Service) (j : Text)
    → IsSound s
    → view (ensure launches id now r s).0 j
      ≡ table_after (ensure launches id now r s).1 r (view s) j
unfolding ensure ensure_locked put_stream touched reuses
view-ensure launches id now r s j v =
    let key = make_key r.host r.port in
    elim (Option-cases (parse_key key)) [
      | inl bad ↦ rw (ensure, bad) refl
      | inr (p, parsed) ↦ elim (Option-cases (lookup key s.streams)) [
        | inl gone ↦
            rw (ensure, parsed, ensure_locked, gone)
              (view-start_stream launches id now r s (view s) j gone (λ e. refl))
        | inr (t, found) ↦ elim (Bool-cases (reuses r.path_mode r.localaddr t)) [
          | inl same ↦
              let reuses_same = reuses-same r.path_mode r.localaddr t same in
              rw (ensure, parsed, ensure_locked, found, same)
                (ground (
                  arith,
                  lookup-insert key j (touched now t) s.streams,
                  reuses_same,
                  (==_iff key j).0,
                  found,
                ))
          | inr other ↦
              rw (ensure, parsed, ensure_locked, found, other)
                (view-start_stream launches id now r (stop key s) (view s) j
                  (lookup-stop key key s v ∙ rw (==_refl key) refl)
                  (λ e. view-stop key j s v ∙ rw e refl))
        ]
      ]
    ]
