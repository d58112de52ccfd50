-- ===== src/Records/Seen.antt =====
-- Saving in bulk is saving one by one, and when a server was first seen is never forgotten.
use iptv_sniffer_web.Base.{
  ℕ, ◌+◌, ◌<◌, ◌≡◌, refl, ◌∙◌, inl, inr, Bool, true, none, some, List, [], ◌∷◌, arith,
  if◌then◌else◌, ◌==◌, nat_eq, string_eq, pair_eq, list_eq, Bool-cases, Option-cases, ==_iff, Text,
}
use iptv_sniffer_web.Base.Dict.{Dict, insert, lookup-insert}
use iptv_sniffer_web.Records.{
  or_time, FccRecord, FccEntry, current_fcc, fcc_entry, accepted_port, FccStore, save_fcc,
  bulk_rows, bulk_save,
}

-- The records with the time of the bulk.
abbrev pub stamped : ℕ → FccRecord → FccRecord
stamped now r = record r { discovered_at = some now }

-- Records saved one by one, and how many were accepted.
abbrev pub save_each : (Text → Bool) → ℕ → List FccRecord → FccStore → FccStore
save_each is_ipv6 now [] s = s
save_each is_ipv6 now (r ∷ rs) s = save_each is_ipv6 now rs (save_fcc is_ipv6 (stamped now r) s).0

abbrev pub count_accepted : (Text → Bool) → List FccRecord → ℕ
count_accepted is_ipv6 [] = 0
count_accepted is_ipv6 (r ∷ rs) =
    (elim (accepted_port is_ipv6 r) [ none ↦ 0 | some port ↦ 1 ]) + count_accepted is_ipv6 rs

accepted_port-stamped :
    (is_ipv6 : Text → Bool) (now : ℕ) (r : FccRecord)
    → accepted_port is_ipv6 (stamped now r) ≡ accepted_port is_ipv6 r
unfolding accepted_port
accepted_port-stamped is_ipv6 now r = refl

save_stamped :
    (is_ipv6 : Text → Bool) (now : ℕ) (r : FccRecord) (s : FccStore)
    → (accepted_port is_ipv6 r ≡ none → (save_fcc is_ipv6 (stamped now r) s).0 ≡ s)
      × ((port : ℕ)
          → accepted_port is_ipv6 r ≡ some port
          → (save_fcc is_ipv6 (stamped now r) s).0 ≡ record {
            rows = insert r.key (fcc_entry r port (some now) (current_fcc r.key s.rows)) s.rows;
            writes = s.writes + 1;
          })
unfolding save_fcc fcc_entry
save_stamped is_ipv6 now r s = (
  λ e. rw (save_fcc, accepted_port-stamped is_ipv6 now r, e) refl,
  λ port e. rw (save_fcc, accepted_port-stamped is_ipv6 now r, e) refl,
)

bulk_rows-save_each :
    (is_ipv6 : Text → Bool) (now : ℕ) (rs : List FccRecord) (s : FccStore) (saved : ℕ)
    → bulk_rows is_ipv6 now rs s.rows saved
      ≡ ((save_each is_ipv6 now rs s).rows, saved + count_accepted is_ipv6 rs)
unfolding bulk_rows
bulk_rows-save_each is_ipv6 now [] s saved = ground arith
bulk_rows-save_each is_ipv6 now (r ∷ rs) s saved = elim (Option-cases (accepted_port is_ipv6 r)) [
  | inl refused ↦
      rw (bulk_rows, save_each, refused, (save_stamped is_ipv6 now r s).0 refused)
        (bulk_rows-save_each is_ipv6 now rs s saved ∙ ground arith)
  | inr (port, accepted) ↦
      let next : FccStore = record {
        rows = insert r.key (fcc_entry r port (some now) (current_fcc r.key s.rows)) s.rows;
        writes = s.writes + 1;
      } in
      rw (bulk_rows, save_each, accepted, (save_stamped is_ipv6 now r s).1 port accepted)
        (bulk_rows-save_each is_ipv6 now rs next (saved + 1) ∙ ground arith)
]

-- Saving records in bulk gives the rows that saving them one by one at the same time gives, tells how
-- many were acceptable, and writes the file once if there were any and else not at all.
pub bulk_save-save_each :
    (is_ipv6 : Text → Bool) (now : ℕ) (rs : List FccRecord) (s : FccStore)
    → ((bulk_save is_ipv6 now rs s).0.rows ≡ (save_each is_ipv6 now rs s).rows)
      × ((bulk_save is_ipv6 now rs s).1 ≡ count_accepted is_ipv6 rs)
      × ((bulk_save is_ipv6 now rs s).0.writes
          ≡ (if count_accepted is_ipv6 rs == 0 then s.writes else s.writes + 1))
unfolding bulk_save
bulk_save-save_each is_ipv6 now rs s =
    rw (bulk_rows-save_each is_ipv6 now rs s 0) (refl, omega arith, ground arith)

-- The time at which a key was first seen, where it is known.
abbrev pub IsSeen : Text → ℕ → FccStore → Type 0
IsSeen key t s = (current_fcc key s.rows).first_seen ≡ some t

current_fcc-insert :
    (k key : Text) (e : FccEntry) (rows : Dict Text FccEntry)
    → current_fcc key (insert k e rows) ≡ (if k == key then e else current_fcc key rows)
unfolding current_fcc
current_fcc-insert k key e rows = ground (arith, lookup-insert k key e rows)

save_fcc-IsSeen :
    (is_ipv6 : Text → Bool) (key : Text) (t : ℕ) (r : FccRecord) (s : FccStore)
    → 0 < t
    → IsSeen key t s
    → IsSeen key t (save_fcc is_ipv6 r s).0
unfolding save_fcc
save_fcc-IsSeen is_ipv6 key t r s pos h = elim (Option-cases (accepted_port is_ipv6 r)) [
  | inl refused ↦ rw (save_fcc, refused) h
  | inr (port, accepted) ↦
      let e = fcc_entry r port r.discovered_at (current_fcc r.key s.rows) in
      rw (save_fcc, accepted, current_fcc-insert r.key key e s.rows)
        (elim (Bool-cases (r.key == key)) [
          | inl same ↦ rw same (kept port same)
          | inr other ↦ rw other h
        ])
]
  where
    kept :
        (port : ℕ)
        → (r.key == key) ≡ true
        → (fcc_entry r port r.discovered_at (current_fcc r.key s.rows)).first_seen ≡ some t
    kept port same = unfold fcc_entry or_time in rw ((==_iff r.key key).0 same, h) (ground arith)

-- Any records, saved one by one or in bulk.
pub data Save : Type 0 where
  one : FccRecord → Save
  bulk : ℕ → List FccRecord → Save

abbrev pub save_all : (Text → Bool) → List Save → FccStore → FccStore
save_all is_ipv6 [] s = s
save_all is_ipv6 (one r ∷ ops) s = save_all is_ipv6 ops (save_fcc is_ipv6 r s).0
save_all is_ipv6 (bulk now rs ∷ ops) s = save_all is_ipv6 ops (bulk_save is_ipv6 now rs s).0

save_each-IsSeen :
    (is_ipv6 : Text → Bool) (key : Text) (t now : ℕ) (rs : List FccRecord) (s : FccStore)
    → 0 < t
    → IsSeen key t s
    → IsSeen key t (save_each is_ipv6 now rs s)
save_each-IsSeen is_ipv6 key t now [] s pos h = h
save_each-IsSeen is_ipv6 key t now (r ∷ rs) s pos h =
    save_each-IsSeen is_ipv6 key t now rs (save_fcc is_ipv6 (stamped now r) s).0 pos
      (save_fcc-IsSeen is_ipv6 key t (stamped now r) s pos h)

-- Once a server is stored for a key with the time, after 0, at which it was first seen, no saving of any
-- records, one by one or in bulk, changes that time.
pub save_all-IsSeen :
    (is_ipv6 : Text → Bool) (key : Text) (t : ℕ) (ops : List Save) (s : FccStore)
    → 0 < t
    → (current_fcc key s.rows).first_seen ≡ some t
    → (current_fcc key (save_all is_ipv6 ops s).rows).first_seen ≡ some t
save_all-IsSeen is_ipv6 key t [] s pos h = h
save_all-IsSeen is_ipv6 key t (one r ∷ ops) s pos h =
    save_all-IsSeen is_ipv6 key t ops (save_fcc is_ipv6 r s).0 pos
      (save_fcc-IsSeen is_ipv6 key t r s pos h)
save_all-IsSeen is_ipv6 key t (bulk now rs ∷ ops) s pos h =
    save_all-IsSeen is_ipv6 key t ops (bulk_save is_ipv6 now rs s).0 pos
      (rw (bulk_save-save_each is_ipv6 now rs s).0 (save_each-IsSeen is_ipv6 key t now rs s pos h))
