-- ===== src/Stores/Coherence.antt =====
-- What the stores give back after they were written.
use iptv_sniffer_web.Base.{
  ℕ, ◌<◌, ◌≡◌, refl, sym, inl, inr, Bool, true, false, some, List, [], ◌∷◌, arith, nat_eq,
  string_eq, pair_eq, list_eq, Bool-cases, Option-cases, length, All, ==_iff, ==_refl, Text,
}
use iptv_sniffer_web.Stores.{
  Operator, read_file, load_channels, dump_json, save_dict, clear, invalidate, rewrite_file,
  save_if_unchanged, is_one_of, normalize, save_subscription, non_empty, load_subscription,
}

normalize-fresh :
    (id : Text) (seen ids : List Text)
    → is_one_of id seen ≡ true
    → is_one_of id (normalize seen ids) ≡ false
unfolding normalize is_one_of
normalize-fresh id seen [] h = refl
normalize-fresh id seen (i ∷ ids) h =
    ground (arith, ==_iff i id, normalize-fresh id (i ∷ seen) ids, normalize-fresh id seen ids)

-- No text twice.
abbrev pub IsUnique : List Text → Type 0
IsUnique [] = Unit {0}
IsUnique (i ∷ is) = (is_one_of i is ≡ false) × IsUnique is

normalize-IsUnique : (seen ids : List Text) → IsUnique (normalize seen ids)
unfolding normalize
normalize-IsUnique seen [] = tt
normalize-IsUnique seen (i ∷ ids) = ground (
  arith,
  normalize-IsUnique (i ∷ seen) ids,
  normalize-IsUnique seen ids,
  normalize-fresh i (i ∷ seen) ids (unfold is_one_of in rw (==_refl i)),
)

non_empty-normalize : (seen ids : List Text) → non_empty (normalize seen ids) ≡ normalize seen ids
unfolding normalize non_empty
non_empty-normalize seen [] = refl
non_empty-normalize seen (i ∷ ids) =
    ground (arith, non_empty-normalize (i ∷ seen) ids, non_empty-normalize seen ids)

is_one_of-normalize :
    (id : Text) (seen ids : List Text)
    → 0 < length id
    → is_one_of id seen ≡ false
    → is_one_of id (normalize seen ids) ≡ is_one_of id ids
unfolding normalize is_one_of
is_one_of-normalize id seen [] h k = refl
is_one_of-normalize id seen (i ∷ ids) h k =
    ground (
      arith,
      ==_iff i id,
      is_one_of-normalize id (i ∷ seen) ids h,
      is_one_of-normalize id seen ids h,
    )

-- A saved subscription is loaded as it was saved; it has each channel once, and a channel is in it
-- exactly if it was asked for and is not empty.
pub load_subscription-save_subscription :
    (now : ℕ) (ids : List Text) (id : Text)
    → 0 < length id
    → let s = load_subscription (some (save_subscription now ids)) in
      (s ≡ save_subscription now ids)
      × IsUnique s.candidate_ids
      × (is_one_of id s.candidate_ids ≡ is_one_of id ids)
unfolding load_subscription save_subscription
load_subscription-save_subscription now ids id h =
    rw (non_empty-normalize [] ids)
      (refl, normalize-IsUnique [] ids, is_one_of-normalize id [] ids h (unfold is_one_of in refl))

-- One call on the table of the operator's channels, and whether the write that it makes succeeds; a
-- restore rewrites the file behind the store, and need not get to its `invalidate`.
pub data Change {ℓ} (T : Type ℓ) : Type ℓ where
  loads invalidates : Change T
  clears : Bool → Change T
  saves : Bool → T → Change T
  replaces : Bool → T → T → Change T
  rewrites : T → Change T

-- A call that does not fail to write, and is not a restore.
abbrev pub Writes {ℓ} : {T : Type ℓ} → Change T → Type 0
Writes loads = Unit
Writes invalidates = Unit
Writes (clears writes) = writes ≡ true
Writes (saves writes t) = writes ≡ true
Writes (replaces writes old new) = writes ≡ true
Writes (rewrites t) = ⊥

module _ {ℓ} {T : Type ℓ} (nothing : T) (same : T → T → Bool) where
  abbrev pub change : Change T → Operator T → Operator T
  change loads s = (load_channels nothing s).0
  change invalidates s = invalidate nothing s
  change (clears writes) s = (clear nothing writes s).0
  change (saves writes t) s = (save_dict nothing writes t s).0
  change (replaces writes old new) s = (save_if_unchanged nothing same writes old new s).0
  change (rewrites t) s = rewrite_file nothing t s

  abbrev pub change_all : List (Change T) → Operator T → Operator T
  change_all [] s = s
  change_all (c ∷ cs) s = change_all cs (change c s)

  -- The cache, if there is one, is what the file holds.
  abbrev IsCoherent : Operator T → Type ℓ
  IsCoherent s = (t : T) → s.cache ≡ some t → read_file nothing s ≡ t

  load_channels-IsCoherent :
      (s : Operator T) → IsCoherent s → IsCoherent (load_channels nothing s).0
  unfolding load_channels read_file
  load_channels-IsCoherent s h t e = elim (Option-cases s.cache) [
    | inl empty ↦ ground (arith, empty)
    | inr (c, full) ↦ ground (arith, full, h t)
  ]

  save_if_unchanged-IsCoherent :
      (old new : T) (s : Operator T)
      → IsCoherent s
      → IsCoherent (save_if_unchanged nothing same true old new s).0
  unfolding save_if_unchanged save_dict dump_json read_file
  save_if_unchanged-IsCoherent old new s h t e =
      elim (Bool-cases (same (load_channels nothing s).1 old)) [
        | inl unchanged ↦ ground (arith, unchanged)
        | inr differs ↦ ground (arith, differs, load_channels-IsCoherent s h t)
      ]

  change-IsCoherent :
      (c : Change T) (s : Operator T) → Writes c → IsCoherent s → IsCoherent (change c s)
  unfolding read_file save_dict clear dump_json invalidate save_if_unchanged
  change-IsCoherent loads s w h = load_channels-IsCoherent s h
  change-IsCoherent invalidates s w h = λ t e. absurd cc
  change-IsCoherent (clears writes) s w h = rw w (λ t e. ground arith)
  change-IsCoherent (saves writes u) s w h = rw w (λ t e. ground arith)
  change-IsCoherent (replaces writes old new) s w h =
      rw w (save_if_unchanged-IsCoherent old new s h)
  change-IsCoherent (rewrites u) s w h = absurd w

  change_all-IsCoherent :
      (cs : List (Change T)) (s : Operator T)
      → All Writes cs
      → IsCoherent s
      → IsCoherent (change_all cs s)
  change_all-IsCoherent [] s w h = h
  change_all-IsCoherent (c ∷ cs) s w h =
      change_all-IsCoherent cs (change c s) w.1 (change-IsCoherent c s w.0 h)

  invalidate-IsCoherent : (s : Operator T) → IsCoherent (invalidate nothing s)
  unfolding invalidate
  invalidate-IsCoherent s t e = absurd cc

  load_channels-coherent :
      (s : Operator T) → IsCoherent s → (load_channels nothing s).1 ≡ read_file nothing s
  unfolding load_channels
  load_channels-coherent s h = elim (Option-cases s.cache) [
    | inl empty ↦ rw (load_channels, empty)
    | inr (t, full) ↦ rw (load_channels, full) (sym (h t full))
  ]

  -- After an `invalidate`, whatever came before it, failed writes and restores that stopped halfway
  -- included, and after any further calls that write without failure and restore nothing, loading the
  -- table gives what its file holds.
  pub load_channels-change_all :
      (before since : List (Change T)) (s : Operator T)
      → All Writes since
      → let now = change_all since (invalidate nothing (change_all before s)) in
        (load_channels nothing now).1 ≡ read_file nothing now
  load_channels-change_all before since s w =
      load_channels-coherent _
        (change_all-IsCoherent since _ w (invalidate-IsCoherent (change_all before s)))

  -- A save whose write fails raises and leaves the store showing the new table over the old file.
  save_dict_failed :
      (t : T) (s : Operator T)
      → let (after, saved) = save_dict nothing false t s in
        (saved ≡ false) × ((load_channels nothing after).1 ≡ t) × (after.file ≡ s.file)
  unfolding save_dict dump_json load_channels
  save_dict_failed t s = (refl, refl, refl)
