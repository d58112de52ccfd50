-- ===== src/Channels/Primary.antt =====
-- One primary source in a group.
use iptv_sniffer_web.Base.{
  ℕ, ◌≡◌, refl, sym, inl, inr, Bool, true, false, Option, none, some, List, [], ◌∷◌, arith, ltb,
  if◌then◌else◌, ◌==◌, nat_eq, string_eq, pair_eq, list_eq, Bool-cases, ltb→le, ==_iff, ==_refl,
  Text,
}
use iptv_sniffer_web.Base.Dict.{Dict, lookup, erase, lookup-erase, contains-lookup}
use iptv_sniffer_web.Channels.{
  Channel, Store, mark_primary, write_if, patch_group_primary, erase_keys, delete_keys,
}

-- What becomes of one channel.
abbrev pub marked : (Channel → Text) → Text → Text → Text → Channel → Channel
marked group_of group primary k c =
    if group_of c == group then record c { is_primary = k == primary } else c

abbrev pub map_option : (Channel → Channel) → Option Channel → Option Channel
map_option f none = none
map_option f (some c) = some (f c)

lookup-mark_primary :
    (group_of : Channel → Text) (group primary k : Text) (d : Dict Text Channel)
    → lookup k (mark_primary group_of group primary d).0
      ≡ map_option (marked group_of group primary k) (lookup k d)
unfolding mark_primary lookup
lookup-mark_primary group_of group primary k [] = refl
lookup-mark_primary group_of group primary k ((j, c) ∷ d) =
    ground (arith, ==_iff j k, lookup-mark_primary group_of group primary k d)

-- Where nothing was touched, nothing has changed.
mark_primary-same :
    (group_of : Channel → Text) (group primary : Text) (d : Dict Text Channel)
    → (mark_primary group_of group primary d).1 ≡ 0
    → (mark_primary group_of group primary d).0 ≡ d
unfolding mark_primary
mark_primary-same group_of group primary [] h = refl
mark_primary-same group_of group primary ((j, c) ∷ d) h =
    ground (arith, mark_primary-same group_of group primary d)

write_if-rows :
    (n : ℕ) (rows : Dict Text Channel) (s : Store)
    → (n ≡ 0 → rows ≡ s.rows)
    → (write_if (ltb 0 n) rows s).rows ≡ rows
unfolding write_if
write_if-rows n rows s h = elim (Bool-cases (ltb 0 n)) [
  | inl touched ↦ rw touched
  | inr untouched ↦ rw untouched (sym (h (omega (arith, ltb→le 0 n untouched))))
]

-- Making a channel of a group its primary source marks it, takes the mark from all others of the
-- group, and leaves every channel of other groups as it is.
pub patch_group_primary-marked :
    (group_of : Channel → Text) (group primary k : Text) (s : Store) (target : Channel)
    → lookup primary s.rows ≡ some target
    → group_of target ≡ group
    → lookup k ((patch_group_primary group_of group primary s).0).rows
      ≡ map_option (marked group_of group primary k) (lookup k s.rows)
unfolding patch_group_primary
patch_group_primary-marked group_of group primary k s target h g =
    let m = mark_primary group_of group primary s.rows in
    rw
      (
        patch_group_primary,
        h,
        g,
        ==_refl group,
        write_if-rows m.1 m.0 s (mark_primary-same group_of group primary s.rows),
      )
      (lookup-mark_primary group_of group primary k s.rows)

unfoldable pub has_key : Text → List Text → Bool
has_key k [] = false
has_key k (j ∷ js) = if j == k then true else has_key k js

lookup-erase_keys :
    (keys : List Text) (k : Text) (d : Dict Text Channel)
    → lookup k (erase_keys keys d).0 ≡ (if has_key k keys then none else lookup k d)
unfolding erase_keys has_key
lookup-erase_keys [] k d = refl
lookup-erase_keys (j ∷ js) k d = ground (
  arith,
  ==_iff j k,
  lookup-erase_keys js k (erase j d),
  lookup-erase_keys js k d,
  lookup-erase j k d,
  contains-lookup j d,
)

erase_keys-same :
    (keys : List Text) (d : Dict Text Channel)
    → (erase_keys keys d).1 ≡ 0
    → (erase_keys keys d).0 ≡ d
unfolding erase_keys
erase_keys-same [] d h = refl
erase_keys-same (j ∷ js) d h = ground (arith, erase_keys-same js d)

-- Deleting keys removes the channels under them and no other.
lookup-delete_keys :
    (keys : List Text) (k : Text) (s : Store)
    → lookup k ((delete_keys keys s).0).rows ≡ (if has_key k keys then none else lookup k s.rows)
unfolding delete_keys
lookup-delete_keys keys k s =
    let left = erase_keys keys s.rows in
    rw (write_if-rows left.1 left.0 s (erase_keys-same keys s.rows))
      (lookup-erase_keys keys k s.rows)
