-- ===== src/Tests/Stores.antt =====
-- A subscription with a repetition, and a table of channels that is restored behind its store.
use iptv_sniffer_web.Base.{
  ℕ, ◌≡◌, refl, true, false, none, some, List, [], ◌∷◌, arith, ◌==◌, nat_eq, string_eq, pair_eq,
  list_eq, Text,
}
use iptv_sniffer_web.Stores.{
  Operator, load_channels, read_file, invalidate, save_subscription, load_subscription, is_one_of,
}
use iptv_sniffer_web.Stores.Coherence.{
  IsUnique, load_subscription-save_subscription, Change, loads, saves, replaces, rewrites,
  change_all, load_channels-change_all,
}

abbrev asked : List Text
asked = (b'a' ∷ []) ∷ [] ∷ (b'b' ∷ []) ∷ (b'a' ∷ []) ∷ []

load_subscription-save_subscription_example :
    let s = load_subscription (some (save_subscription 7 asked)) in
    (s ≡ save_subscription 7 asked)
    × IsUnique s.candidate_ids
    × (is_one_of (b'a' ∷ []) s.candidate_ids ≡ is_one_of (b'a' ∷ []) asked)
load_subscription-save_subscription_example =
    load_subscription-save_subscription 7 asked (b'a' ∷ []) (omega arith)

abbrev failures : List (Change ℕ)
failures = saves false 3 ∷ loads ∷ rewrites 4 ∷ []

abbrev changes : List (Change ℕ)
changes = loads ∷ replaces true 4 5 ∷ []

abbrev cold : Operator ℕ
cold = record { file = some 1; cache = none }

load_channels-change_all_example :
    let now =
      change_all 0
        (λ a b. a == b)
        changes
        (invalidate 0 (change_all 0 (λ a b. a == b) failures cold)) in
    (load_channels 0 now).1 ≡ read_file 0 now
load_channels-change_all_example =
    load_channels-change_all 0 (λ a b. a == b) failures changes cold (tt, (refl, tt))
