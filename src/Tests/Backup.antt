-- ===== src/Tests/Backup.antt =====
-- A restore of two files, one of which was there, with a disk that fails at the second write.
use iptv_sniffer_web.Base.{
  ◌≡◌, refl, ◌≢◌, false, none, some, [], ◌∷◌, ◌==◌, nat_eq, string_eq, pair_eq, list_eq,
}
use iptv_sniffer_web.Base.Dict.{lookup, contains}
use iptv_sniffer_web.Backup.{
  Disk, Entries, Faults, unfinished, originals_of, write_entries, put_back, roll_back, commit,
}
use iptv_sniffer_web.Backup.Atomic.{
  IsStaged, commit-rolled_back, commit-committed, commit-ne-unfinished,
}

abbrev entries : Entries
entries = (1, 10 ∷ []) ∷ (2, 20 ∷ []) ∷ []

abbrev disk : Disk
disk = (2, 5 ∷ []) ∷ (3, 6 ∷ []) ∷ []

abbrev failing : Faults
failing = record { prepare = false; replace = λ n. n == 1; put_back = λ t. false }

abbrev healthy : Faults
healthy = record { prepare = false; replace = λ n. false; put_back = λ t. false }

commit-rolled_back_example : lookup 1 (commit failing entries disk).0 ≡ lookup 1 disk
unfolding commit originals_of write_entries roll_back put_back
commit-rolled_back_example = commit-rolled_back failing entries disk 1 refl

staged : IsStaged entries
unfolding contains
staged = (refl, (refl, tt))

commit-committed_example :
    lookup 1 (commit healthy entries disk).0
    ≡ elim (lookup 1 entries) [ none ↦ lookup 1 disk | some c ↦ some c ]
unfolding commit write_entries
commit-committed_example = commit-committed healthy entries disk 1 staged refl

commit-ne-unfinished_example : (commit failing entries disk).1 ≢ unfinished
commit-ne-unfinished_example = commit-ne-unfinished failing entries disk (λ t. refl)
