-- ===== src/Tests/Snapshot.antt =====
-- A cache with room for one image of eight bytes.
use iptv_sniffer_web.Base.{ℕ, ◌≡◌, refl, List, [], ◌∷◌, arith, nat_eq, string_eq, pair_eq, list_eq}
use iptv_sniffer_web.Snapshot.{Service, exits, cached, look_up, make, accept, is_jpeg, find}
use iptv_sniffer_web.Snapshot.Bounds.{look_up-make}

abbrev image : List ℕ
image = 0xFF ∷ 0xD8 ∷ 1 ∷ 0xFF ∷ 0xD9 ∷ []

abbrev service : Service
service = record {
  ttl = 30;
  max_entries = 1;
  max_bytes = 8;
  cache = (b'a' ∷ [], 90, 1 ∷ 2 ∷ 3 ∷ 4 ∷ []) ∷ [];
  pending = (b'b' ∷ []) ∷ [];
}

look_up-make_example :
    (look_up 110 (b'b' ∷ []) (make 100 (b'b' ∷ []) (exits 0 image) service).0).1 ≡ cached image
unfolding make accept is_jpeg find
look_up-make_example =
    look_up-make 100 110 (b'b' ∷ []) (exits 0 image) service image refl (omega arith) refl
      (omega arith) (omega arith)
