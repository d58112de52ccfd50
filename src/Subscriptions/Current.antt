-- ===== src/Subscriptions/Current.antt =====
-- The catalogue names current sources only, under identifiers that are safe in a URL.
use iptv_sniffer_web.Base.{
  ◌≡◌, refl, ◌∙◌, ◌⊎◌, inl, inr, true, false, Option, List, [], ◌∷◌, arith, ◌==◌, nat_eq, string_eq,
  pair_eq, list_eq, Bool-cases, length, take, All, All-append, Text,
}
use iptv_sniffer_web.Base.Dict.{Dict, insert, contains, All-insert}
use iptv_sniffer_web.Ranking.{has_prefix}
use iptv_sniffer_web.Exports.{or_text}
use iptv_sniffer_web.Subscriptions.Names.{Letters}
use iptv_sniffer_web.Subscriptions.{
  Row, Operator, is_stable_id, valid_stable_channel_id, channel_candidate, stable_channel_id,
  operator_id, fingerprint, operator_row, is_endpoint, Candidate, operator_candidates, is_manual,
  manual_candidates, candidates, catalog_id, build_catalog, stable_channel_catalog,
}

-- The sixteen digits of a digest and the prefix of a generated identifier make a valid one.
abbrev pub MakesIds : (Text → Text) → Type 0
MakesIds sha1 = (t : Text) → is_stable_id (109 ∷ 45 ∷ take 16 (sha1 t)) ≡ true

valid_stable_channel_id-IsSafe :
    (t d : Text)
    → is_stable_id d ≡ true
    → is_stable_id (or_text (valid_stable_channel_id t) d) ≡ true
unfolding valid_stable_channel_id or_text
valid_stable_channel_id-IsSafe [] d h = elim (Bool-cases (is_stable_id [])) [
  | inl ok ↦ rw ok h
  | inr bad ↦ rw bad h
]
valid_stable_channel_id-IsSafe (c ∷ cs) d h = elim (Bool-cases (is_stable_id (c ∷ cs))) [
  | inl ok ↦ rw ok ok
  | inr bad ↦ rw bad h
]

channel_candidate-IsSafe :
    (t d : Text) → is_stable_id d ≡ true → is_stable_id (or_text (channel_candidate t) d) ≡ true
unfolding channel_candidate or_text
channel_candidate-IsSafe t d h = elim (Bool-cases (length t == 0)) [
  | inl blank ↦ rw blank h
  | inr given ↦ rw given (valid_stable_channel_id-IsSafe _ d h)
]

-- Where digests make valid identifiers, every channel's identifier is a letter or digit and at most 95
-- letters, digits, dots, dashes and underscores, whatever the operator and the stored row say.
pub stable_channel_id-IsSafe :
    (letters : Letters) (sha1 : Text → Text) (r : Row) (o : Option Operator)
    → ((t : Text) → is_stable_id (109 ∷ 45 ∷ take 16 (sha1 t)) ≡ true)
    → is_stable_id (stable_channel_id letters sha1 r o) ≡ true
unfolding stable_channel_id
stable_channel_id-IsSafe letters sha1 r o h =
    channel_candidate-IsSafe (or_text (operator_id o) r.channel_id) _
      (valid_stable_channel_id-IsSafe r.stable_id _ (h (fingerprint letters r)))

abbrev pub Has : Text → Row → Dict Text Row → Type 0
Has key r [] = ⊥
Has key r ((k, s) ∷ d) = ((k ≡ key) × (s ≡ r)) ⊎ Has key r d

-- The table gives this operator under this key.
abbrev pub HasOperator : Text → Operator → Dict Text Operator → Type 0
HasOperator key o [] = ⊥
HasOperator key o ((k, p) ∷ ops) = ((k ≡ key) × (p ≡ o)) ⊎ HasOperator key o ops

-- A row that is current: the valid endpoint that the operator's table gives under its key now, or a
-- stored source whose key is not in that table and whose identifier came from none.
pub data IsCurrent (stored : Dict Text Row) (ops : Dict Text Operator) (r : Row) : Type 0 where
  listed :
      (o : Operator)
      → HasOperator r.key o ops
      → is_endpoint o ≡ true
      → r.host ≡ o.host
      → r.port ≡ o.port
      → IsCurrent stored ops r
  manual :
      (key : Text) (s : Row)
      → Has key s stored
      → contains key ops ≡ false
      → has_prefix (99 ∷ 45 ∷ []) s.stable_id ≡ false
      → r.host ≡ s.host
      → r.port ≡ s.port
      → IsCurrent stored ops r

-- What the naming of a row leaves alone.
abbrev pub KeepsPlace : (Row → Row) → Type 0
KeepsPlace fill =
    (r : Row) → ((fill r).key ≡ r.key) × ((fill r).host ≡ r.host) × ((fill r).port ≡ r.port)

IsCurrent-place :
    (stored : Dict Text Row) (ops : Dict Text Operator) (r s : Row)
    → s.key ≡ r.key
    → s.host ≡ r.host
    → s.port ≡ r.port
    → IsCurrent stored ops r
    → IsCurrent stored ops s
IsCurrent-place stored ops r s k h p (listed o there ok host port) =
    listed o (rw k there) ok (h ∙ host) (p ∙ port)
IsCurrent-place stored ops r s k h p (manual key t has new own host port) =
    manual key t has new own (h ∙ host) (p ∙ port)

abbrev Keyed : Dict Text Operator → Dict Text Operator → Type 0
Keyed ops sub = All (λ e. HasOperator e.0 e.1 ops) sub

Keyed-cons :
    (k : Text) (o : Operator) (ops sub : Dict Text Operator)
    → Keyed ops sub
    → Keyed ((k, o) ∷ ops) sub
Keyed-cons k o ops [] a = tt
Keyed-cons k o ops ((j, p) ∷ sub) a = (inr a.0, Keyed-cons k o ops sub a.1)

Keyed-self : (ops : Dict Text Operator) → Keyed ops ops
Keyed-self [] = tt
Keyed-self ((k, o) ∷ ops) = (inl (refl, refl), Keyed-cons k o ops ops (Keyed-self ops))

module _ (stored : Dict Text Row) (ops : Dict Text Operator) where
  abbrev AreCurrent : List Candidate → Type 0
  AreCurrent cs = All (λ c. IsCurrent stored ops c.0) cs

  operator_candidates-AreCurrent :
      (sub : Dict Text Operator) → Keyed ops sub → AreCurrent (operator_candidates stored sub)
  unfolding operator_candidates operator_row
  operator_candidates-AreCurrent [] a = tt
  operator_candidates-AreCurrent ((key, o) ∷ sub) a = elim (Bool-cases (is_endpoint o)) [
    | inl ok ↦ rw ok (listed o a.0 ok refl refl, operator_candidates-AreCurrent sub a.1)
    | inr bad ↦ rw bad (operator_candidates-AreCurrent sub a.1)
  ]

  manual_candidates-AreCurrent :
      (sub : Dict Text Row)
      → ((key : Text) (r : Row) → Has key r sub → Has key r stored)
      → AreCurrent (manual_candidates ops sub)
  unfolding manual_candidates is_manual
  manual_candidates-AreCurrent [] f = tt
  manual_candidates-AreCurrent ((key, r) ∷ sub) f =
      let rest = manual_candidates-AreCurrent sub (λ k s h. f k s (inr h)) in
      elim (Bool-cases (is_manual ops key r)) [
        | inl own ↦ rw own (
          manual key r (f key r (inl (refl, refl))) (ground (arith, own)) (ground (arith, own)) refl
              refl,
          rest,
        )
        | inr other ↦ rw other rest
      ]

  -- An entry of the catalogue: a named current source under its own identifier.
  pub record IsEntry (entry : Text × Candidate) : Type 0 where
    pub named : (length (entry.1).0.name == 0) ≡ false
    pub same_id : (entry.1).0.stable_id ≡ entry.0
    pub is_current : IsCurrent stored ops (entry.1).0

  build_catalog-IsEntry :
      (letters : Letters) (sha1 : Text → Text) (fill : Row → Row) (cs : List Candidate)
      (catalog : Dict Text Candidate)
      → KeepsPlace fill
      → AreCurrent cs
      → All IsEntry catalog
      → All IsEntry (build_catalog letters sha1 fill cs catalog)
  unfolding build_catalog
  build_catalog-IsEntry letters sha1 fill [] catalog f a e = e
  build_catalog-IsEntry letters sha1 fill ((r, o) ∷ cs) catalog f a e =
      let row = fill r in
      let id = catalog_id sha1 row (stable_channel_id letters sha1 row o) catalog in
      elim (Bool-cases (length row.name == 0)) [
        | inl blank ↦ rw blank (build_catalog-IsEntry letters sha1 fill cs catalog f a.1 e)
        | inr given ↦ rw given (
            build_catalog-IsEntry letters sha1 fill cs
              (insert id (record row { stable_id = id }, o) catalog) f a.1
              (All-insert IsEntry id (record row { stable_id = id }, o) catalog e
                (record {
                  named = given;
                  same_id = refl;
                  is_current =
                      IsCurrent-place stored ops r (record row { stable_id = id }) (f r).0 (f r).1
                        (f r).2 a.0;
                })))
      ]

-- With an operator's table that is not empty, and a naming that leaves key, host and port of a row
-- alone, every entry of the catalogue has a name, stands under its own stable identifier, and is
-- current: its host and port are the valid endpoint that the table gives under the entry's own key, or
-- they are those of a stored source whose key is not in the table and whose identifier came from none.
pub stable_channel_catalog-IsEntry :
    (letters : Letters) (sha1 : Text → Text) (fill : Row → Row) (stored : Dict Text Row)
    (key : Text) (o : Operator) (ops : Dict Text Operator)
    → KeepsPlace fill
    → All
        (IsEntry stored ((key, o) ∷ ops))
        (stable_channel_catalog letters sha1 fill stored ((key, o) ∷ ops))
unfolding stable_channel_catalog candidates
stable_channel_catalog-IsEntry letters sha1 fill stored key o ops f =
    let table = (key, o) ∷ ops in
    build_catalog-IsEntry stored table letters sha1 fill _ [] f
      (All-append (λ c. IsCurrent stored table c.0) (operator_candidates stored table)
        (manual_candidates table stored)
        (operator_candidates-AreCurrent stored table table (Keyed-self table))
        (manual_candidates-AreCurrent stored table stored (λ k r h. h)))
      tt
