-- ===== src/Storage/Index/Names.antt =====
-- Table names of indexes, and what is read back from them.
use graphdblite.Base.{
  some, List, [], ◌∷◌, ◌++◌, append_assoc, drop-append, if◌then◌else◌, starts_with-append, Bytes,
  text, ◌≡◌, refl, sym, ap, Bool, true, false, ◌∙◌, inl, inr, All, Bool-cases,
}
use graphdblite.Types.Error.{Result, ok, err, Result-cases}
use graphdblite.Types.Name.{validate_name, validate_name-IsPlain, IsPlain}
use graphdblite.Storage.Index.{
  and_then, was_seen, duplicate, check_properties, join, if_ok, composite_index_table_name,
  strip_prefix, split, parse_composite_table_name, legacy_single_index_table_name, fall_back,
  resolve_index_table,
}

split-one : (p : Bytes) → IsPlain p → split p ≡ p ∷ []
split-one [] h = refl
split-one (c ∷ cs) (b, h) = rw (b.2, split-one cs h) refl

split-append : (p rest : Bytes) → IsPlain p → split (p ++ b'$' ∷ rest) ≡ p ∷ split rest
split-append [] rest h = refl
split-append (c ∷ cs) rest (b, h) = rw (b.2, split-append cs rest h) refl

-- Joined names come apart again.
split-join : (p : Bytes) (ps : List Bytes) → All IsPlain (p ∷ ps) → split (join (p ∷ ps)) ≡ p ∷ ps
split-join p [] (h, hs) = split-one p h
split-join p (q ∷ ps) (h, hs) = rw (split-append p (join (q ∷ ps)) h, split-join q ps hs) refl

strip_prefix-append : (prefix rest : Bytes) → strip_prefix prefix (prefix ++ rest) ≡ some rest
strip_prefix-append prefix rest = rw (starts_with-append prefix rest, drop-append prefix rest) refl

and_then-ok : (a b : Result (Unit {0})) → and_then a b ≡ ok tt → (a ≡ ok tt) × (b ≡ ok tt)
and_then-ok (ok u) b h = (refl, h)
and_then-ok (err e) b h = cc

pub if_ok-ok :
    (r : Result (Unit {0})) (name n : Bytes) → if_ok r name ≡ ok n → (r ≡ ok tt) × (name ≡ n)
if_ok-ok (ok u) name n h = (refl, cc)
if_ok-ok (err e) name n h = cc

check_properties-IsPlain :
    (seen ps : List Bytes) → check_properties seen ps ≡ ok tt → All IsPlain ps
check_properties-IsPlain seen [] h = tt
check_properties-IsPlain seen (p ∷ ps) h =
    let (name, more) =
      and_then-ok (validate_name p)
        (if was_seen p seen then duplicate p else check_properties (p ∷ seen) ps) h in
    elim (Bool-cases (was_seen p seen)) [
      | inl old ↦ cc (rw old at more)
      | inr new ↦
          (validate_name-IsPlain p name, check_properties-IsPlain (p ∷ seen) ps (rw new at more))
    ]

-- A name that was given is that of its label and properties, all of them plain.
named :
    (label : Bytes) (ps : List Bytes) (name : Bytes)
    → composite_index_table_name label ps ≡ ok name
    → (q : Bytes) × (qs : List Bytes) × (ps ≡ q ∷ qs)
      × (name ≡ text "node_idx$" ++ (label ++ b'$' ∷ join ps))
      × IsPlain label
      × All IsPlain ps
unfolding composite_index_table_name
named label [] name h = cc
named label (p ∷ ps) name h =
    let (checked, e) =
      if_ok-ok (and_then (validate_name label) (check_properties [] (p ∷ ps)))
        (text "node_idx$" ++ (label ++ b'$' ∷ join (p ∷ ps))) name h in
    let (plain, props) = and_then-ok (validate_name label) (check_properties [] (p ∷ ps)) checked in
    (
      p,
      ps,
      refl,
      sym e,
      validate_name-IsPlain label plain,
      check_properties-IsPlain [] (p ∷ ps) props,
    )

-- The properties of an index are read back from the name of its table, in their order.
pub parse_composite_table_name-composite_index_table_name :
    (label : Bytes) (properties : List Bytes) (name : Bytes)
    → composite_index_table_name label properties ≡ ok name
    → parse_composite_table_name name label ≡ some properties
unfolding parse_composite_table_name
parse_composite_table_name-composite_index_table_name label properties name h =
    let (q, qs, e, shape, plain, props) = named label properties name h in
    let inner : strip_prefix (label ++ b'$' ∷ []) (label ++ b'$' ∷ join (q ∷ qs))
        ≡ some (join (q ∷ qs)) =
      rw (sym (append_assoc label (b'$' ∷ []) (join (q ∷ qs))))
        (strip_prefix-append (label ++ b'$' ∷ []) (join (q ∷ qs))) in
    rw (shape, e, inner, split-join q qs (rw e at props)) refl

-- Two indexes whose tables have one name have the same label and the same properties in the same
-- order.
composite_index_table_name-IsUnique :
    (label label' : Bytes) (properties properties' : List Bytes) (name : Bytes)
    → composite_index_table_name label properties ≡ ok name
    → composite_index_table_name label' properties' ≡ ok name
    → (label ≡ label') × (properties ≡ properties')
composite_index_table_name-IsUnique label label' properties properties' name h h' =
    let (q, qs, e, shape, plain, props) = named label properties name h in
    let (q', qs', e', shape', plain', props') = named label' properties' name h' in
    let parts : split name ≡ text "node_idx" ∷ label ∷ properties =
      rw (shape, e, split-append label (join (q ∷ qs)) plain, split-join q qs (rw e at props))
        refl in
    let parts' : split name ≡ text "node_idx" ∷ label' ∷ properties' =
      rw
        (
          shape',
          e',
          split-append label' (join (q' ∷ qs')) plain',
          split-join q' qs' (rw e' at props'),
        )
        refl in
    let same : text "node_idx" ∷ label ∷ properties ≡ text "node_idx" ∷ label' ∷ properties' =
      sym parts ∙ parts' in
    (cc, cc)

-- No table has a legacy name.
abbrev pub HasNoLegacy : (Bytes → Result Bool) → Type 0
HasNoLegacy table_exists =
    (label property legacy : Bytes)
    → legacy_single_index_table_name label property ≡ ok legacy
    → table_exists legacy ≡ ok false

fall_back-ok :
    (table_exists : Bytes → Result Bool) (label : Bytes) (properties : List Bytes)
    (canonical name : Bytes)
    → HasNoLegacy table_exists
    → fall_back table_exists label properties canonical ≡ ok name
    → canonical ≡ name
fall_back-ok table_exists label [] canonical name none h = cc
fall_back-ok table_exists label (p ∷ []) canonical name none h =
    elim (Result-cases (legacy_single_index_table_name label p)) [
      | inl (e, failed) ↦ cc (rw failed at h)
      | inr (legacy, found) ↦ let absent = none label p legacy found in cc (rw (found, absent) at h)
    ]
fall_back-ok table_exists label (p ∷ (q ∷ ps)) canonical name none h = cc

-- Without legacy tables an index is resolved to the canonical name of its label and properties.
resolved :
    (table_exists : Bytes → Result Bool) (label : Bytes) (properties : List Bytes) (name : Bytes)
    → HasNoLegacy table_exists
    → resolve_index_table table_exists label properties ≡ ok name
    → composite_index_table_name label properties ≡ ok name
unfolding resolve_index_table
resolved table_exists label properties name none h =
    elim (Result-cases (composite_index_table_name label properties)) [
      | inl (e, failed) ↦ cc (rw failed at h)
      | inr (canonical, built) ↦ elim (Result-cases (table_exists canonical)) [
        | inl (e, failed) ↦ cc (rw (built, failed) at h)
        | inr (true, found) ↦
            let same : canonical ≡ name = cc (rw (built, found) at h) in rw built (ap ok same)
        | inr (false, absent) ↦ rw built (
            ap ok (
              fall_back-ok table_exists label properties canonical name none
                (rw (built, absent) at h)))
      ]
    ]

-- Where no table has a legacy name, two indexes that are resolved to one table name, whichever tables
-- exist, have the same label and the same properties in the same order. Names are compared byte by
-- byte.
pub resolve_index_table-IsUnique :
    (table_exists : Bytes → Result Bool) (label label' : Bytes)
    (properties properties' : List Bytes) (name : Bytes)
    → HasNoLegacy table_exists
    → resolve_index_table table_exists label properties ≡ ok name
    → resolve_index_table table_exists label' properties' ≡ ok name
    → (label ≡ label') × (properties ≡ properties')
resolve_index_table-IsUnique table_exists label label' properties properties' name none h h' =
    composite_index_table_name-IsUnique label label' properties properties' name
      (resolved table_exists label properties name none h)
      (resolved table_exists label' properties' name none h')
