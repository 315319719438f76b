-- ===== src/Affinity/Identity.antt =====
-- Node identity: `same_node` of core/lane_affinity.py.
use hermes_agent_cluster.Prelude.{
  String, ◌≡◌, ◌≢◌, refl, ap, true, false, none, arith, eq_iff, eq_refl, is_empty, strip,
  strip_left, strip_right, is_space, after_prefix, concat, IsTrimmed, after_prefix-concat,
}
use hermes_agent_cluster.Affinity.{node_prefix, canonical_node_id, same_node}

-- Two spellings name the same node whichever way round they are compared, and spellings of one node
-- are spellings of each other's.
pub same_node_comm : (a b : String) → same_node a b ≡ same_node b a
unfolding same_node
same_node_comm a b = ground (
  arith,
  eq_iff (canonical_node_id a) (canonical_node_id b),
  eq_iff (canonical_node_id b) (canonical_node_id a),
)

pub same_node_trans :
    (a b c : String) → same_node a b ≡ true → same_node b c ≡ true → same_node a c ≡ true
unfolding same_node
same_node_trans a b c h k = ground (
  arith,
  eq_iff (canonical_node_id a) (canonical_node_id b),
  eq_iff (canonical_node_id b) (canonical_node_id c),
  eq_iff (canonical_node_id a) (canonical_node_id c),
)

-- A name without white space at its ends and without the prefix.
pub record IsBare (s : String) : Type 0 where
  pub trimmed : IsTrimmed s
  pub named : is_empty s ≡ false
  pub unprefixed : after_prefix node_prefix s ≡ none

module _ (s : String) (bare : IsBare s) where
  canonical-bare : canonical_node_id s ≡ s
  unfolding canonical_node_id strip
  canonical-bare = rw (bare.trimmed.0, bare.trimmed.1, bare.unprefixed)

  canonical-prefixed : canonical_node_id (concat node_prefix s) ≡ s
  unfolding canonical_node_id strip strip_left strip_right is_space concat after_prefix
  canonical-prefixed = bare.trimmed.1

  canonical-twice :
      canonical_node_id (concat node_prefix (concat node_prefix s)) ≡ concat node_prefix s
  unfolding canonical_node_id strip strip_left strip_right is_space concat after_prefix
  canonical-twice = ap (concat node_prefix) bare.trimmed.1

  prefixed_ne : concat node_prefix s ≢ s
  prefixed_ne e =
      cc (bare.unprefixed, after_prefix-concat node_prefix s, ap (after_prefix node_prefix) e)

  named-prefixed : (t : String) → is_empty (concat node_prefix t) ≡ false
  unfolding concat
  named-prefixed t = refl

  -- A bare name and the name with the registry's prefix are one node. A name with two prefixes is
  -- another node than either: at most one prefix is taken off, and from both sides.
  pub same_node-prefixed :
      (same_node (concat node_prefix s) s ≡ true)
      × (same_node (concat node_prefix (concat node_prefix s)) s ≡ false)
      × (same_node (concat node_prefix (concat node_prefix s)) (concat node_prefix s) ≡ false)
  unfolding same_node
  same_node-prefixed = ground (
    arith,
    bare.named,
    canonical-bare,
    canonical-prefixed,
    canonical-twice,
    prefixed_ne,
    named-prefixed s,
    named-prefixed (concat node_prefix s),
    eq_refl s,
    eq_iff (concat node_prefix s) s,
  )
