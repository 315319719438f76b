-- ===== src/Sync/Order.antt =====
-- The rule `should_apply` of `LWWResolver` orders updates.
use hermes_agent_cluster.Prelude.{◌≡◌, ◌<◌, refl, String, true, false, arith}
use text.Mathlib.TextEquality.{Char-path}
use hermes_agent_cluster.Sync.{str_lt, Stamp, should_apply}

str_lt_irrefl : (s : String) → str_lt s s ≡ false
unfolding str_lt
str_lt_irrefl String.[] = refl
str_lt_irrefl (String.◌∷◌ c s) = ground (arith, str_lt_irrefl s)

str_lt_asymm : (s t : String) → str_lt s t ≡ true → str_lt t s ≡ false
unfolding str_lt
str_lt_asymm String.[] String.[] h = refl
str_lt_asymm String.[] (String.◌∷◌ d t) h = refl
str_lt_asymm (String.◌∷◌ c s) String.[] h = absurd (ground arith)
str_lt_asymm (String.◌∷◌ c s) (String.◌∷◌ d t) h = ground (arith, str_lt_asymm s t)

str_lt_trans : (s t u : String) → str_lt s t ≡ true → str_lt t u ≡ true → str_lt s u ≡ true
unfolding str_lt
str_lt_trans String.[] String.[] u h k = absurd (ground arith)
str_lt_trans String.[] (String.◌∷◌ d t) String.[] h k = absurd (ground arith)
str_lt_trans String.[] (String.◌∷◌ d t) (String.◌∷◌ e u) h k = refl
str_lt_trans (String.◌∷◌ c s) String.[] u h k = absurd (ground arith)
str_lt_trans (String.◌∷◌ c s) (String.◌∷◌ d t) String.[] h k = absurd (ground arith)
str_lt_trans (String.◌∷◌ c s) (String.◌∷◌ d t) (String.◌∷◌ e u) h k =
    ground (arith, str_lt_trans s t u)

str_lt_total : (s t : String) → str_lt s t ≡ false → str_lt t s ≡ false → s ≡ t
unfolding str_lt
str_lt_total String.[] String.[] h k = refl
str_lt_total String.[] (String.◌∷◌ d t) h k = absurd (ground arith)
str_lt_total (String.◌∷◌ c s) String.[] h k = absurd (ground arith)
str_lt_total (String.◌∷◌ c s) (String.◌∷◌ d t) h k =
    let same_char : c ≡ d = Char-path c d (ground arith) in
    let same_rest : s ≡ t = ground (arith, str_lt_total s t) in cc

-- The last writer wins: an update with the higher version overrides the other, at the same version the
-- one with the later timestamp, and at the same timestamp the one whose sender comes later. Of two
-- updates with different stamps exactly one overrides the other, an update never overrides itself,
-- and overriding is transitive.
pub should_apply-linear :
    (a b c : Stamp)
    → (b.version < a.version → should_apply a b ≡ true)
      × (b.version ≡ a.version → b.timestamp < a.timestamp → should_apply a b ≡ true)
      × (b.version ≡ a.version
          → b.timestamp ≡ a.timestamp
          → should_apply a b ≡ str_lt b.sender a.sender)
      × (should_apply a a ≡ false)
      × (should_apply a b ≡ true → should_apply b a ≡ false)
      × (should_apply a b ≡ false → should_apply b a ≡ false → a ≡ b)
      × (should_apply a b ≡ true → should_apply b c ≡ true → should_apply a c ≡ true)
unfolding should_apply
should_apply-linear a b c = (
  λ h. ground arith,
  λ h k. ground arith,
  λ h k. ground arith,
  ground (arith, str_lt_irrefl a.sender),
  λ h. ground (arith, str_lt_asymm b.sender a.sender),
  λ h k.
      let same_version : a.version ≡ b.version = ground arith in
      let same_time : a.timestamp ≡ b.timestamp = ground arith in
      let same_sender : a.sender ≡ b.sender = ground (arith, str_lt_total a.sender b.sender) in
      λ i. record { version = same_version i; timestamp = same_time i; sender = same_sender i },
  λ h k. ground (arith, str_lt_trans c.sender b.sender a.sender),
)
