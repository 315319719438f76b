-- ===== src/DeliverableGuard/Echo.antt =====
-- The brief echo of hermes_cluster/core/deliverable_guard.py.
use Prim.Native.Char.{Char}
use hermes_agent_cluster.Prelude.{
  ℕ, zero, suc, ◌+◌, ◌≡◌, ◌≤◌, ◌&&◌, not, ◌||◌, ltb, String, Bool, true, false, some, arith, eq_iff,
  inl, inr, Bool-cases, is_empty, and_true, refl, none, is_space, same_char, lower_char, paired,
  strip_left, is_some,
}
use hermes_agent_cluster.Regex.{match_start, matches, words_from, word_from}
use hermes_agent_cluster.Landing.Text.{contains}
use hermes_agent_cluster.DeliverableGuard.{
  flat, text_length, text_from, core_of, echo_tails, echo_leads, is_echo_of_brief,
  classify_non_deliverable, is_provider_shape, provider_shape,
}

-- The text is part of the brief, but for at most 16 characters at each end.
pub record IsTrimmedEcho (body brief : String) : Type 0 where
  pub lead : ℕ
  pub tail : ℕ
  pub short_lead : lead ≤ 16
  pub short_tail : tail ≤ 16
  pub within : contains (core_of (text_from lead body) tail) brief ≡ true

tails_sound :
    (head brief : String) (tail rounds : ℕ)
    → tail + rounds ≤ 17
    → echo_tails head brief tail rounds ≡ true
    → (n : ℕ) × (n ≤ 16) × (contains (core_of head n) brief ≡ true)
unfolding echo_tails
tails_sound head brief tail zero b h = absurd (ground arith)
tails_sound head brief tail (suc rounds) b h =
    elim (Bool-cases (not (is_empty (core_of head tail)) && contains (core_of head tail) brief)) [
      | inl hit ↦ (tail, omega arith, (and_true (not (is_empty (core_of head tail))) _ hit).1)
      | inr miss ↦
          tails_sound head brief (tail + 1) rounds (omega (arith, b)) (rw (miss, echo_tails) at h)
    ]

leads_sound :
    (body brief : String) (lead rounds : ℕ)
    → lead + rounds ≤ 17
    → echo_leads body brief lead rounds ≡ true
    → IsTrimmedEcho body brief
unfolding echo_leads
leads_sound body brief lead zero b h = absurd (ground arith)
leads_sound body brief lead (suc rounds) b h = elim (Bool-cases (is_empty (text_from lead body))) [
  | inl over ↦ absurd (ground (arith, rw (over, echo_leads) at h))
  | inr more ↦ elim (Bool-cases (echo_tails (text_from lead body) brief 0 17)) [
    | inl hit ↦
        let (n, short, found) = tails_sound (text_from lead body) brief 0 17 (omega arith) hit in
        record {
          lead = lead;
          tail = n;
          short_lead = omega (arith, b);
          short_tail = short;
          within = found;
        }
    | inr miss ↦
        leads_sound body brief (lead + 1) rounds (omega (arith, b))
          (rw (more, miss, echo_leads) at h)
  ]
]

-- A body is refused as an echo only if it and the brief have 120 characters at least, white space
-- apart, and all of it but 16 characters at each end is, in small letters, part of the brief.
pub classify-echo :
    (lower : String → String) (content brief_text : String) (failed : Bool)
    → classify_non_deliverable lower content brief_text failed ≡ some "brief_echo"
    → (120 ≤ text_length (flat lower content))
      × (120 ≤ text_length (flat lower brief_text))
      × IsTrimmedEcho (flat lower content) (flat lower brief_text)
unfolding classify_non_deliverable is_echo_of_brief
classify-echo lower content brief_text failed h =
    elim (Bool-cases (is_echo_of_brief lower content brief_text)) [
      | inr other ↦ absurd (
          ground (
            arith,
            rw (other, classify_non_deliverable) at h,
            eq_iff "provider_error" "brief_echo",
          ))
      | inl echo ↦
          elim (Bool-cases (
            ltb (text_length (flat lower content)) 120
            || ltb (text_length (flat lower brief_text)) 120)) [
              | inl short ↦ absurd (ground (arith, rw (short, is_echo_of_brief) at echo))
              | inr long ↦ (
                ground arith,
                ground arith,
                leads_sound (flat lower content) (flat lower brief_text) 0 17 (omega arith)
                    (rw (long, is_echo_of_brief) at echo),
              )
            ]
    ]

space-solid : (c : Char) → is_space c ≡ true → same_char "a" (lower_char c) ≡ false
unfolding is_space same_char lower_char paired
space-solid c space = ground (arith, space)

no_shape-space :
    (c : Char) (s : String) → is_space c ≡ true → match_start provider_shape (String.◌∷◌ c s) ≡ none
unfolding match_start matches words_from word_from
no_shape-space c s space = rw (space-solid c space, match_start, matches) refl

-- `_is_provider_shape` gives the same with and without its flag.
flag-provider :
    (content : String) → is_provider_shape content true ≡ is_provider_shape content false
unfolding is_provider_shape strip_left
flag-provider String.[] = elim (Bool-cases (is_some (match_start provider_shape ""))) [
  | inl on ↦ rw on refl
  | inr off ↦ rw off refl
]
flag-provider (String.◌∷◌ c s) = elim (Bool-cases (is_space c)) [
  | inl space ↦ rw (space, no_shape-space c s space) refl
  | inr solid ↦
      rw solid (elim (Bool-cases (is_some (match_start provider_shape (String.◌∷◌ c s)))) [
        | inl on ↦ rw on refl
        | inr off ↦ rw off refl
      ])
]

-- The flag `is_error_response` changes no classification.
pub classify-flag :
    (lower : String → String) (content brief_text : String)
    → classify_non_deliverable lower content brief_text true
      ≡ classify_non_deliverable lower content brief_text false
unfolding classify_non_deliverable
classify-flag lower content brief_text = rw (flag-provider content) refl
