-- ===== src/Compression/Best.antt =====
-- The encoding that src/app/middleware/compression.rs chooses is the best one for the client.
use rustrest.Prelude.{
  ℕ, ◌<◌, ◌≡◌, refl, subst, inl, inr, Bool, true, false, ◌&&◌, ◌||◌, List, [], ◌∷◌, leb, ltb,
  nat_eq, All, ℕ_eq, list_eq, arith, Bool-cases, Option-cases, In, ◌⊎◌, Option, none, some, sym,
  ◌∙◌, ap, ◌≤◌, if◌then◌else◌, ◌==◌,
}
use rustrest.Text.{Bytes, codes}
use rustrest.Compression.{
  Encoding, server_preference, Negotiation, encode, identity, not_acceptable, AcceptEncodingToken,
  CodingPreference, find_token, preference_of, preferences, is_greater, max_from, exceeds,
  identity_quality, negotiated, negotiate_tokens, name_of, either_token, quality_or,
}

-- `other` is no better than `best`: a lower quality, or the same and no earlier in the server's order.
abbrev pub at_most : CodingPreference → CodingPreference → Bool
at_most other best =
    ltb other.quality best.quality
    || nat_eq other.quality best.quality
      && leb (server_preference best.coding) (server_preference other.coding)

at_most_refl : (a : CodingPreference) → at_most a a ≡ true
at_most_refl a = ground arith

at_most_trans :
    (a b c : CodingPreference) → at_most a b ≡ true → at_most b c ≡ true → at_most a c ≡ true
at_most_trans a b c h k = ground arith

max_from-at_most :
    (best : CodingPreference) (rest : List CodingPreference)
    → (at_most best (max_from best rest) ≡ true)
      × All (λ other. at_most other (max_from best rest) ≡ true) rest
unfolding max_from is_greater
max_from-at_most best [] = (at_most_refl best, tt)
max_from-at_most best (next ∷ rest) = elim (Bool-cases (is_greater best next)) [
  | inl keeps ↦
      let (first, others) = max_from-at_most best rest in
      let below : at_most next best ≡ true = ground arith in
      let same : max_from best rest ≡ max_from best (next ∷ rest) = rw (max_from, keeps) in
      subst (λ m. (at_most best m ≡ true) × All (λ other. at_most other m ≡ true) (next ∷ rest))
        same (first, (at_most_trans next best (max_from best rest) below first, others))
  | inr loses ↦
      let (first, others) = max_from-at_most next rest in
      let below : at_most best next ≡ true = ground arith in
      let same : max_from next rest ≡ max_from best (next ∷ rest) = rw (max_from, loses) in
      subst (λ m. (at_most best m ≡ true) × All (λ other. at_most other m ≡ true) (next ∷ rest))
        same (at_most_trans best next (max_from next rest) below first, (first, others))
]

-- A preference that stands for one of the encodings.
abbrev Stands : List AcceptEncodingToken → List Encoding → CodingPreference → Type 0
Stands tokens supported preference =
    In preference.coding supported
    × (preference ≡ preference_of tokens preference.coding)
    × (0 < preference.quality)

max_from-All :
    (P : CodingPreference → Type 0) (best : CodingPreference) (rest : List CodingPreference)
    → P best
    → All P rest
    → P (max_from best rest)
unfolding max_from
max_from-All P best [] h k = h
max_from-All P best (next ∷ rest) h k = elim (Bool-cases (is_greater best next)) [
  | inl keeps ↦ rw (max_from, keeps) (max_from-All P best rest h k.1)
  | inr loses ↦ rw (max_from, loses) (max_from-All P next rest k.0 k.1)
]

-- The weight that the first token of a name has.
unfoldable pub asked : Bytes → List AcceptEncodingToken → Option ℕ
asked name [] = none
asked name (token ∷ tokens) =
    let rest = asked name tokens in if token.name == name then some token.quality else rest

abbrev pub asks_more : Option ℕ → ℕ → Bool
asks_more none than = false
asks_more (some much) than = ltb than much

-- The first of two weights that is given, or what holds without one.
abbrev pub first_given : Option ℕ → Option ℕ → ℕ → ℕ
first_given (some much) wildcard default = much
first_given none (some much) default = much
first_given none none default = default

-- Without a token of its own, an uncoded answer is refused by a wildcard of weight 0 only.
abbrev pub uncoded : Option ℕ → Option ℕ → ℕ
uncoded (some much) wildcard = much
uncoded none (some much) = if nat_eq much 0 then 0 else 1000
uncoded none none = 1000

abbrev quality_in : Option AcceptEncodingToken → Option ℕ
quality_in none = none
quality_in (some token) = some token.quality

asked-find_token :
    (name : Bytes) (tokens : List AcceptEncodingToken)
    → asked name tokens ≡ quality_in (find_token name tokens)
unfolding asked find_token
asked-find_token name [] = refl
asked-find_token name (token ∷ tokens) = elim (Bool-cases (token.name == name)) [
  | inl same ↦ rw (same)
  | inr other ↦ rw (other) (asked-find_token name tokens)
]

module _ (tokens : List AcceptEncodingToken) where
  abbrev pub weight : Encoding → ℕ
  weight coding = first_given (asked (name_of coding) tokens) (asked (codes "*") tokens) 0

  abbrev pub uncoded_weight : ℕ
  uncoded_weight = uncoded (asked (codes "identity") tokens) (asked (codes "*") tokens)

  -- An encoding is preferred to another: a higher weight, or the same and earlier in the server's order.
  abbrev pub outranks : Encoding → Encoding → Bool
  outranks other coding =
      ltb (weight coding) (weight other)
      || nat_eq (weight other) (weight coding)
        && ltb (server_preference other) (server_preference coding)

  abbrev quality_for : Encoding → ℕ
  quality_for coding = (preference_of tokens coding).quality

  preferences-Stands :
      (supported whole : List Encoding)
      → All (λ coding. In coding whole) supported
      → All (Stands tokens whole) (preferences tokens supported)
  unfolding preferences preference_of
  preferences-Stands [] whole h = tt
  preferences-Stands (coding ∷ supported) whole h = elim (Bool-cases (ltb 0 (quality_for coding))) [
    | inl wanted ↦ rw (wanted) ((h.0, refl, ground arith), preferences-Stands supported whole h.1)
    | inr unwanted ↦ rw (unwanted) (preferences-Stands supported whole h.1)
  ]

  -- What holds of the preferences holds of the encodings that have a quality.
  preferences-All :
      (P : CodingPreference → Type 0) (supported : List Encoding)
      → All P (preferences tokens supported)
      → All (λ coding. (quality_for coding ≡ 0) ⊎ P (preference_of tokens coding)) supported
  unfolding preferences
  preferences-All P [] h = tt
  preferences-All P (coding ∷ supported) h = elim (Bool-cases (ltb 0 (quality_for coding))) [
    | inl wanted ↦
        let listed = rw (preferences, wanted) at h in
        (inr listed.0, preferences-All P supported listed.1)
    | inr unwanted ↦
        (inl (ground arith), preferences-All P supported (rw (preferences, unwanted) at h))
  ]

  -- What the negotiation promises, by the weights that the header gives: an encoding that is supported
  -- and wanted, with the highest weight and among those the first in the server's order, where the
  -- header does not ask for `identity` with a higher one, and the mark whether an uncoded answer has a
  -- weight; an uncoded answer, which has one, where no supported encoding is wanted or the header asks
  -- for `identity` with a higher weight than each of them; a refusal where neither has one.
  abbrev pub IsChoice : List Encoding → Negotiation → Type 0
  IsChoice supported (encode coding identity_acceptable) =
      In coding supported
      × (0 < weight coding)
      × All (λ other. outranks other coding ≡ false) supported
      × (asks_more (asked (codes "identity") tokens) (weight coding) ≡ false)
      × (identity_acceptable ≡ ltb 0 uncoded_weight)
  IsChoice supported identity =
      (0 < uncoded_weight)
      × (All (λ other. weight other ≡ 0) supported
          ⊎ All (λ other. asks_more (asked (codes "identity") tokens) (weight other) ≡ true)
              supported)
  IsChoice supported not_acceptable =
      (uncoded_weight ≡ 0) × All (λ other. weight other ≡ 0) supported

  -- The encodings that are no better than the best preference.
  below_best :
      (best : CodingPreference) (supported : List Encoding)
      → 0 < best.quality
      → All
          (λ coding. (quality_for coding ≡ 0) ⊎ (at_most (preference_of tokens coding) best ≡ true))
          supported
      → All (λ coding. at_most (preference_of tokens coding) best ≡ true) supported
  below_best best [] h k = tt
  below_best best (coding ∷ supported) h k = (here k.0, below_best best supported h k.1)
    where
      here :
          (quality_for coding ≡ 0) ⊎ (at_most (preference_of tokens coding) best ≡ true)
          → at_most (preference_of tokens coding) best ≡ true
      here (inl unwanted) =
          let low : ltb (quality_for coding) best.quality ≡ true = ground (arith, unwanted) in
          rw (low)
      here (inr below) = below

  unwanted_all :
      (supported : List Encoding)
      → All (λ coding. (quality_for coding ≡ 0) ⊎ ⊥) supported
      → All (λ coding. quality_for coding ≡ 0) supported
  unwanted_all [] h = tt
  unwanted_all (coding ∷ supported) (inl zero_quality, h) = (zero_quality, unwanted_all supported h)
  unwanted_all (coding ∷ supported) (inr never, h) = absurd never

  All-map :
      (P Q : Encoding → Type 0)
      → ((coding : Encoding) → P coding → Q coding)
      → (supported : List Encoding) → All P supported
      → All Q supported
  All-map P Q f [] h = tt
  All-map P Q f (coding ∷ supported) h = (f coding h.0, All-map P Q f supported h.1)

  In-self : (supported : List Encoding) → All (λ coding. In coding supported) supported
  In-self [] = tt
  In-self (first ∷ supported) = (
    inl refl,
    All-map (λ coding. In coding supported) (λ coding. In coding (first ∷ supported))
        (λ coding i. inr i) supported (In-self supported),
  )

  -- An identity token that exceeds a quality.
  worth :
      (quality : ℕ)
      → exceeds (find_token (codes "identity") tokens) quality ≡ true
      → quality < identity_quality tokens
  unfolding identity_quality
  worth quality h = elim (Option-cases (find_token (codes "identity") tokens)) [
    | inl missing ↦ cc (rw (missing) at h)
    | inr (token, found) ↦
        let more : ltb quality token.quality ≡ true = rw (found) at h in
        rw (identity_quality, found) (ground arith)
  ]

  quality_for-weight : (coding : Encoding) → quality_for coding ≡ weight coding
  unfolding preference_of
  quality_for-weight coding =
      rw (asked-find_token (name_of coding) tokens, asked-find_token (codes "*") tokens)
        (go (find_token (name_of coding) tokens) (find_token (codes "*") tokens))
    where
      go :
          (own wildcard : Option AcceptEncodingToken)
          → quality_or (either_token own wildcard) 0
            ≡ first_given (quality_in own) (quality_in wildcard) 0
      go none none = refl
      go none (some token) = refl
      go (some token) wildcard = refl

  identity_quality-uncoded : identity_quality tokens ≡ uncoded_weight
  unfolding identity_quality
  identity_quality-uncoded =
      rw (asked-find_token (codes "identity") tokens, asked-find_token (codes "*") tokens)
        (go (find_token (codes "identity") tokens) (find_token (codes "*") tokens))
    where
      go :
          (own wildcard : Option AcceptEncodingToken)
          → quality_or own (if nat_eq (quality_or wildcard 1) 0 then 0 else 1000)
            ≡ uncoded (quality_in own) (quality_in wildcard)
      go none none = refl
      go none (some token) = refl
      go (some token) wildcard = refl

  exceeds-asks_more :
      (quality : ℕ)
      → exceeds (find_token (codes "identity") tokens) quality
        ≡ asks_more (asked (codes "identity") tokens) quality
  exceeds-asks_more quality =
      rw (asked-find_token (codes "identity") tokens) (go (find_token (codes "identity") tokens))
    where
      go :
          (own : Option AcceptEncodingToken)
          → exceeds own quality ≡ asks_more (quality_in own) quality
      go none = refl
      go (some token) = refl

  not_outranked :
      (other coding : Encoding)
      → at_most (preference_of tokens other) (preference_of tokens coding) ≡ true
      → outranks other coding ≡ false
  unfolding preference_of
  not_outranked other coding h =
      let a = quality_for-weight other in
      let b = quality_for-weight coding in ground (arith, h, a, b)

  weight-le :
      (other : Encoding) (best : CodingPreference)
      → at_most (preference_of tokens other) best ≡ true
      → weight other ≤ best.quality
  weight-le other best h = let a = quality_for-weight other in ground (arith, h, a)

  asks_more_mono :
      (much : Option ℕ) (small large : ℕ)
      → small ≤ large
      → asks_more much large ≡ true
      → asks_more much small ≡ true
  asks_more_mono none small large le h = h
  asks_more_mono (some much) small large le h = ground arith

  negotiated-IsChoice :
      (supported : List Encoding) (listed : List CodingPreference)
      → preferences tokens supported ≡ listed
      → IsChoice supported (negotiated tokens listed)
  negotiated-IsChoice supported [] none_wanted =
      let unwanted =
        All-map (λ coding. quality_for coding ≡ 0) (λ coding. weight coding ≡ 0)
          (λ coding e. sym (quality_for-weight coding) ∙ e) supported
          (unwanted_all supported (preferences-All (λ p. ⊥) supported (rw (none_wanted) tt))) in
      let same = identity_quality-uncoded in
      elim (Bool-cases (nat_eq (identity_quality tokens) 0)) [
        | inl refused ↦ rw (refused) (ground (arith, same), unwanted)
        | inr allowed ↦ rw (allowed) (ground (arith, same), inl unwanted)
      ]
  negotiated-IsChoice supported (first ∷ rest) listed =
      let best = max_from first rest in
      let (top, others) = max_from-at_most first rest in
      let stands =
        subst (λ ps. All (Stands tokens supported) ps) listed
          (preferences-Stands supported supported (In-self supported)) in
      let (inside, same, wanted) =
        max_from-All (Stands tokens supported) first rest stands.0 stands.1 in
      let below =
        below_best best supported wanted
          (preferences-All (λ p. at_most p best ≡ true) supported (rw (listed) (top, others))) in
      let weighs : best.quality ≡ weight best.coding =
        ap (λ (p : CodingPreference). p.quality) same ∙ quality_for-weight best.coding in
      elim (Bool-cases (exceeds (find_token (codes "identity") tokens) best.quality)) [
        | inl asks ↦
            let asked_more = sym (exceeds-asks_more best.quality) ∙ asks in
            let some_weight = worth best.quality asks in
            let same_weight = identity_quality-uncoded in
            rw (asks) (
              omega arith,
              inr (
                  All-map _
                    (λ other. asks_more (asked (codes "identity") tokens) (weight other) ≡ true)
                    (λ other e.
                      asks_more_mono (asked (codes "identity") tokens) (weight other) best.quality
                        (weight-le other best e) asked_more)
                    supported below),
            )
        | inr coded ↦ rw (coded) (
          inside,
          (let w = weighs in omega arith),
          All-map _ (λ other. outranks other best.coding ≡ false)
              (λ other e.
                not_outranked other best.coding
                  (subst (λ p. at_most (preference_of tokens other) p ≡ true) same e))
              supported below,
          ap (λ q. asks_more (asked (codes "identity") tokens) q) (sym weighs)
              ∙ sym (exceeds-asks_more best.quality)
              ∙ coded,
          ap (λ q. ltb 0 q) identity_quality-uncoded,
        )
      ]

  -- The weight of an encoding is that of the first token with its name, else of the first `*` token,
  -- else 0. Whatever the tokens of the header, the negotiation encodes exactly where a supported
  -- encoding has a weight above 0 and an `identity` token, if the header has one, asks for no more
  -- than the highest of these weights; it then takes the encoding of the highest weight, among equal
  -- ones the first in the server's order, and marks whether an uncoded answer is acceptable: by the
  -- `identity` token, else unless `*` has weight 0. Where it does not encode, the answer is uncoded if
  -- that is acceptable, and refused if not.
  pub negotiate_tokens-IsChoice :
      (supported : List Encoding) → IsChoice supported (negotiate_tokens tokens supported)
  unfolding negotiate_tokens
  negotiate_tokens-IsChoice supported =
      negotiated-IsChoice supported (preferences tokens supported) refl
