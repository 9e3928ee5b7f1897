-- ===== src/Query/RoundTrip.antt =====
-- `parse_query` of src/app/request.rs on the query that a client writes.
use rustrest.Prelude.{
  ℕ, ◌≡◌, ◌≢◌, ◌⊎◌, refl, sym, ◌∙◌, ap, inl, inr, Bool, true, false, not, List, [], ◌∷◌, ◌++◌,
  Option, none, some, nat_eq, if◌then◌else◌, is_empty, keep, All, lookup, insert, lookup-insert,
  ◌==◌, ℕ_eq, list_eq, list_beq_iff, arith, Bool-cases, append_assoc, append-nil,
}
use rustrest.Text.{Bytes, join, split}
use rustrest.Text.Split.{HasNo, split-join}
use rustrest.Percent.{encode_path_segment}
use rustrest.Percent.RoundTrip.{AllBytes}
use rustrest.Ranges.{split_once}
use rustrest.Query.{values_at, push_value, decode_component, push_pairs, parse_query}
use rustrest.Query.Decoding.{decode_bytes-encode, IsPairByte, encode_path_segment-IsPairByte}

-- A pair as a client writes it.
abbrev pub write_pair : Bytes × Bytes → Bytes
write_pair pair = encode_path_segment pair.0 ++ b'=' ∷ encode_path_segment pair.1

abbrev pub write_pairs : List (Bytes × Bytes) → List Bytes
write_pairs [] = []
write_pairs (pair ∷ pairs) = write_pair pair ∷ write_pairs pairs

-- The values that the pairs have for a key, in order.
abbrev pub values_for : Bytes → List (Bytes × Bytes) → List Bytes
values_for key [] = []
values_for key (pair ∷ pairs) =
    let rest = values_for key pairs in if pair.0 == key then pair.1 ∷ rest else rest

split_once-append :
    (sep : ℕ) (a s : Bytes) → HasNo sep a → split_once sep (a ++ sep ∷ s) ≡ some (a, s)
unfolding split_once
split_once-append sep [] s h = ground arith
split_once-append sep (c ∷ a) s h =
    let other : nat_eq c sep ≡ false = ground (arith, h.0) in
    let rest = split_once-append sep a s h.1 in rw (split_once, other, rest)

HasNo-eq : (s : Bytes) → All IsPairByte s → HasNo b'=' s
HasNo-eq [] h = tt
HasNo-eq (c ∷ s) h = (h.0.1, HasNo-eq s h.1)

HasNo-pair : (s t : Bytes) → All IsPairByte s → All IsPairByte t → HasNo b'&' (s ++ b'=' ∷ t)
HasNo-pair [] t h k = ((λ e. omega arith), amp t k)
  where
    amp : (s : Bytes) → All IsPairByte s → HasNo b'&' s
    amp [] h = tt
    amp (c ∷ s) h = (h.0.0, amp s h.1)
HasNo-pair (c ∷ s) t h k = (h.0.0, HasNo-pair s t h.1 k)

filled_pair : (s t : Bytes) → is_empty (s ++ b'=' ∷ t) ≡ false
filled_pair [] t = refl
filled_pair (c ∷ s) t = refl

lookup-push_value :
    (key text : Bytes) (params : List (Bytes × List Bytes)) (j : Bytes)
    → values_at (lookup j (push_value key text params))
      ≡ (if key == j then values_at (lookup j params) ++ text ∷ [] else values_at (lookup j params))
unfolding push_value
lookup-push_value key text params j =
    ap values_at (lookup-insert key j (values_at (lookup key params) ++ text ∷ []) params)
    ∙ elim (Bool-cases (key == j)) [
      | inl same ↦
          let e = (list_beq_iff key j).0 same in
          rw (same) (ap (λ k. values_at (lookup k params) ++ text ∷ []) e)
      | inr other ↦ rw (other)
    ]

-- Text as bytes that the lossy decoding leaves alone.
pub record IsText (lossy : Bytes → Bytes) (s : Bytes) : Type 0 where
  pub bytes : AllBytes s
  pub kept : lossy s ≡ s

module _ (lossy : Bytes → Bytes) where
  abbrev pub IsPair : Bytes × Bytes → Type 0
  IsPair pair = IsText lossy pair.0 × IsText lossy pair.1

  decode_component-encode :
      (s : Bytes) → IsText lossy s → decode_component lossy (encode_path_segment s) true ≡ s
  unfolding decode_component
  decode_component-encode s h = ap lossy (decode_bytes-encode s h.bytes) ∙ h.kept

  push_pairs-write_pairs :
      (pairs : List (Bytes × Bytes)) (params : List (Bytes × List Bytes)) (key : Bytes)
      → All IsPair pairs
      → values_at (lookup key (push_pairs lossy (write_pairs pairs) params))
        ≡ values_at (lookup key params) ++ values_for key pairs
  unfolding push_pairs
  push_pairs-write_pairs [] params key h = sym (append-nil (values_at (lookup key params)))
  push_pairs-write_pairs (pair ∷ pairs) params key h =
      let name = encode_path_segment pair.0 in
      let cut =
        split_once-append b'=' name (encode_path_segment pair.1)
          (HasNo-eq name (encode_path_segment-IsPairByte pair.0 h.0.0.bytes)) in
      let key_read = decode_component-encode pair.0 h.0.0 in
      let text_read = decode_component-encode pair.1 h.0.1 in
      let rest = push_pairs-write_pairs pairs (push_value pair.0 pair.1 params) key h.1 in
      let pushed = lookup-push_value pair.0 pair.1 params key in
      rw (push_pairs, cut, key_read, text_read, rest, pushed) (go (Bool-cases (pair.0 == key)))
    where
      go :
          (pair.0 == key ≡ true) ⊎ (pair.0 == key ≡ false)
          → ((if pair.0 == key
                then values_at (lookup key params) ++ pair.1 ∷ []
                else values_at (lookup key params))
              ++ values_for key pairs)
            ≡ values_at (lookup key params)
              ++ (if pair.0 == key then pair.1 ∷ values_for key pairs else values_for key pairs)
      go (inl same) =
          rw (same)
            (append_assoc (values_at (lookup key params)) (pair.1 ∷ []) (values_for key pairs))
      go (inr other) = rw (other)

  write_pairs-HasNo :
      (pairs : List (Bytes × Bytes)) → All IsPair pairs → All (HasNo b'&') (write_pairs pairs)
  write_pairs-HasNo [] h = tt
  write_pairs-HasNo (pair ∷ pairs) h = (
    HasNo-pair (encode_path_segment pair.0) (encode_path_segment pair.1)
        (encode_path_segment-IsPairByte pair.0 h.0.0.bytes)
        (encode_path_segment-IsPairByte pair.1 h.0.1.bytes),
    write_pairs-HasNo pairs h.1,
  )

  keep-write_pairs :
      (pairs : List (Bytes × Bytes))
      → keep (λ part. not (is_empty part)) (write_pairs pairs) ≡ write_pairs pairs
  keep-write_pairs [] = refl
  keep-write_pairs (pair ∷ pairs) =
      rw (filled_pair (encode_path_segment pair.0) (encode_path_segment pair.1))
        (ap (λ rest. write_pair pair ∷ rest) (keep-write_pairs pairs))

  nothing : (key : Bytes) → values_at (lookup key (parse_query lossy (join b'&' []))) ≡ []
  unfolding parse_query push_pairs split join lookup
  nothing key = refl

  -- Where the lossy decoding leaves UTF-8 text alone, a query that is written from pairs, each part
  -- percent-encoded, is read back: each key has exactly the values of its pairs, in their order.
  pub values_at-parse_query :
      (pairs : List (Bytes × Bytes)) (key : Bytes)
      → All IsPair pairs
      → values_at (lookup key (parse_query lossy (join b'&' (write_pairs pairs))))
        ≡ values_for key pairs
  unfolding parse_query lookup rustrest.Prelude.list_beq
  values_at-parse_query [] key h = nothing key
  values_at-parse_query (pair ∷ pairs) key h =
      let clean = write_pairs-HasNo (pair ∷ pairs) h in
      let parts = split-join b'&' (write_pair pair) (write_pairs pairs) clean.0 clean.1 in
      let kept = keep-write_pairs (pair ∷ pairs) in
      ap
        (λ (ps : List Bytes).
          values_at (lookup key (push_pairs lossy (keep (λ part. not (is_empty part)) ps) [])))
        parts
      ∙ ap (λ (ps : List Bytes). values_at (lookup key (push_pairs lossy ps []))) kept
      ∙ push_pairs-write_pairs (pair ∷ pairs) [] key h
