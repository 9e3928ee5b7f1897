-- ===== src/Static/Accepts.antt =====
-- Which requests `safe_static_relative` of src/app/router.rs lets through.
use rustrest.Prelude.{
  ◌≡◌, refl, sym, ◌∙◌, ap, inl, inr, Bool, true, false, not, ◌&&◌, ◌||◌, List, [], ◌∷◌, ◌++◌,
  nat_eq, ◌==◌, ℕ_eq, list_eq, list_beq, list_beq_iff, is_ok, arith, all, Bool-cases,
}
use rustrest.Text.{Bytes, codes, split}
use rustrest.Static.{
  Dotfiles, cur_dir, deny, allow, is_denied, starts_with_dot, inner_components, components,
  push_components, or_index, safe_static_relative,
}

abbrev starts_with_slash : Bytes → Bool
starts_with_slash [] = false
starts_with_slash (c ∷ s) = nat_eq c b'/'

-- A request that is let through, told from its parts.
abbrev pub is_allowed_part : Dotfiles → Bytes → Bool
is_allowed_part dotfiles part =
    not (part == codes "..")
    && (part == codes "." || not (is_denied dotfiles && starts_with_dot part))

abbrev pub begins_here : List Bytes → Bool
begins_here [] = false
begins_here (part ∷ parts) = part == codes "."

abbrev pub is_allowed : Dotfiles → Bytes → Bool
is_allowed dotfiles text =
    not (starts_with_slash text)
    && not (is_denied dotfiles && begins_here (split b'/' text))
    && all (is_allowed_part dotfiles) (split b'/' text)

is_ok-push_components :
    (dotfiles : Dotfiles) (parts before : List Bytes)
    → is_ok (push_components dotfiles (inner_components false parts) before)
      ≡ all (is_allowed_part dotfiles) parts
unfolding push_components inner_components list_beq
is_ok-push_components dotfiles [] before = refl
is_ok-push_components dotfiles ([] ∷ parts) before =
    rw (is_ok-push_components dotfiles parts before) (ground arith)
is_ok-push_components dotfiles ((c ∷ s) ∷ parts) before = elim (Bool-cases ((c ∷ s) == codes ".")) [
  | inl here ↦
      let e = (list_beq_iff (c ∷ s) (codes ".")).0 here in
      let other : ((c ∷ s) == codes "..") ≡ false = ap (λ (x : Bytes). x == codes "..") e in
      rw (here, other) (is_ok-push_components dotfiles parts before)
  | inr away ↦ elim (Bool-cases ((c ∷ s) == codes "..")) [
    | inl up ↦ rw (away, up)
    | inr down ↦ elim (Bool-cases (is_denied dotfiles && nat_eq c b'.')) [
      | inl denied ↦ rw (away, down, denied)
      | inr shown ↦
          rw (away, down, shown) (is_ok-push_components dotfiles parts (before ++ (c ∷ s) ∷ []))
    ]
  ]
]

is_ok-push_first :
    (dotfiles : Dotfiles) (parts : List Bytes)
    → is_ok (push_components dotfiles (inner_components true parts) [])
      ≡ (not (is_denied dotfiles && begins_here parts) && all (is_allowed_part dotfiles) parts)
unfolding push_components inner_components list_beq
is_ok-push_first dotfiles [] = ground arith
is_ok-push_first dotfiles ([] ∷ parts) = rw (is_ok-push_components dotfiles parts []) (ground arith)
is_ok-push_first dotfiles ((c ∷ s) ∷ parts) = elim (Bool-cases ((c ∷ s) == codes ".")) [
  | inl here ↦
      let e = (list_beq_iff (c ∷ s) (codes ".")).0 here in
      let other : ((c ∷ s) == codes "..") ≡ false = ap (λ (x : Bytes). x == codes "..") e in
      rw (here, other) (skipped dotfiles)
  | inr away ↦
      let same : inner_components true ((c ∷ s) ∷ parts)
          ≡ inner_components false ((c ∷ s) ∷ parts) =
        rw (away) in
      let free : not (is_denied dotfiles && (c ∷ s) == codes ".") ≡ true =
        rw (away) (ground arith) in
      ap (λ cs. is_ok (push_components dotfiles cs [])) same
      ∙ is_ok-push_components dotfiles ((c ∷ s) ∷ parts) []
      ∙ ap (λ b. b && all (is_allowed_part dotfiles) ((c ∷ s) ∷ parts)) (sym free)
]
  where
    skipped :
        (dotfiles : Dotfiles)
        → is_ok (push_components dotfiles (cur_dir ∷ inner_components false parts) [])
          ≡ (not (is_denied dotfiles && true) && all (is_allowed_part dotfiles) parts)
    skipped deny = refl
    skipped allow = is_ok-push_components allow parts []

is_ok-nothing :
    (dotfiles : Dotfiles)
    → is_ok (push_components dotfiles (components []) []) ≡ is_allowed dotfiles []
unfolding components push_components split list_beq
is_ok-nothing deny = refl
is_ok-nothing allow = refl

is_ok-components :
    (dotfiles : Dotfiles) (text : Bytes)
    → is_ok (push_components dotfiles (components text) []) ≡ is_allowed dotfiles text
unfolding components push_components
is_ok-components dotfiles [] = is_ok-nothing dotfiles
is_ok-components dotfiles (c ∷ s) = elim (Bool-cases (nat_eq c b'/')) [
  | inl absolute ↦ rw (absolute)
  | inr relative ↦ rw (relative) (is_ok-push_first dotfiles (split b'/' (c ∷ s)))
]

-- A request is let through exactly where its path does not start with a slash, has no part `..`, and,
-- where dotfiles are denied, does not start with the part `.` and has no other part with a dot in front.
pub is_ok-safe_static_relative :
    (requested : Bytes) (dotfiles : Dotfiles)
    → is_ok (safe_static_relative requested dotfiles) ≡ is_allowed dotfiles (or_index requested)
unfolding safe_static_relative
is_ok-safe_static_relative requested dotfiles = is_ok-components dotfiles (or_index requested)
