-- ===== src/Static/Contained.antt =====
-- What `safe_static_relative` of src/app/router.rs lets through lies below the root.
use rustrest.Prelude.{
  ◌≡◌, ◌≢◌, refl, ◌∙◌, inl, inr, true, false, ◌&&◌, ◌||◌, List, [], ◌∷◌, ◌++◌, nat_eq,
  if◌then◌else◌, is_empty, ok, ◌==◌, ℕ_eq, list_eq, list_beq_iff, All, All-append, append_assoc,
  Bool-cases,
}
use rustrest.Text.{Bytes, codes, split}
use rustrest.Text.Split.{HasNo, split-HasNo}
use rustrest.Static.{
  Dotfiles, cur_dir, deny, allow, is_denied, starts_with_dot, inner_components, components,
  push_components, or_index, safe_static_relative,
}

abbrev pub drop_last : List Bytes → List Bytes
drop_last [] = []
drop_last (part ∷ []) = []
drop_last (part ∷ next ∷ parts) = part ∷ drop_last (next ∷ parts)

-- Where the parts of a path lead from a directory: `..` leads to its parent.
unfoldable pub walk : List Bytes → List Bytes → List Bytes
walk directory [] = directory
walk directory (part ∷ parts) =
    if is_empty part || part == codes "."
    then walk directory parts
    else if part == codes ".."
    then walk (drop_last directory) parts
    else walk (directory ++ part ∷ []) parts

-- A name of a file or a directory, hidden only where that is allowed.
pub record IsName (dotfiles : Dotfiles) (part : Bytes) : Type 0 where
  pub is_filled : part ≢ []
  pub is_inside : part ≢ codes "."
  pub is_below : part ≢ codes ".."
  pub is_single : HasNo b'/' part
  pub is_shown : (is_denied dotfiles && starts_with_dot part) ≡ false

pub record IsContained (dotfiles : Dotfiles) (parts before path : List Bytes) : Type 0 where
  pub leads : (root : List Bytes) → walk (root ++ before) parts ≡ root ++ path
  pub names : All (IsName dotfiles) path

-- What is pushed for the parts of a path.
pushed_parts :
    (dotfiles : Dotfiles) (parts before path : List Bytes)
    → push_components dotfiles (inner_components false parts) before ≡ ok path
    → All (HasNo b'/') parts
    → All (IsName dotfiles) before
    → IsContained dotfiles parts before path
unfolding push_components inner_components walk
pushed_parts dotfiles [] before path h single named =
    let same : before ≡ path = cc in record { leads = λ root. rw (same); names = rw (← same) named }
pushed_parts dotfiles (part ∷ parts) before path h single named =
    elim (Bool-cases (is_empty part)) [
      | inl empty ↦
          let rest = pushed_parts dotfiles parts before path (rw (empty) at h) single.1 named in
          record { leads = λ root. rw (empty) (rest.leads root); names = rest.names }
      | inr filled ↦ elim (Bool-cases (part == codes ".")) [
        | inl here ↦
            let rest =
              pushed_parts dotfiles parts before path (rw (filled, here) at h) single.1 named in
            record { leads = λ root. rw (filled, here) (rest.leads root); names = rest.names }
        | inr away ↦ elim (Bool-cases (part == codes "..")) [
          | inl up ↦ cc (rw (filled, away, up) at h)
          | inr down ↦ elim (Bool-cases (is_denied dotfiles && starts_with_dot part)) [
            | inl denied ↦ cc (rw (filled, away, down, denied) at h)
            | inr shown ↦
                let name : IsName dotfiles part = record {
                  is_filled = λ e. cc;
                  is_inside = λ e. cc ((list_beq_iff part (codes ".")).1 e);
                  is_below = λ e. cc ((list_beq_iff part (codes "..")).1 e);
                  is_single = single.0;
                  is_shown = shown;
                } in
                let rest =
                  pushed_parts dotfiles parts (before ++ part ∷ []) path
                    (rw (filled, away, down, shown) at h) single.1
                    (All-append (IsName dotfiles) before (part ∷ []) named (name, tt)) in
                record {
                  leads = λ root.
                      rw (filled, away, down, append_assoc root before (part ∷ []))
                        (rest.leads root);
                  names = rest.names;
                }
          ]
        ]
      ]
    ]

-- The start differs in a `.` only, which is not let through where dotfiles are denied.
pushed_first :
    (dotfiles : Dotfiles) (parts path : List Bytes)
    → push_components dotfiles (inner_components true parts) [] ≡ ok path
    → All (HasNo b'/') parts
    → IsContained dotfiles parts [] path
unfolding push_components inner_components walk
pushed_first dotfiles [] path h single = pushed_parts dotfiles [] [] path h single tt
pushed_first dotfiles (part ∷ parts) path h single = elim (Bool-cases (is_empty part)) [
  | inl empty ↦
      pushed_parts dotfiles (part ∷ parts) [] path (rw (empty) (rw (empty) at h)) single tt
  | inr filled ↦ elim (Bool-cases (part == codes ".")) [
    | inl here ↦
        pushed_parts dotfiles (part ∷ parts) [] path
          (rw (filled, here) (skipped dotfiles (rw (filled, here) at h))) single tt
    | inr away ↦
        pushed_parts dotfiles (part ∷ parts) [] path (rw (filled, away) (rw (filled, away) at h))
          single tt
  ]
]
  where
    skipped :
        (dotfiles : Dotfiles)
        → push_components dotfiles (cur_dir ∷ inner_components false parts) [] ≡ ok path
        → push_components dotfiles (inner_components false parts) [] ≡ ok path
    skipped deny h = cc
    skipped allow h = h

nothing :
    (dotfiles : Dotfiles)
    → push_components dotfiles (inner_components false (split b'/' [])) []
      ≡ push_components dotfiles [] []
unfolding split inner_components push_components
nothing dotfiles = refl

pushed_text :
    (text : Bytes) (dotfiles : Dotfiles) (path : List Bytes)
    → push_components dotfiles (components text) [] ≡ ok path
    → IsContained dotfiles (split b'/' text) [] path
unfolding components push_components
pushed_text [] dotfiles path h =
    pushed_parts dotfiles (split b'/' []) [] path (nothing dotfiles ∙ h) (split-HasNo b'/' []) tt
pushed_text (c ∷ s) dotfiles path h = elim (Bool-cases (nat_eq c b'/')) [
  | inl absolute ↦ cc (rw (components, absolute) at h)
  | inr relative ↦
      pushed_first dotfiles (split b'/' (c ∷ s)) path (rw (components, relative) at h)
        (split-HasNo b'/' (c ∷ s))
]

-- A path that is let through leads, from any directory, to the directory itself with the path's
-- components behind it, whatever dots the request has; each of these is a name without a slash,
-- neither empty nor `.` nor `..`, and without a dot in front where dotfiles are denied.
pub safe_static_relative-IsContained :
    (requested : Bytes) (dotfiles : Dotfiles) (path : List Bytes)
    → safe_static_relative requested dotfiles ≡ ok path
    → IsContained dotfiles (split b'/' (or_index requested)) [] path
unfolding safe_static_relative
safe_static_relative-IsContained requested dotfiles path h =
    pushed_text (or_index requested) dotfiles path h
