-- ===== src/Static.antt =====
-- Static files of src/app/router.rs: `Dotfiles` and `safe_static_relative`, with the components that
-- the standard library's `Path` has on Unix. A `PathBuf` is the list of its components.
pub mod Accepts
pub mod Contained
pub mod Delivery
pub mod Stream
use rustrest.Prelude.{
  ℕ, Bool, true, false, ◌&&◌, ◌||◌, List, [], ◌∷◌, ◌++◌, nat_eq, if◌then◌else◌, is_empty, Result,
  ok, err, ◌==◌, ℕ_eq, list_eq,
}
use rustrest.Text.{Bytes, codes, split}

pub data Dotfiles : Type 0 where
  deny allow : Dotfiles

pub data Component : Type 0 where
  root_dir cur_dir parent_dir : Component
  normal : Bytes → Component

pub data StaticPathRejection : Type 0 where
  hidden invalid : StaticPathRejection

abbrev pub is_denied : Dotfiles → Bool
is_denied deny = true
is_denied allow = false

abbrev pub starts_with_dot : Bytes → Bool
starts_with_dot [] = false
starts_with_dot (c ∷ s) = nat_eq c b'.'

-- The components between slashes: empty ones and inner `.` are skipped, a `.` at the start is not.
unfoldable pub inner_components : Bool → List Bytes → List Component
inner_components first [] = []
inner_components first (part ∷ parts) =
    let rest = inner_components false parts in
    if is_empty part
    then rest
    else if part == codes "."
    then (if first then cur_dir ∷ rest else rest)
    else if part == codes ".."
    then parent_dir ∷ rest
    else normal part ∷ rest

-- `Path::components` on Unix.
unfoldable pub components : Bytes → List Component
unfolding inner_components
components [] = []
components (c ∷ s) =
    if nat_eq c b'/'
    then root_dir ∷ inner_components false (split b'/' s)
    else inner_components true (split b'/' (c ∷ s))

-- The loop of `safe_static_relative`.
unfoldable pub push_components :
    Dotfiles → List Component → List Bytes → Result StaticPathRejection (List Bytes)
push_components dotfiles [] path = ok path
push_components dotfiles (normal part ∷ rest) path =
    let pushed = push_components dotfiles rest (path ++ part ∷ []) in
    if is_denied dotfiles && starts_with_dot part then err hidden else pushed
push_components dotfiles (cur_dir ∷ rest) path =
    let pushed = push_components dotfiles rest path in
    if is_denied dotfiles then err hidden else pushed
push_components dotfiles (root_dir ∷ rest) path = err invalid
push_components dotfiles (parent_dir ∷ rest) path = err invalid

-- The text that is taken apart: an empty one stands for the index.
abbrev pub or_index : Bytes → Bytes
or_index requested = if is_empty requested then codes "index.html" else requested

unfoldable pub safe_static_relative : Bytes → Dotfiles → Result StaticPathRejection (List Bytes)
unfolding components push_components
safe_static_relative requested dotfiles =
    push_components dotfiles (components (or_index requested)) []
