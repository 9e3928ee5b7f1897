-- ===== src/Tests/Files.antt =====
-- Requests for static files.
use rustrest.Prelude.{
  zero, suc, ◌≤◌, ap, true, arith, take, drop, min, ◌-◌, length, ℕ, ◌≡◌, refl, false, [], ◌∷◌, ok,
  err, is_ok, ℕ_eq, list_eq,
}
use rustrest.Text.{Bytes, codes, split}
use rustrest.Static.{deny, allow, hidden, invalid, or_index, safe_static_relative}
use rustrest.Static.Contained.{IsContained, safe_static_relative-IsContained}
use rustrest.Static.Stream.{Surroundings, read_bytes, produce, pending, FromFile}
use rustrest.Static.Delivery.{Delivered, file_stream-Delivered}
use rustrest.Static.Accepts.{is_allowed, is_ok-safe_static_relative}

serves_logo :
    safe_static_relative (codes "img//./logo.png") deny ≡ ok (codes "img" ∷ codes "logo.png" ∷ [])
unfolding safe_static_relative split rustrest.Prelude.list_beq
serves_logo = refl

hides_env : safe_static_relative (codes "img/.env") deny ≡ err hidden
unfolding safe_static_relative split rustrest.Prelude.list_beq
hides_env = refl

refuses_parent : safe_static_relative (codes "img/../../etc") allow ≡ err invalid
unfolding safe_static_relative split rustrest.Prelude.list_beq
refuses_parent = refl

safe_static_relative-IsContained_example :
    IsContained deny
      (split b'/' (or_index (codes "img//./logo.png")))
      []
      (codes "img" ∷ codes "logo.png" ∷ [])
safe_static_relative-IsContained_example =
    safe_static_relative-IsContained (codes "img//./logo.png") deny
      (codes "img" ∷ codes "logo.png" ∷ []) serves_logo

is_ok-safe_static_relative_example :
    is_ok (safe_static_relative (codes "img/.env") deny)
    ≡ is_allowed deny (or_index (codes "img/.env"))
is_ok-safe_static_relative_example = is_ok-safe_static_relative (codes "img/.env") deny

abbrev notes : Bytes
notes = codes "0123456789"

-- A file system that reads four bytes at a time at most.
abbrev slow : Surroundings
slow = record {
  is_late = λ turn. false;
  read =
      λ turn position room. let bytes = take (min room 4) (drop position notes) in read_bytes bytes;
  is_sent = λ turn. true;
}

taken : (k : ℕ) (s : Bytes) → (length (take k s) ≤ k) × (take k s ≡ take (length (take k s)) s)
taken zero s = (omega arith, refl)
taken (suc k) [] = (omega arith, refl)
taken (suc k) (c ∷ s) =
    let (less, same) = taken k s in (omega arith, ap (λ (x : Bytes). c ∷ x) same)

slow-FromFile :
    (turn position room : ℕ) → FromFile notes position room (slow.read turn position room)
slow-FromFile turn position room =
    let (less, same) = taken (min room 4) (drop position notes) in (omega arith, same)

streams_slice : produce slow 7 0 2 7 ≡ ok (codes "2345") ∷ ok (codes "678") ∷ []
unfolding produce
streams_slice = refl

file_stream-Delivered_example : Delivered slow notes slow-FromFile (pending true 2 7) 2 7
file_stream-Delivered_example =
    file_stream-Delivered slow notes slow-FromFile true 2 7 (omega arith)
