-- ===== src/Tests/Heads.antt =====
-- Short runs of the inspector of request heads, with a parser whose heads are one letter.
use rustrest.Prelude.{
  ℕ, ◌+◌, ◌<◌, ◌≡◌, ◌⊎◌, ◌↔◌, refl, inl, inr, Bool, true, false, ◌&&◌, List, [], ◌∷◌, Option, none,
  some, nat_eq, if◌then◌else◌, any, All, arith, is_empty, not, all, leb,
}
use rustrest.Text.{Bytes, codes, is_ascii_digit}
use rustrest.Http1.{
  Header, Request, ParseStatus, complete, partial, invalid, persistent, ambiguous, unclassified,
  complete_head, classify, is_connect, parse_content_length, max_decodable_length,
}
use rustrest.Http1.Framing.{
  IsTracked, names, decimal, parse_content_length-decimal, classify-persistent, classify-ambiguous,
}
use rustrest.Http1.Stream.{Inspector, new_inspector, poll_read, take_verdict}
use rustrest.Http1.Stream.Rounds.{Consumes, BodyLeft, Loops, poll_read-Loops}
use rustrest.Http1.Stream.Orderly.{IsOrderly}
use rustrest.Http1.Stream.Service.{
  reads, takes, Leads, here, then_step, verdicts-IsOrderly, verdicts-close,
}

abbrev length_two : Header
length_two = record { name = codes "Content-Length"; value = codes "2" }

abbrev chunked : Header
chunked = record { name = codes "transfer-encoding"; value = codes "chunked" }

abbrev two_bytes : Request
two_bytes = record { method = some (codes "PUT"); headers = length_two ∷ [] }

abbrev both : Request
both = record { method = some (codes "PUT"); headers = length_two ∷ chunked ∷ [] }

-- `p` is a request with a body of two bytes, `a` an ambiguous one.
abbrev letters : ℕ → Bytes → ParseStatus
letters max_headers [] = partial
letters max_headers (c ∷ s) =
    if nat_eq c b'p'
    then complete 1 two_bytes
    else if nat_eq c b'a'
    then complete 1 both
    else invalid

letters-Consumes : Consumes letters
letters-Consumes max_headers [] length request e = absurd (cc)
letters-Consumes max_headers (c ∷ s) length request e = ground arith

abbrev fresh : Inspector
fresh = new_inspector 100 10

-- A request, the first byte of its body; then the rest, and an ambiguous request.
abbrev second : Inspector
second = poll_read letters (codes "yap") (poll_read letters (codes "px") fresh)

second-Leads : Leads letters fresh second
second-Leads =
    then_step (poll_read letters (codes "px") fresh) second
      (then_step fresh (poll_read letters (codes "px") fresh) here (reads (codes "px") fresh))
      (reads (codes "yap") (poll_read letters (codes "px") fresh))

verdicts_second : second.verdicts ≡ persistent ∷ ambiguous ∷ []
unfolding poll_read new_inspector rustrest.Prelude.list_beq rustrest.Text.to_ascii_lower
    rustrest.Text.is_ascii_digit
verdicts_second = refl

verdicts-IsOrderly_example : IsOrderly second
verdicts-IsOrderly_example = verdicts-IsOrderly letters letters-Consumes 100 10 second second-Leads

abbrev served : Inspector
served = (take_verdict second).0

served-Leads : Leads letters fresh served
served-Leads = then_step second served second-Leads (takes second)

served_ambiguous : (take_verdict served).1 ≡ ambiguous
unfolding poll_read new_inspector rustrest.Prelude.list_beq rustrest.Text.to_ascii_lower
    rustrest.Text.is_ascii_digit
served_ambiguous = refl

abbrev closing : Inspector
closing = (take_verdict served).0

verdicts-close_example : (take_verdict (poll_read letters (codes "p") closing)).1 ≡ unclassified
verdicts-close_example =
    verdicts-close letters letters-Consumes 100 10 served (poll_read letters (codes "p") closing)
      served-Leads (inr served_ambiguous)
      (then_step closing (poll_read letters (codes "p") closing) here (reads (codes "p") closing))

fresh-BodyLeft : BodyLeft fresh.state
unfolding new_inspector
fresh-BodyLeft = tt

poll_read-Loops_example :
    Loops letters (codes "px") fresh (poll_read letters (codes "px") fresh)
    × BodyLeft (poll_read letters (codes "px") fresh).state
poll_read-Loops_example = poll_read-Loops letters letters-Consumes (codes "px") fresh fresh-BodyLeft

two_bytes_persistent : classify (complete 1 two_bytes) ≡ complete_head 1 persistent 2
unfolding classify rustrest.Prelude.list_beq rustrest.Text.to_ascii_lower
    rustrest.Text.is_ascii_digit
two_bytes_persistent = refl

classify-persistent_example :
    All (IsTracked 2) two_bytes.headers × (is_connect two_bytes.method ≡ false)
classify-persistent_example = classify-persistent 1 two_bytes 2 two_bytes_persistent

both_ambiguous : classify (complete 1 both) ≡ complete_head 1 ambiguous 2
unfolding classify rustrest.Prelude.list_beq rustrest.Text.to_ascii_lower
    rustrest.Text.is_ascii_digit
both_ambiguous = refl

classify-ambiguous_example : (ambiguous ≡ ambiguous) ↔ (
    (any (names (codes "transfer-encoding")) both.headers
      && any (names (codes "content-length")) both.headers)
    ≡ true)
classify-ambiguous_example = classify-ambiguous 1 both ambiguous 2 both_ambiguous

parse_content_length-decimal_example : parse_content_length (codes "42") ≡ (
    if not (is_empty (codes "42"))
      && all is_ascii_digit (codes "42")
      && leb (decimal (codes "42") 0) max_decodable_length
    then some (decimal (codes "42") 0)
    else none)
parse_content_length-decimal_example = parse_content_length-decimal (codes "42")
