-- ===== src/Registry/Counts.antt =====
-- The counters of src/app/websocket/runtime.rs by route and by address, and the identifiers: every
-- operation of the registry keeps them exact.
use rustrest.Prelude.{
  ℕ, ◌+◌, ◌-◌, ◌%◌, ◌^◌, ◌≤◌, ◌<◌, ◌≡◌, sym, ◌∙◌, ap, inl, inr, Bool, false, List, [], ◌∷◌, Option,
  none, some, to_ℕ, count, All, Eq, ◌==◌, ℕ_eq, list_eq, pair_eq, lookup, lookup-insert,
  lookup-remove, arith, Absent, Distinct, count-insert_new, count-remove, count-insert_same,
  Distinct-insert, Distinct-remove, All-insert, All-remove, Option-cases,
}
use rustrest.Text.{Bytes}
use rustrest.Registry.{
  ConnectionEntry, Registry, Limits, SocketAddr, count_of, increment_count, decrement_count, ip_of,
  increment_ip, decrement_ip, admitted, set_entry,
}
use rustrest.Registry.Rooms.{released}

module _ {K : Type 0} ⦃e : Eq K⦄ where
  pub count_of-increment_count :
      (j k : K) (counts : List (K × ℕ))
      → count_of j (increment_count k counts) ≡ count_of j counts + to_ℕ (k == j)
  unfolding count_of increment_count
  count_of-increment_count j k counts =
      ground (arith, lookup-insert k j (count_of k counts + 1) counts, e.beq_iff k j)

  pub count_of-decrement_count :
      (j k : K) (counts : List (K × ℕ))
      → count_of j (decrement_count k counts) ≡ count_of j counts - to_ℕ (k == j)
  unfolding count_of decrement_count
  count_of-decrement_count j k counts = elim (Option-cases (lookup k counts)) [
    | inl missing ↦ ground (arith, missing, e.beq_iff k j)
    | inr (n, found) ↦
        ground
          (arith, found, lookup-insert k j (n - 1) counts, lookup-remove k j counts, e.beq_iff k j)
  ]

-- The connections that are counted for a route, and those for an address.
abbrev pub on_route : Bytes → ℕ × ConnectionEntry → Bool
on_route route connection = connection.1.route == route

abbrev pub ip_is : Option ℕ → ℕ → Bool
ip_is none ip = false
ip_is (some j) ip = j == ip

abbrev pub from_ip : ℕ → ℕ × ConnectionEntry → Bool
from_ip ip connection = ip_is (ip_of connection.1.remote_addr) ip

-- The counters are the numbers of connections, and the identifiers are used once.
pub record IsCounted (r : Registry) : Type 0 where
  pub distinct : Distinct r.connections
  pub issued : All (λ c. c.0 < r.next_id) r.connections
  pub by_route :
      (route : Bytes) → count_of route r.route_counts ≡ count (on_route route) r.connections
  pub by_ip : (ip : ℕ) → count_of ip r.ip_counts ≡ count (from_ip ip) r.connections

pub count_of-increment_ip :
    (ip : ℕ) (addr : Option ℕ) (counts : List (ℕ × ℕ))
    → count_of ip (increment_ip addr counts) ≡ count_of ip counts + to_ℕ (ip_is addr ip)
count_of-increment_ip ip none counts = omega arith
count_of-increment_ip ip (some j) counts = count_of-increment_count ip j counts

count_of-decrement_ip :
    (ip : ℕ) (addr : Option ℕ) (counts : List (ℕ × ℕ))
    → count_of ip (decrement_ip addr counts) ≡ count_of ip counts - to_ℕ (ip_is addr ip)
count_of-decrement_ip ip none counts = omega arith
count_of-decrement_ip ip (some j) counts = count_of-decrement_count ip j counts

pub Absent-issued : (n : ℕ) (m : List (ℕ × ConnectionEntry)) → All (λ c. c.0 < n) m → Absent n m
Absent-issued n [] h = tt
Absent-issued n (c ∷ m) h = ((λ same. omega arith), Absent-issued n m h.1)

All-lt_later :
    (n k : ℕ) (m : List (ℕ × ConnectionEntry)) → n ≤ k → All (λ c. c.0 < n) m → All (λ c. c.0 < k) m
All-lt_later n k [] le h = tt
All-lt_later n k (c ∷ m) le h = (omega arith, All-lt_later n k m le h.1)

issued_found :
    (id : ℕ) (entry : ConnectionEntry) (n : ℕ) (m : List (ℕ × ConnectionEntry))
    → lookup id m ≡ some entry
    → All (λ c. c.0 < n) m
    → id < n
unfolding lookup
issued_found id entry n [] found h = cc
issued_found id entry n ((j, w) ∷ m) found h = ground (arith, h.0, issued_found id entry n m)

less : (a b c : ℕ) → a ≡ b + c → a - c ≡ b
less a b c h = omega arith

-- What `admit` stores keeps the counters exact, while identifiers are left.
pub admitted-IsCounted :
    (limits : Limits) (route : Bytes) (addr : Option SocketAddr) (protocol : Option Bytes) (now : ℕ)
    (r : Registry)
    → r.next_id + 1 < 2 ^ 64
    → IsCounted r
    → IsCounted (admitted limits route addr protocol now r)
admitted-IsCounted limits route addr protocol now r small h =
    let next : (r.next_id + 1) % 2 ^ 64 ≡ r.next_id + 1 = omega arith in
    let absent = Absent-issued r.next_id r.connections h.issued in
    let later =
      All-lt_later r.next_id ((r.next_id + 1) % 2 ^ 64) r.connections (omega arith) h.issued in
    record {
      distinct = Distinct-insert r.next_id _ r.connections h.distinct;
      issued =
          All-insert (λ c. c.0 < (r.next_id + 1) % 2 ^ 64) r.next_id _ r.connections (omega arith)
            later;
      by_route = λ j.
          count_of-increment_count j route r.route_counts
          ∙ ap (λ n. n + to_ℕ (route == j)) (h.by_route j)
          ∙ sym (count-insert_new (on_route j) r.next_id _ r.connections absent);
      by_ip = λ ip.
          count_of-increment_ip ip (ip_of addr) r.ip_counts
          ∙ ap (λ n. n + to_ℕ (ip_is (ip_of addr) ip)) (h.by_ip ip)
          ∙ sym (count-insert_new (from_ip ip) r.next_id _ r.connections absent);
    }

-- A change of a stored entry that leaves its route and its address keeps the counters exact.
pub set_entry-IsCounted :
    (id : ℕ) (entry entry' : ConnectionEntry) (r : Registry)
    → lookup id r.connections ≡ some entry
    → entry'.route ≡ entry.route
    → entry'.remote_addr ≡ entry.remote_addr
    → IsCounted r
    → IsCounted (set_entry id entry' r)
unfolding set_entry
set_entry-IsCounted id entry entry' r found route addr h = record {
  distinct = Distinct-insert id entry' r.connections h.distinct;
  issued =
      All-insert (λ c. c.0 < r.next_id) id entry' r.connections
        (issued_found id entry _ r.connections found h.issued) h.issued;
  by_route = λ j.
      h.by_route j
      ∙ sym (
          count-insert_same (on_route j) id entry' entry r.connections found
            (ap (λ x. x == j) (sym route)));
  by_ip = λ ip.
      h.by_ip ip
      ∙ sym (
          count-insert_same (from_ip ip) id entry' entry r.connections found
            (ap (λ a. ip_is (ip_of a) ip) (sym addr)));
}

-- What `release` takes out keeps the counters exact.
pub released-IsCounted :
    (id : ℕ) (entry : ConnectionEntry) (r : Registry)
    → lookup id r.connections ≡ some entry
    → IsCounted r
    → IsCounted (released id entry r)
released-IsCounted id entry r found h = record {
  distinct = Distinct-remove id r.connections h.distinct;
  issued = All-remove (λ c. c.0 < r.next_id) id r.connections h.issued;
  by_route = λ j.
      let here = count-remove (on_route j) id entry r.connections h.distinct found in
      count_of-decrement_count j entry.route r.route_counts ∙ (less _ _ _ (h.by_route j ∙ here));
  by_ip = λ ip.
      let here = count-remove (from_ip ip) id entry r.connections h.distinct found in
      count_of-decrement_ip ip (ip_of entry.remote_addr) r.ip_counts
      ∙ (less _ _ _ (h.by_ip ip ∙ here));
}
