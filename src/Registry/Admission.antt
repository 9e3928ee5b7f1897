-- ===== src/Registry/Admission.antt =====
-- The limits that `admit` of src/app/websocket/runtime.rs observes.
use rustrest.Prelude.{
  ℕ, ◌+◌, ◌^◌, ◌≤◌, ◌<◌, ◌≡◌, inl, inr, Bool, true, false, Option, none, some, to_ℕ, length, count,
  ℕ_eq, list_eq, ok, arith, length-insert, Option-cases,
}
use rustrest.Text.{Bytes}
use rustrest.Registry.{
  Registry, Limits, SocketAddr, count_of, reaches, ip_reaches, ip_of, rejection, admitted, admit,
  new_entry,
}
use rustrest.Registry.Counts.{
  IsCounted, on_route, from_ip, admitted-IsCounted, count_of-increment_count, count_of-increment_ip,
}
use rustrest.Registry.Reach.{Reach, Reach-IsCounted}

-- A number is within a limit, where one is set.
abbrev pub Within : Option ℕ → ℕ → Type 0
Within none used = Unit
Within (some limit) used = used ≤ limit

abbrev pub WithinForIp : Option ℕ → Option ℕ → Registry → Type 0
WithinForIp limit none r = Unit
WithinForIp limit (some ip) r = Within limit (count (from_ip ip) r.connections)

-- The connections stand within the limits: all of them, those of the route and those of the address.
pub record WithinLimits (limits : Limits) (route : Bytes) (addr : Option SocketAddr) (r : Registry)
    : Type 0 where
  pub process : Within limits.process_max_connections (length r.connections)
  pub route_limit : Within limits.route_max_connections (count (on_route route) r.connections)
  pub ip_limit : WithinForIp limits.max_connections_per_ip (ip_of addr) r

room_left :
    (limit : Option ℕ) (used used' : ℕ)
    → reaches limit used ≡ false
    → used' ≤ used + 1
    → Within limit used'
room_left none used used' h k = tt
room_left (some n) used used' h k = ground arith

ip_room_left :
    (limit : Option ℕ) (addr : Option ℕ) (r r' : Registry)
    → ip_reaches addr limit r.ip_counts ≡ false
    → ((ip : ℕ) → count (from_ip ip) r'.connections ≤ count_of ip r.ip_counts + 1)
    → WithinForIp limit addr r'
ip_room_left limit none r r' h k = tt
ip_room_left limit (some ip) r r' h k = room_left limit (count_of ip r.ip_counts) _ h (k ip)

-- What `rejection` answers `none` to.
allowed_by :
    (limits : Limits) (route : Bytes) (ip : Option ℕ) (r : Registry)
    → rejection limits route ip r ≡ none
    → (r.accepting ≡ true)
      × (reaches limits.process_max_connections (length r.connections) ≡ false)
      × (reaches limits.route_max_connections (count_of route r.route_counts) ≡ false)
      × (ip_reaches ip limits.max_connections_per_ip r.ip_counts ≡ false)
unfolding rejection
allowed_by limits route ip r h = ground arith

one_more : (a b c : ℕ) (test : Bool) → b ≡ a → b ≡ c + to_ℕ test → a ≤ c + 1
one_more a b c test h k = ground arith

admitted-WithinLimits :
    (limits : Limits) (route : Bytes) (addr : Option SocketAddr) (protocol : Option Bytes) (now : ℕ)
    (r : Registry)
    → rejection limits route (ip_of addr) r ≡ none
    → IsCounted (admitted limits route addr protocol now r)
    → WithinLimits limits route addr (admitted limits route addr protocol now r)
admitted-WithinLimits limits route addr protocol now r allowed counted' =
    let (accepting, all, on, from) = allowed_by limits route (ip_of addr) r allowed in
    record {
      process =
          room_left limits.process_max_connections (length r.connections) _ all
            (length-insert r.next_id (new_entry limits route addr protocol now) r.connections);
      route_limit = room_left limits.route_max_connections (count_of route r.route_counts) _ on (
          one_more _ _ _ _ (counted'.by_route route)
            (count_of-increment_count route route r.route_counts));
      ip_limit = ip_room_left limits.max_connections_per_ip (ip_of addr) r _ from (λ ip.
          one_more _ _ _ _ (counted'.by_ip ip) (count_of-increment_ip ip (ip_of addr) r.ip_counts));
    }

-- When `admit` answers a connection's identifier, in a registry that operations led to from a new
-- runtime and while an identifier is left (`next_id + 1` below 2^64), the connections it leaves
-- registered are within the process's, the route's and the address's limit, where one is set.
pub admit-WithinLimits :
    (limits : Limits) (route : Bytes) (addr : Option SocketAddr) (protocol : Option Bytes)
    (now id : ℕ) (r : Registry)
    → Reach r
    → r.next_id + 1 < 2 ^ 64
    → (admit limits route addr protocol now r).1 ≡ ok id
    → WithinLimits limits route addr (admit limits route addr protocol now r).0
unfolding admit
admit-WithinLimits limits route addr protocol now id r reached small answered =
    let counted = Reach-IsCounted r reached in
    elim (Option-cases (rejection limits route (ip_of addr) r)) [
      | inl allowed ↦
          rw (admit, allowed)
            (admitted-WithinLimits limits route addr protocol now r allowed
              (admitted-IsCounted limits route addr protocol now r small counted))
      | inr (error, denied) ↦ cc (rw (admit, denied) at answered)
    ]
