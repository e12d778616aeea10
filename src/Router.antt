-- ===== src/Router.antt =====
-- libsponge/router.{hh,cc}: a router among network interfaces.
pub mod Prefix
pub mod Longest
pub mod Forward
pub mod Queues
pub mod Drain
mod Examples
use cs144_sponge.Base.{
  ℕ, zero, suc, ◌+◌, ◌-◌, ◌*◌, ◌%◌, ◌^◌, Bool, true, false, ◌&&◌, not, Option, none, some, List, [],
  ◌∷◌, ◌++◌, ltb, leb, ◌==◌, if◌then◌else◌, Result, ok, err, undefined, out_of_range, out_of_fuel,
  ◌>>=◌, length, get_elem?, drop, is_empty, u32,
}
use Prim.Native.Nat.{bit_and}
use cs144_sponge.EthernetHeader.{EthernetAddress}
use cs144_sponge.EthernetFrame.{EthernetFrame}
use cs144_sponge.Ipv4Header.{Ipv4Header}
use cs144_sponge.Ipv4Datagram.{Ipv4Datagram}
use cs144_sponge.NetworkInterface
use cs144_sponge.NetworkInterface.{NetworkInterface}

pub record AsyncNetworkInterface : Type 0 where
  pub base : NetworkInterface
  pub datagrams_out : List Ipv4Datagram

-- Both constructors.
unfoldable pub new_interface : EthernetAddress → ℕ → AsyncNetworkInterface
new_interface ethernet_address ip_address = record {
  base = NetworkInterface.new ethernet_address ip_address;
  datagrams_out = [];
}

unfoldable pub of_interface : NetworkInterface → AsyncNetworkInterface
of_interface n = record { base = n; datagrams_out = [] }

abbrev pub store :
    Option Ipv4Datagram → NetworkInterface → List Ipv4Datagram → AsyncNetworkInterface
store none n queue = record { base = n; datagrams_out = queue }
store (some d) n queue = record { base = n; datagrams_out = queue ++ (d ∷ []) }

-- `AsyncNetworkInterface::recv_frame`
unfoldable pub recv_frame : AsyncNetworkInterface → EthernetFrame → Result AsyncNetworkInterface
recv_frame a frame =
    NetworkInterface.recv_frame a.base frame >>= λ r. ok (store r.0 r.1 a.datagrams_out)

-- A tuple of `_routerTable`.
pub record Route : Type 0 where
  pub route_prefix : ℕ
  pub prefix_length : ℕ
  pub next_hop : Option ℕ
  pub interface_num : ℕ

pub record Router : Type 0 where
  pub interfaces : List AsyncNetworkInterface
  pub router_table : List Route

abbrev pub empty : Router
empty = record { interfaces = []; router_table = [] }

-- The index of the interface, and the router with it.
unfoldable pub add_interface : Router → AsyncNetworkInterface → ℕ × Router
add_interface r a =
    let interfaces : List AsyncNetworkInterface = r.interfaces ++ (a ∷ []) in
    (length interfaces - 1, record r { interfaces = interfaces })

-- `Router::interface`
unfoldable pub interface : Router → ℕ → Result AsyncNetworkInterface
interface r n = elim (get_elem? r.interfaces n) [ none ↦ err out_of_range | some a ↦ ok a ]

unfoldable pub add_route : Router → ℕ → ℕ → Option ℕ → ℕ → Router
add_route r route_prefix prefix_length next_hop interface_num = record r {
  router_table =
      r.router_table
      ++ (record {
        route_prefix = route_prefix;
        prefix_length = prefix_length;
        next_hop = next_hop;
        interface_num = interface_num;
      }
          ∷ []);
}

-- A shift by a negative number, for n > 32, is undefined behaviour.
unfoldable pub construct_binary_with_ones : ℕ → Result ℕ
construct_binary_with_ones n =
    if leb n 32 then ok (((2 ^ n - 1) * 2 ^ (32 - n)) % 2 ^ 64) else err undefined

-- Does the route's prefix match?
unfoldable pub matches : Route → ℕ → Result Bool
matches t dst = construct_binary_with_ones t.prefix_length >>= λ ones.
    ok (bit_and t.route_prefix (u32 ones) == bit_and dst (u32 ones))

-- The loop over the table from place `i`: `index` (`none` for -1) and `maxPrefix` so far.
unfoldable pub best : List Route → ℕ → ℕ → Option ℕ → ℕ → Result (Option ℕ)
best [] dst i index max_prefix = ok index
best (t ∷ table) dst i index max_prefix = matches t dst >>= λ fits.
    let better = fits && leb max_prefix t.prefix_length in
    best table dst (i + 1) (if better then some i else index)
      (if better then t.prefix_length else max_prefix)

abbrev pub hop : Option ℕ → ℕ → ℕ
hop (some a) dst = a
hop none dst = dst

-- An element of the vector is replaced.
abbrev pub set_at {ℓ} : {A : Type ℓ} → ℕ → A → List A → List A
set_at i a [] = []
set_at zero a (x ∷ xs) = a ∷ xs
set_at (suc i) a (x ∷ xs) = x ∷ set_at i a xs

-- `_interfaces[k].send_datagram(...)`; `operator[]` does not check its index.
unfoldable pub send_from : Router → ℕ → Ipv4Datagram → ℕ → Result Router
send_from r k dgram next_hop = elim (get_elem? r.interfaces k) [
  | none ↦ err undefined
  | some a ↦ NetworkInterface.send_datagram a.base dgram next_hop >>= λ n.
      ok (record r { interfaces = set_at k (record a { base = n }) r.interfaces })
]

unfoldable pub decrement : Ipv4Datagram → Ipv4Datagram
decrement dgram = record dgram { header = record (dgram.header) { ttl = dgram.header.ttl - 1 } }

-- The datagram is the front of a queue that drops it next, so its changed TTL is not kept.
unfoldable pub route_one_datagram : Router → Ipv4Datagram → Result Router
route_one_datagram r dgram =
    if leb dgram.header.ttl 1
    then ok r
    else (best r.router_table dgram.header.dst 0 none 0 >>= λ index. elim index [
      | none ↦ ok r
      | some i ↦ elim (get_elem? r.router_table i) [
        | none ↦ err undefined
        | some t ↦ send_from r t.interface_num (decrement dgram) (hop t.next_hop dgram.header.dst)
      ]
    ])

-- The queue of the interface at place i.
abbrev pub queue_at : List AsyncNetworkInterface → ℕ → List Ipv4Datagram
queue_at [] i = []
queue_at (a ∷ others) zero = a.datagrams_out
queue_at (a ∷ others) (suc i) = queue_at others i

abbrev pub waiting : Router → ℕ → List Ipv4Datagram
waiting r i = queue_at r.interfaces i

-- `queue.pop()`
abbrev pub pop_at : ℕ → List AsyncNetworkInterface → List AsyncNetworkInterface
pop_at i [] = []
pop_at zero (a ∷ others) = record a { datagrams_out = drop 1 a.datagrams_out } ∷ others
pop_at (suc i) (a ∷ others) = a ∷ pop_at i others

abbrev pub pop : Router → ℕ → Router
pop r i = record r { interfaces = pop_at i r.interfaces }

-- The inner loop of `route` for interface `i`.
unfoldable pub drain : ℕ → Router → ℕ → Result Router
drain zero r i = if is_empty (waiting r i) then ok r else err out_of_fuel
drain (suc fuel) r i = elim (waiting r i) [
  | [] ↦ ok r
  | d ∷ queue ↦ route_one_datagram r d >>= λ r'. drain fuel (pop r' i) i
]

-- The loop over `count` interfaces from place `i`, with enough fuel for each inner loop.
unfoldable pub route_from : ℕ → ℕ → Router → Result Router
route_from zero i r = ok r
route_from (suc count) i r = drain (length (waiting r i)) r i >>= λ r'. route_from count (i + 1) r'

unfoldable pub route : Router → Result Router
route r = route_from (length r.interfaces) 0 r
