-- ===== src/Router/Forward.antt =====
-- One datagram through the router, and all that wait.
use cs144_sponge.Base.{
  ◌-◌, ap₂, sym, ℕ, zero, suc, ◌≤◌, ◌<◌, ◌≡◌, refl, ap, subst, ◌∙◌, inl, inr, Bool-cases, true,
  false, Option, none, some, List, [], ◌∷◌, ok, arith, leb, All, length, get_elem?,
}
use cs144_sponge.Ipv4Header.Fields.{Fits}
use cs144_sponge.Ipv4Datagram.{Ipv4Datagram}
use cs144_sponge.Ipv4Datagram.RoundTrip.{IsWhole}
use cs144_sponge.NetworkInterface
use cs144_sponge.NetworkInterface.{NetworkInterface}
use cs144_sponge.NetworkInterface.Total.{send_datagram_total}
use cs144_sponge.Router.{
  AsyncNetworkInterface, Router, Route, best, hop, set_at, send_from, decrement, route_one_datagram,
}
use cs144_sponge.Router.Prefix.{IsRoute}
use cs144_sponge.Router.Longest.{IsBest, longest_prefix}

decrement-IsWhole : (d : Ipv4Datagram) → IsWhole d → IsWhole (decrement d)
unfolding decrement
decrement-IsWhole d w =
    let v : Fits d.header = w.header_fits in
    record {
      header_fits = record {
        version = v.version;
        hlen_low = v.hlen_low;
        hlen_high = v.hlen_high;
        tos_fits = v.tos_fits;
        len_fits = v.len_fits;
        id_fits = v.id_fits;
        offset_fits = v.offset_fits;
        ttl_fits = omega (arith, v.ttl_fits);
        proto_fits = v.proto_fits;
        cksum_fits = v.cksum_fits;
        src_fits = v.src_fits;
        dst_fits = v.dst_fits;
      };
      total = w.total;
    }

-- The queues of the interfaces.
abbrev pub queues : List AsyncNetworkInterface → List (List Ipv4Datagram)
queues [] = []
queues (a ∷ rest) = a.datagrams_out ∷ queues rest

get_elem?-some {ℓ} :
    {A : Type ℓ} (xs : List A) (i : ℕ) → i < length xs → (x : A) × (get_elem? xs i ≡ some x)
get_elem?-some [] i h = absurd (omega arith)
get_elem?-some (x ∷ xs) zero h = (x, refl)
get_elem?-some (x ∷ xs) (suc i) h = get_elem?-some xs i (omega arith)

queues-set_at :
    (xs : List AsyncNetworkInterface) (k : ℕ) (a : AsyncNetworkInterface) (n : NetworkInterface)
    → get_elem? xs k ≡ some a
    → queues (set_at k (record a { base = n }) xs) ≡ queues xs
queues-set_at [] k a n e = refl
queues-set_at (b ∷ rest) zero a n e = ground (arith, e)
queues-set_at (b ∷ rest) (suc k) a n e =
    ap (λ qs. b.datagrams_out ∷ qs) (queues-set_at rest k a n e)

pub length-queues : (xs : List AsyncNetworkInterface) → length (queues xs) ≡ length xs
length-queues [] = refl
length-queues (a ∷ rest) = ap suc (length-queues rest)

-- The table's routes are prefixes, and lead to interfaces that are there.
abbrev pub Leads : ℕ → Route → Type 0
Leads count t = IsRoute t × (t.interface_num < count)

abbrev pub Sound : Router → Type 0
Sound r =
    All IsRoute r.router_table × All (λ t. t.interface_num < length r.interfaces) r.router_table

send_from_there :
    (r : Router) (k : ℕ) (d : Ipv4Datagram) (ip : ℕ) (a : AsyncNetworkInterface)
    (n : NetworkInterface)
    → get_elem? r.interfaces k ≡ some a
    → NetworkInterface.send_datagram a.base d ip ≡ ok n
    → send_from r k d ip
      ≡ ok (record r { interfaces = set_at k (record a { base = n }) r.interfaces })
unfolding send_from
send_from_there r k d ip a n there e = ground (arith, there, e)

All-get {ℓ κ} :
    {A : Type ℓ} (P : A → Type κ) (xs : List A) (i : ℕ) (x : A)
    → All P xs
    → get_elem? xs i ≡ some x
    → P x
All-get P [] i x h e = ground (arith, e)
All-get P (y ∷ xs) zero x (h, hs) e = let q : y ≡ x = ground (arith, e) in subst P q h
All-get P (y ∷ xs) (suc i) x (h, hs) e = All-get P xs i x hs e

-- The datagram that leaves the router: its time to live is less by one.
abbrev pub older : Ipv4Datagram → Ipv4Datagram
older d = record { header = record (d.header) { ttl = d.header.ttl - 1 }; payload = d.payload }

-- The next hop, or the destination where the route has none.
abbrev pub toward : Route → ℕ → ℕ
toward t dst = elim t.next_hop [ none ↦ dst | some a ↦ a ]

decrement-older : (d : Ipv4Datagram) → decrement d ≡ older d
unfolding decrement
decrement-older d = refl

hop-toward : (t : Route) (dst : ℕ) → hop t.next_hop dst ≡ toward t dst
hop-toward t dst = ground arith

-- What a datagram that is still alive does to the router: nothing without a route; with one, it is sent
-- from the route's interface with its time to live less by one, to the next hop or, where the route has
-- none, to its destination.
abbrev pub Effect : Router → Ipv4Datagram → Option ℕ → Router → Type 0
Effect r d none r' = r' ≡ r
Effect r d (some i) r' =
    (t : Route) × (a : AsyncNetworkInterface) × (n : NetworkInterface) × (get_elem? r.router_table i
      ≡ some t)
    × (get_elem? r.interfaces t.interface_num ≡ some a)
    × (NetworkInterface.send_datagram a.base (older d) (toward t d.header.dst) ≡ ok n)
    × (r' ≡ record r { interfaces = set_at t.interface_num (record a { base = n }) r.interfaces })

-- The routes of a router have prefixes that are numbers of 32 bits, of which 32 bits at most count, and
-- lead to interfaces that the router has. A datagram that is whole (its fields fit, and its length fields match its payload) and whose time to
-- live is more than 1 is routed without an exception or undefined behaviour, by the route with the
-- longest prefix that covers its destination, the last among equals in the table.
pub route_by_longest_prefix :
    (r : Router) (d : Ipv4Datagram)
    → Sound r
    → IsWhole d
    → 1 < d.header.ttl
    → (o : Option ℕ) × (r' : Router) × IsBest r.router_table d.header.dst o
      × (route_one_datagram r d ≡ ok r')
      × Effect r d o r'
unfolding route_one_datagram
route_by_longest_prefix r d (routes, leads) w alive =
    let (o, e, b) = longest_prefix r.router_table d.header.dst routes w.header_fits.dst_fits in
    let alive' : leb d.header.ttl 1 ≡ false = ground (arith, alive) in
    let (r', same, f, g) = go o e b alive' in (o, r', same, f, g)
  where
    go :
        (o : Option ℕ)
        → best r.router_table d.header.dst 0 none 0 ≡ ok o
        → IsBest r.router_table d.header.dst o
        → leb d.header.ttl 1 ≡ false
        → (r' : Router) × IsBest r.router_table d.header.dst o
          × (route_one_datagram r d ≡ ok r')
          × Effect r d o r'
    go none e b alive' = (r, b, rw (alive', e), refl)
    go (some i) e b alive' =
        let (t, at, c, below) = b in
        let (a, there) =
          get_elem?-some r.interfaces t.interface_num (All-get _ r.router_table i t leads at) in
        let (n, sent) =
          send_datagram_total a.base (decrement d) (hop t.next_hop d.header.dst)
            (decrement-IsWhole d w) in
        (
          record r { interfaces = set_at t.interface_num (record a { base = n }) r.interfaces },
          b,
          rw (alive', e)
              (ground (
                arith,
                at,
                send_from_there r t.interface_num (decrement d) (hop t.next_hop d.header.dst) a n
                    there sent,
              )),
          (
            t,
            a,
            n,
            at,
            there,
            ap₂ (λ x y. NetworkInterface.send_datagram a.base x y) (sym (decrement-older d))
                  (sym (hop-toward t d.header.dst))
                ∙ sent,
            refl,
          ),
        )

-- What routing a datagram leaves as it was.
pub record Unchanged (r r' : Router) : Type 0 where
  pub same_table : r'.router_table ≡ r.router_table
  pub same_queues : queues r'.interfaces ≡ queues r.interfaces

Effect-Unchanged :
    (r : Router) (d : Ipv4Datagram) (o : Option ℕ) (r' : Router) → Effect r d o r' → Unchanged r r'
Effect-Unchanged r d none r' e = record {
  same_table = ap (λ s. s.router_table) e;
  same_queues = ap (λ s. queues s.interfaces) e;
}
Effect-Unchanged r d (some i) r' (t, a, n, at, there, sent, e) = record {
  same_table = ap (λ s. s.router_table) e;
  same_queues =
      ap (λ s. queues s.interfaces) e ∙ queues-set_at r.interfaces t.interface_num a n there;
}

expired : (r : Router) (d : Ipv4Datagram) → d.header.ttl ≤ 1 → route_one_datagram r d ≡ ok r
unfolding route_one_datagram
expired r d h = let e : leb d.header.ttl 1 ≡ true = ground (arith, h) in rw e

pub route_one_total :
    (r : Router) (d : Ipv4Datagram)
    → Sound r
    → IsWhole d
    → (r' : Router) × (route_one_datagram r d ≡ ok r') × Unchanged r r'
route_one_total r d s w = elim (Bool-cases (leb d.header.ttl 1)) [
  | inl old ↦
      (r, expired r d (ground (arith, old)), record { same_table = refl; same_queues = refl })
  | inr alive ↦
      let (o, r', _, e, f) = route_by_longest_prefix r d s w (ground (arith, alive)) in
      (r', e, Effect-Unchanged r d o r' f)
]
