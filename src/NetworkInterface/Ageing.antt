-- ===== src/NetworkInterface/Ageing.antt =====
-- Time in the tables of addresses and requests.
use cs144_sponge.Base.{
  ℕ, ◌-◌, ◌*◌, ◌≤◌, ◌≡◌, refl, Option, none, some, [], ◌∷◌, ltb, if◌then◌else◌, Map, find, insert,
  UniqueKeys, arith, All,
}
use cs144_sponge.EthernetHeader.{EthernetAddress}
use cs144_sponge.NetworkInterface.{NetworkInterface, age_requests, age_cache, tick}

-- What is left of an entry.
abbrev pub aged : ℕ → Option ℕ → Option ℕ
aged ms none = none
aged ms (some left) = if ltb ms left then some (left - ms) else none

find-age_requests :
    (ms ip : ℕ) (m : Map ℕ) → UniqueKeys m → find ip (age_requests ms m) ≡ aged ms (find ip m)
unfolding age_requests
find-age_requests ms ip [] u = refl
find-age_requests ms ip ((j, left) ∷ m) (fresh, u) = ground (arith, find-age_requests ms ip m u)

age_requests-absent :
    (ms ip : ℕ) (m : Map ℕ) → find ip m ≡ none → find ip (age_requests ms m) ≡ none
unfolding age_requests
age_requests-absent ms ip [] h = refl
age_requests-absent ms ip ((j, left) ∷ m) h = ground (arith, age_requests-absent ms ip m)

pub age_requests-UniqueKeys : (ms : ℕ) (m : Map ℕ) → UniqueKeys m → UniqueKeys (age_requests ms m)
unfolding age_requests
age_requests-UniqueKeys ms [] u = tt
age_requests-UniqueKeys ms ((j, left) ∷ m) (fresh, u) =
    ground (arith, age_requests-UniqueKeys ms m u, age_requests-absent ms j m fresh)

-- What is left of a known address.
abbrev pub remembered : ℕ → Option (EthernetAddress × ℕ) → Option (EthernetAddress × ℕ)
remembered ms none = none
remembered ms (some (mac, left)) = if ltb ms left then some (mac, left - ms) else none

find-age_cache :
    (ms ip : ℕ) (m : Map (EthernetAddress × ℕ))
    → UniqueKeys m
    → find ip (age_cache ms m) ≡ remembered ms (find ip m)
unfolding age_cache
find-age_cache ms ip [] u = refl
find-age_cache ms ip ((j, (mac, left)) ∷ m) (fresh, u) = ground (arith, find-age_cache ms ip m u)

pub find-tick :
    (n : NetworkInterface) (ms ip : ℕ)
    → UniqueKeys n.arp_requests
    → find ip (tick n ms).arp_requests ≡ aged ms (find ip n.arp_requests)
unfolding tick
find-tick n ms ip u = find-age_requests ms ip n.arp_requests u

-- `tick` with `ms` milliseconds: an address that is known, and a request that was made, is kept with
-- `ms` less to live if it has more than that, and is forgotten otherwise, each under its own key; and
-- nothing that waits is lost or sent. No key stands twice in either table.
pub tick_ages :
    (n : NetworkInterface) (ms ip : ℕ)
    → UniqueKeys n.cache_map
    → UniqueKeys n.arp_requests
    → (find ip (tick n ms).cache_map ≡ remembered ms (find ip n.cache_map))
      × (find ip (tick n ms).arp_requests ≡ aged ms (find ip n.arp_requests))
      × ((tick n ms).datagram_queue ≡ n.datagram_queue)
      × ((tick n ms).frames_out ≡ n.frames_out)
unfolding tick
tick_ages n ms ip known asked = (
  find-age_cache ms ip n.cache_map known,
  find-age_requests ms ip n.arp_requests asked,
  refl,
  refl,
)

-- No address is kept for longer than 30 seconds, no request for longer than 5.
pub record Timed (n : NetworkInterface) : Type 0 where
  pub known : All (λ e. e.1.1 ≤ 30 * 1000) n.cache_map
  pub asked : All (λ e. e.1 ≤ 5 * 1000) n.arp_requests

pub All-insert {ℓ κ} :
    {V : Type ℓ} (P : V → Type κ) (k : ℕ) (v : V) (m : Map V)
    → P v
    → All (λ e. P e.1) m
    → All (λ e. P e.1) (insert k v m)
All-insert P k v [] p h = (p, tt)
All-insert P k v ((j, w) ∷ m) p (q, h) = ground (arith, All-insert P k v m p h)

age_cache-All :
    (ms : ℕ) (m : Map (EthernetAddress × ℕ))
    → All (λ e. e.1.1 ≤ 30 * 1000) m
    → All (λ e. e.1.1 ≤ 30 * 1000) (age_cache ms m)
unfolding age_cache
age_cache-All ms [] h = tt
age_cache-All ms ((j, (mac, left)) ∷ m) (q, h) = ground (arith, age_cache-All ms m h)

age_requests-All :
    (ms : ℕ) (m : Map ℕ)
    → All (λ e. e.1 ≤ 5 * 1000) m
    → All (λ e. e.1 ≤ 5 * 1000) (age_requests ms m)
unfolding age_requests
age_requests-All ms [] h = tt
age_requests-All ms ((j, left) ∷ m) (q, h) = ground (arith, age_requests-All ms m h)

pub tick-Timed : (n : NetworkInterface) (ms : ℕ) → Timed n → Timed (tick n ms)
unfolding tick
tick-Timed n ms v = record {
  known = age_cache-All ms n.cache_map v.known;
  asked = age_requests-All ms n.arp_requests v.asked;
}

age_cache-empty :
    (ms : ℕ) (m : Map (EthernetAddress × ℕ))
    → 30 * 1000 ≤ ms
    → All (λ e. e.1.1 ≤ 30 * 1000) m
    → age_cache ms m ≡ []
unfolding age_cache
age_cache-empty ms [] l h = refl
age_cache-empty ms ((j, (mac, left)) ∷ m) l (q, h) = ground (arith, age_cache-empty ms m l h)

age_requests-empty :
    (ms : ℕ) (m : Map ℕ) → 5 * 1000 ≤ ms → All (λ e. e.1 ≤ 5 * 1000) m → age_requests ms m ≡ []
unfolding age_requests
age_requests-empty ms [] l h = refl
age_requests-empty ms ((j, left) ∷ m) l (q, h) = ground (arith, age_requests-empty ms m l h)
