-- ===== src/Router/Examples.antt =====
-- A router with two interfaces, on a concrete input.
use cs144_sponge.Base.{
  ℕ, ◌+◌, ◌≡◌, ◌↔◌, refl, true, Bool, Option, none, some, List, [], ◌∷◌, All, replicate, arith, ok,
}
use cs144_sponge.EthernetHeader.Samples.{first_mac, second_mac}
use cs144_sponge.Ipv4Datagram.Samples.{sample_datagram, sample_datagram-IsWhole}
use cs144_sponge.Router.{
  AsyncNetworkInterface, Router, Route, empty, new_interface, add_interface, add_route, matches,
  best, route_one_datagram, route,
}
use cs144_sponge.NetworkInterface
use cs144_sponge.Router.Prefix.{IsRoute, Covers, matches_prefix}
use cs144_sponge.Router.Longest.{IsBest, longest_prefix}
use cs144_sponge.Router.Forward.{Sound, Effect, queues, route_by_longest_prefix}
use cs144_sponge.Router.Drain.{route_total}

abbrev default_route : Route
default_route = record {
  route_prefix = 0;
  prefix_length = 0;
  next_hop = some 3232235778;
  interface_num = 0;
}

-- 192.168.1.0/24, attached directly.
abbrev local_route : Route
local_route = record {
  route_prefix = 3232235776 + 256;
  prefix_length = 24;
  next_hop = none;
  interface_num = 1;
}

abbrev sample_table : List Route
sample_table = default_route ∷ local_route ∷ default_route ∷ []

abbrev sample_router : Router
sample_router = record {
  interfaces =
      record {
        base = NetworkInterface.new first_mac 3232235777;
        datagrams_out = sample_datagram ∷ sample_datagram ∷ [];
      }
      ∷ new_interface second_mac 3232236033
      ∷ [];
  router_table = sample_table;
}

default_route-IsRoute : IsRoute default_route
default_route-IsRoute = record { prefix_fits = omega arith; length_fits = omega arith }

local_route-IsRoute : IsRoute local_route
local_route-IsRoute = record { prefix_fits = omega arith; length_fits = omega arith }

abbrev sample_dst : ℕ
sample_dst = 3232236034

all_routes : All IsRoute sample_table
all_routes = (default_route-IsRoute, (local_route-IsRoute, (default_route-IsRoute, tt)))

sample_router-Sound : Sound sample_router
sample_router-Sound = (all_routes, (omega arith, (omega arith, (omega arith, tt))))

picks_local : best sample_table sample_dst 0 none 0 ≡ ok (some 1)
unfolding best matches cs144_sponge.Router.construct_binary_with_ones
picks_local = refl

matches_prefix_example :
    (b : Bool) × (matches local_route sample_dst ≡ ok b)
    × ((b ≡ true) ↔ Covers local_route sample_dst)
matches_prefix_example = matches_prefix local_route sample_dst local_route-IsRoute (omega arith)

longest_prefix_example :
    (o : Option ℕ) × (best sample_table sample_dst 0 none 0 ≡ ok o)
    × IsBest sample_table sample_dst o
longest_prefix_example = longest_prefix sample_table sample_dst all_routes (omega arith)

route_by_longest_prefix_example :
    (o : Option ℕ) × (r : Router) × IsBest sample_table sample_dst o
    × (route_one_datagram sample_router sample_datagram ≡ ok r)
    × Effect sample_router sample_datagram o r
route_by_longest_prefix_example =
    route_by_longest_prefix sample_router sample_datagram sample_router-Sound
      sample_datagram-IsWhole (omega arith)

route_total_example :
    (r : Router) × (route sample_router ≡ ok r) × (queues r.interfaces ≡ replicate 2 [])
unfolding new_interface
route_total_example =
    route_total sample_router sample_router-Sound
      ((sample_datagram-IsWhole, (sample_datagram-IsWhole, tt)), (tt, tt))
