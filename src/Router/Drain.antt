-- ===== src/Router/Drain.antt =====
-- Routing ends, with every queue empty.
use cs144_sponge.Base.{
  ℕ, zero, suc, ◌+◌, ◌≤◌, ◌<◌, ◌≡◌, refl, ap, sym, subst, subst₂, ◌∙◌, inl, inr, List, [], ◌∷◌, ok,
  arith, All, length, drop, replicate, List-cases,
}
use cs144_sponge.Ipv4Datagram.{Ipv4Datagram}
use cs144_sponge.Ipv4Datagram.RoundTrip.{IsWhole}
use cs144_sponge.Router.{Router, route_one_datagram, waiting, pop, drain, route_from, route}
use cs144_sponge.Router.Prefix.{IsRoute}
use cs144_sponge.Router.Queues.{
  Queues, at_place, drop_at, clear, clear_from, Whole, waiting-queues, queues-pop, at_place-drop_at,
  length-drop_at, clear-drop_at, clear_idle, length-clear, clear_from-clear, clear_from_end,
  clear_from_all, Whole-at, drop_at-Whole, clear-Whole,
}
use cs144_sponge.Router.Forward.{Sound, queues, length-queues, route_one_total}

Sound-same :
    (r s : Router)
    → s.router_table ≡ r.router_table
    → length s.interfaces ≡ length r.interfaces
    → Sound r
    → Sound s
Sound-same r s table count (routes, leads) = (
  subst (All IsRoute) (sym table) routes,
  subst₂ (λ c t. All (λ x. x.interface_num < c) t) (sym count) (sym table) leads,
)

length-zero {ℓ} : {A : Type ℓ} (xs : List A) → length xs ≤ 0 → xs ≡ []
length-zero [] h = refl
length-zero (x ∷ xs) h = absurd (omega arith)

same_count :
    (r s : Router)
    → length (queues r.interfaces) ≡ length (queues s.interfaces)
    → length r.interfaces ≡ length s.interfaces
same_count r s e = sym (length-queues r.interfaces) ∙ e ∙ length-queues s.interfaces

drain_idle : (fuel : ℕ) (r : Router) (i : ℕ) → waiting r i ≡ [] → drain (suc fuel) r i ≡ ok r
unfolding drain
drain_idle fuel r i h = ground (arith, h)

drain_next :
    (fuel : ℕ) (r r1 : Router) (i : ℕ) (d : Ipv4Datagram) (rest : List Ipv4Datagram)
    → waiting r i ≡ d ∷ rest
    → route_one_datagram r d ≡ ok r1
    → drain (suc fuel) r i ≡ drain fuel (pop r1 i) i
unfolding drain
drain_next fuel r r1 i d rest h e = ground (arith, h, e)

drain_total :
    (fuel : ℕ) (r : Router) (i : ℕ) (qs : Queues)
    → Sound r
    → queues r.interfaces ≡ qs
    → Whole qs
    → length (at_place qs i) ≤ fuel
    → (r' : Router) × (drain fuel r i ≡ ok r')
      × (r'.router_table ≡ r.router_table)
      × (queues r'.interfaces ≡ clear i qs)
unfolding drain
drain_total zero r i qs s e w h =
    let idle : at_place qs i ≡ [] = length-zero (at_place qs i) h in
    let at : waiting r i ≡ [] = waiting-queues r.interfaces i ∙ ap (λ x. at_place x i) e ∙ idle in
    (r, rw at, refl, e ∙ sym (clear_idle qs i idle))
drain_total (suc fuel) r i qs s e w h =
    let at : waiting r i ≡ at_place qs i =
      waiting-queues r.interfaces i ∙ ap (λ x. at_place x i) e in
    elim (List-cases (at_place qs i)) [
      | inl idle ↦ (r, drain_idle fuel r i (at ∙ idle), refl, e ∙ sym (clear_idle qs i idle))
      | inr (d, rest, busy) ↦
          let (r1, routed, same) =
            route_one_total r d s (subst (All IsWhole) busy (Whole-at qs i w)).0 in
          let now : queues (pop r1 i).interfaces ≡ drop_at i qs =
            queues-pop r1.interfaces i ∙ ap (drop_at i) (same.same_queues ∙ e) in
          let count : length (pop r1 i).interfaces ≡ length r.interfaces =
            same_count (pop r1 i) r (ap length now ∙ length-drop_at qs i ∙ ap length (sym e)) in
          let left : length (at_place (drop_at i qs) i) ≤ fuel =
            omega
              (arith, h, ap length busy, ap length (at_place-drop_at qs i ∙ ap (drop 1) busy)) in
          let (r', drained, table, end) =
            drain_total fuel (pop r1 i) i (drop_at i qs)
              (Sound-same r (pop r1 i) same.same_table count s) now (drop_at-Whole qs i w) left in
          (
            r',
            drain_next fuel r r1 i d rest (at ∙ busy) routed ∙ drained,
            table ∙ same.same_table,
            end ∙ clear-drop_at qs i,
          )
    ]

route_from_total :
    (count i : ℕ) (r : Router) (qs : Queues)
    → Sound r
    → queues r.interfaces ≡ qs
    → Whole qs
    → length qs ≤ i + count
    → (r' : Router) × (route_from count i r ≡ ok r') × (queues r'.interfaces ≡ clear_from i qs)
unfolding route_from
route_from_total zero i r qs s e w h = (r, refl, e ∙ sym (clear_from_end qs i (omega (arith, h))))
route_from_total (suc count) i r qs s e w h =
    let at : waiting r i ≡ at_place qs i =
      waiting-queues r.interfaces i ∙ ap (λ x. at_place x i) e in
    let (r1, drained, table, now) =
      drain_total (length (waiting r i)) r i qs s e w (omega (arith, ap length at)) in
    let count' : length r1.interfaces ≡ length r.interfaces =
      same_count r1 r (ap length now ∙ length-clear qs i ∙ ap length (sym e)) in
    let (r', routed, end) =
      route_from_total count (i + 1) r1 (clear i qs) (Sound-same r r1 table count' s) now
        (clear-Whole qs i w) (omega (arith, h, length-clear qs i)) in
    let next : i + 1 ≡ suc i = omega arith in
    (r', rw drained routed, end ∙ ap (λ k. clear_from k (clear i qs)) next ∙ clear_from-clear qs i)

-- Where the table's routes are prefixes that lead to interfaces of the router, and each datagram that
-- waits can be written, `route` ends without an exception or undefined behaviour, and then no datagram
-- waits at any interface.
pub route_total :
    (r : Router)
    → Sound r
    → Whole (queues r.interfaces)
    → (r' : Router) × (route r ≡ ok r')
      × (queues r'.interfaces ≡ replicate (length r.interfaces) [])
unfolding route
route_total r s w =
    let (r', routed, end) =
      route_from_total (length r.interfaces) 0 r (queues r.interfaces) s refl w
        (omega (arith, length-queues r.interfaces)) in
    (
      r',
      routed,
      end
          ∙ clear_from_all (queues r.interfaces)
          ∙ ap (λ n. replicate n []) (length-queues r.interfaces),
    )
