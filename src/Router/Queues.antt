-- ===== src/Router/Queues.antt =====
-- The queues of a router's interfaces, apart from all else.
use cs144_sponge.Base.{
  ℕ, zero, suc, ◌≤◌, ◌≡◌, refl, ap, sym, List, [], ◌∷◌, arith, All, length, drop, replicate,
}
use cs144_sponge.Ipv4Datagram.{Ipv4Datagram}
use cs144_sponge.Ipv4Datagram.RoundTrip.{IsWhole}
use cs144_sponge.Router.{AsyncNetworkInterface, queue_at, pop_at}
use cs144_sponge.Router.Forward.{queues}

abbrev pub Queues : Type 0
Queues = List (List Ipv4Datagram)

abbrev pub at_place : Queues → ℕ → List Ipv4Datagram
at_place [] i = []
at_place (q ∷ qs) zero = q
at_place (q ∷ qs) (suc i) = at_place qs i

-- The front of the queue at place i is dropped.
abbrev pub drop_at : ℕ → Queues → Queues
drop_at i [] = []
drop_at zero (q ∷ qs) = drop 1 q ∷ qs
drop_at (suc i) (q ∷ qs) = q ∷ drop_at i qs

-- The queue at place i is emptied.
abbrev pub clear : ℕ → Queues → Queues
clear i [] = []
clear zero (q ∷ qs) = [] ∷ qs
clear (suc i) (q ∷ qs) = q ∷ clear i qs

-- The queues from place i on are emptied.
abbrev pub clear_from : ℕ → Queues → Queues
clear_from i [] = []
clear_from zero (q ∷ qs) = [] ∷ clear_from zero qs
clear_from (suc i) (q ∷ qs) = q ∷ clear_from i qs

pub waiting-queues :
    (xs : List AsyncNetworkInterface) (i : ℕ) → queue_at xs i ≡ at_place (queues xs) i
waiting-queues [] i = refl
waiting-queues (x ∷ xs) zero = refl
waiting-queues (x ∷ xs) (suc i) = waiting-queues xs i

pub queues-pop :
    (xs : List AsyncNetworkInterface) (i : ℕ) → queues (pop_at i xs) ≡ drop_at i (queues xs)
queues-pop [] i = refl
queues-pop (x ∷ xs) zero = refl
queues-pop (x ∷ xs) (suc i) = ap (λ qs. x.datagrams_out ∷ qs) (queues-pop xs i)

pub at_place-drop_at : (qs : Queues) (i : ℕ) → at_place (drop_at i qs) i ≡ drop 1 (at_place qs i)
at_place-drop_at [] i = refl
at_place-drop_at (q ∷ qs) zero = refl
at_place-drop_at (q ∷ qs) (suc i) = at_place-drop_at qs i

pub length-drop_at : (qs : Queues) (i : ℕ) → length (drop_at i qs) ≡ length qs
length-drop_at [] i = refl
length-drop_at (q ∷ qs) zero = refl
length-drop_at (q ∷ qs) (suc i) = ap suc (length-drop_at qs i)

pub clear-drop_at : (qs : Queues) (i : ℕ) → clear i (drop_at i qs) ≡ clear i qs
clear-drop_at [] i = refl
clear-drop_at (q ∷ qs) zero = refl
clear-drop_at (q ∷ qs) (suc i) = ap (λ rest. q ∷ rest) (clear-drop_at qs i)

pub clear_idle : (qs : Queues) (i : ℕ) → at_place qs i ≡ [] → clear i qs ≡ qs
clear_idle [] i e = refl
clear_idle (q ∷ qs) zero e = ap (λ p. p ∷ qs) (sym e)
clear_idle (q ∷ qs) (suc i) e = ap (λ rest. q ∷ rest) (clear_idle qs i e)

pub length-clear : (qs : Queues) (i : ℕ) → length (clear i qs) ≡ length qs
length-clear [] i = refl
length-clear (q ∷ qs) zero = refl
length-clear (q ∷ qs) (suc i) = ap suc (length-clear qs i)

pub clear_from-clear : (qs : Queues) (i : ℕ) → clear_from (suc i) (clear i qs) ≡ clear_from i qs
clear_from-clear [] i = refl
clear_from-clear (q ∷ []) zero = refl
clear_from-clear (q ∷ p ∷ qs) zero = refl
clear_from-clear (q ∷ qs) (suc i) = ap (λ rest. q ∷ rest) (clear_from-clear qs i)

pub clear_from_end : (qs : Queues) (i : ℕ) → length qs ≤ i → clear_from i qs ≡ qs
clear_from_end [] i h = refl
clear_from_end (q ∷ qs) zero h = absurd (omega arith)
clear_from_end (q ∷ qs) (suc i) h = ap (λ rest. q ∷ rest) (clear_from_end qs i (omega arith))

pub clear_from_all : (qs : Queues) → clear_from 0 qs ≡ replicate (length qs) []
clear_from_all [] = refl
clear_from_all (q ∷ qs) = ap (λ rest. [] ∷ rest) (clear_from_all qs)

-- Every datagram that waits can be written.
abbrev pub Whole : Queues → Type 0
Whole qs = All (All IsWhole) qs

pub Whole-at : (qs : Queues) (i : ℕ) → Whole qs → All IsWhole (at_place qs i)
Whole-at [] i h = tt
Whole-at (q ∷ qs) zero (h, hs) = h
Whole-at (q ∷ qs) (suc i) (h, hs) = Whole-at qs i hs

tail-Whole : (q : List Ipv4Datagram) → All IsWhole q → All IsWhole (drop 1 q)
tail-Whole [] h = tt
tail-Whole (d ∷ q) (_, h) = h

pub drop_at-Whole : (qs : Queues) (i : ℕ) → Whole qs → Whole (drop_at i qs)
drop_at-Whole [] i h = tt
drop_at-Whole (q ∷ qs) zero (h, hs) = (tail-Whole q h, hs)
drop_at-Whole (q ∷ qs) (suc i) (h, hs) = (h, drop_at-Whole qs i hs)

pub clear-Whole : (qs : Queues) (i : ℕ) → Whole qs → Whole (clear i qs)
clear-Whole [] i h = tt
clear-Whole (q ∷ qs) zero (h, hs) = (tt, hs)
clear-Whole (q ∷ qs) (suc i) (h, hs) = (h, clear-Whole qs i hs)
