-- ===== src/TcpSpongeSocket/Loop.antt =====
-- The socket's loop as a whole, from its start on.
use cs144_sponge.Base.{
  ℕ, ◌≡◌, refl, sym, subst, ap, ◌∙◌, Bool, true, false, not, ◌||◌, Bool-cases, inl, inr, Option,
  none, some, List, [], ◌∷◌, ◌++◌, All, arith, ok, IsU32, IsU64,
}
use cs144_sponge.WrappingIntegers.{WrappingInt32}
use cs144_sponge.ByteStream.Inv.{contents}
use cs144_sponge.StreamReassembler.Source.{Agrees}
use cs144_sponge.TcpConnection as Connection
use cs144_sponge.TcpSender as Sender
use cs144_sponge.ByteStream
use cs144_sponge.TcpConnection.{TcpConnection, TcpConfig, value_or}
use cs144_sponge.TcpConnection.Start.{connect-state}
use cs144_sponge.TcpConnection.Ended.{connect-Same}
use cs144_sponge.TcpConnection.Plain.{new-Plain, connect-Plain}
use cs144_sponge.TcpConnection.Sound.{Sound}
use cs144_sponge.TcpConnection.Sound.Calls.{connect-Sound}
use cs144_sponge.TcpState.{of_state, st_syn_sent, equals}
use cs144_sponge.TcpConnection.History.{new-Sound}
use cs144_sponge.FdAdapter.{FdAdapterConfig}
use cs144_sponge.FileDescriptor.{
  Answer, returned, FdWrapper, system_call, register_read, register_write,
}
use cs144_sponge.Sockets.{shutdown}
use cs144_sponge.EventLoop.{Rule, PollFd, add_rule}
use cs144_sponge.EventLoop.SetUp.{Fit}
use cs144_sponge.EventLoop.Rounds.{NoFailure, wait_next_event-Fit}
use cs144_sponge.TcpSpongeSocket.{
  Adapter, Environment, Socket, Round, new, rules, is_exit, tcp_loop, initialize_tcp,
  listen_and_accept, tcp_main, finish, with_tcp, connect, in_state, is_accepting,
}
use cs144_sponge.TcpSpongeSocket.Callbacks.{
  Carries, Kernel, Running, Open, rule_1-Free, rule_2-Guarded, rule_3-Free, rule_4-Free,
  pass_time-Running,
}

-- `poll` reports no failing descriptor.
abbrev pub Answers : Round → Type 0
Answers r = (ps : List PollFd) → NoFailure (r.poll ps)

module _ {A : Type 0} (ad : Adapter A) (env : Environment) (s : ℕ → ℕ) (isn : WrappingInt32)
    (capacity : ℕ) (small : IsU32 isn) (Q : A → Type 0) (carries : Carries ad s isn Q)
    (kernel : Kernel env) where
  abbrev Runs : Socket TcpConnection A → Type 0
  Runs = Running ad env s isn capacity small Q carries kernel

  abbrev Keeps : List (Rule (Socket TcpConnection A)) → Type 0
  Keeps = Fit Runs (Open ad env s isn capacity small Q carries kernel)

  rules-Fit : Keeps (rules ad env)
  unfolding rules add_rule
  rules-Fit = inl (
    rule_1-Free ad env s isn capacity small Q carries kernel,
    inr (
      rule_2-Guarded ad env s isn capacity small Q carries kernel,
      (
        rule_3-Free ad env s isn capacity small Q carries kernel,
        (rule_4-Free ad env s isn capacity small Q carries kernel, tt),
      ),
    ),
  )

  -- The loop over any rounds.
  tcp_loop-Running :
      (condition : Socket TcpConnection A → Bool) (base_time : ℕ) (rounds : List Round)
      (rs : List (Rule (Socket TcpConnection A))) (w : Socket TcpConnection A)
      → All Answers rounds
      → Keeps rs
      → Runs w
      → (b : Bool) × (rs' : List (Rule (Socket TcpConnection A))) × (w' : Socket TcpConnection A)
        × (tcp_loop ad env condition base_time rounds rs w ≡ ok (b, rs', w'))
        × Keeps rs'
        × Runs w'
  unfolding tcp_loop
  tcp_loop-Running condition base_time [] rs w ys k v = (not (condition w), rs, w, refl, k, v)
  tcp_loop-Running condition base_time (r ∷ rounds) rs w (y, ys) k v =
      elim (Bool-cases (not (condition w))) [
        | inl h ↦ (true, rs, w, rw h, k, v)
        | inr h ↦
            let (o, rs1, w1, e1, v1, k1) = wait_next_event-Fit _ _ r.poll rs w y k v in
            elim (Bool-cases (is_exit o || r.abort)) [
              | inl x ↦ (true, rs1, w1, rw (h, e1, x), k1, v1)
              | inr x ↦
                  let (base', w2, e2, v2) =
                    pass_time-Running ad env s isn capacity small Q carries kernel base_time r.now
                      w1 v1 in
                  let (b, rs', w', e', k', v') =
                    tcp_loop-Running condition base' rounds rs1 w2 ys k1 v2 in
                  (b, rs', w', rw (h, e1, x, e2) e', k', v')
            ]
      ]

  main-Running :
      (answer : Answer) (n base_time : ℕ) (rounds : List Round)
      (rs : List (Rule (Socket TcpConnection A))) (w : Socket TcpConnection A)
      → answer ≡ returned n
      → All Answers rounds
      → Keeps rs
      → Runs w
      → (o : Option (Socket (Option TcpConnection) A)) × (w' : Socket TcpConnection A) × (tcp_main
            ad env answer base_time rounds rs w
          ≡ ok (o, w'))
        × Runs w'
  unfolding tcp_main finish shutdown system_call
  main-Running answer n base_time rounds rs w e ys k v =
      let (b, rs', w', e', _, v') = tcp_loop-Running (λ x. true) base_time rounds rs w ys k v in
      elim (Bool-cases b) [
        | inl h ↦
            let left : Socket (Option TcpConnection) A =
              with_tcp none (record w' { owner = register_write (register_read w'.owner) }) in
            (some left, w', rw (e', h, e), v')
        | inr h ↦ (none, w', rw (e', h), v')
      ]

new-Running :
    {A : Type 0} (ad : Adapter A) (env : Environment) (s : ℕ → ℕ) (isn : WrappingInt32)
    (c_tcp : TcpConfig) (small : IsU32 isn) (Q : A → Type 0) (carries : Carries ad s isn Q)
    (kernel : Kernel env) (random : WrappingInt32) (first second : FdWrapper) (a a' : A)
    → IsU64 c_tcp.recv_capacity
    → IsU64 c_tcp.send_capacity
    → Q a'
    → Running ad env s isn c_tcp.recv_capacity small Q carries kernel
        (record (initialize_tcp ad env c_tcp random (new first second a)) { datagram_adapter = a' })
unfolding initialize_tcp new Connection.new Sender.new ByteStream.new
new-Running ad env s isn c_tcp small Q carries kernel random first second a a' hr hs q = record {
  sound = new-Sound s isn c_tcp random hr hs;
  plain = new-Plain c_tcp random;
  ended = λ h. h;
  well = q;
}

-- A socket listens and then runs its main loop, over any rounds in which `poll` reports no failing
-- descriptor; with a kernel that keeps its promises for a local stream socket, and an adapter that gives
-- segments of the peer only, counts its reads and does not throw in a read, a tick or the write of a
-- segment without options; and with a peer that sends a source `s` of bytes from an initial number of 32
-- bits; the capacities have 64 bits. Then nothing throws: no busy wait is detected, the connection takes
-- all that is read from the pipe, its segments have no options, and whatever came in, what was written
-- for the owner followed by what is buffered is the beginning of `s`.
pub socket_sound :
    {A : Type 0} (ad : Adapter A) (env : Environment) (s : ℕ → ℕ) (isn : WrappingInt32)
    (Q : A → Type 0) (c_tcp : TcpConfig) (c_ad : FdAdapterConfig) (random : WrappingInt32)
    (first second : FdWrapper) (a : A) (base_time now n : ℕ) (accepting running : List Round)
    → IsU32 isn
    → IsU64 c_tcp.recv_capacity
    → IsU64 c_tcp.send_capacity
    → Carries ad s isn Q
    → Kernel env
    → Q (Adapter.set_listening ad true (Adapter.configure ad c_ad a))
    → All Answers accepting
    → All Answers running
    → (b : Bool) × (rs : List (Rule (Socket TcpConnection A))) × (w w' : Socket TcpConnection A)
      × (o : Option (Socket (Option TcpConnection) A)) × (listen_and_accept ad env c_tcp c_ad random
            base_time accepting
            (new first second a)
          ≡ ok (b, rs, w))
      × (tcp_main ad env (returned n) now running rs w ≡ ok (o, w'))
      × Agrees s 0 (w'.delivered ++ contents w'.tcp.receiver.reassembler.output)
unfolding listen_and_accept new
socket_sound {A = A} ad env s isn Q c_tcp c_ad random first second a base_time now n accepting
      running small hr hs carries kernel q xs ys =
    let a' : A = Adapter.set_listening ad true (Adapter.configure ad c_ad a) in
    let cap : ℕ = c_tcp.recv_capacity in
    let (b, rs, w, e, k, v) =
      tcp_loop-Running ad env s isn cap small Q carries kernel (is_accepting ad env) base_time
        accepting (rules ad env) _ xs (rules-Fit ad env s isn cap small Q carries kernel)
        (new-Running ad env s isn c_tcp small Q carries kernel random first second a a' hr hs q) in
    let (o, w', e', v') =
      main-Running ad env s isn cap small Q carries kernel (returned n) n now running rs w refl ys k
        v in
    (b, rs, w, w', o, e, e', v'.sound.hears.faithful.agrees)

-- The connection with which `connect` starts its loop.
connected-Running :
    {A : Type 0} (ad : Adapter A) (env : Environment) (s : ℕ → ℕ) (isn : WrappingInt32)
    (c_tcp : TcpConfig) (small : IsU32 isn) (Q : A → Type 0) (carries : Carries ad s isn Q)
    (kernel : Kernel env) (random : WrappingInt32) (first second : FdWrapper) (a a' : A)
    → IsU32 (value_or c_tcp.fixed_isn random)
    → IsU64 c_tcp.recv_capacity
    → IsU64 c_tcp.send_capacity
    → Q a'
    → (c : TcpConnection) × (Connection.connect (Connection.new c_tcp random) ≡ ok c)
      × (Connection.state c ≡ of_state st_syn_sent)
      × Running ad env s isn c_tcp.recv_capacity small Q carries kernel
          (record (with_tcp c (new first second a)) { datagram_adapter = a' })
unfolding new
connected-Running ad env s isn c_tcp small Q carries kernel random first second a a' hi hr hs q =
    let (c, e, syn) = connect-state c_tcp random hi in
    let (c', e', v) =
      connect-Sound s isn c_tcp.recv_capacity small [] false (Connection.new c_tcp random)
        (new-Sound s isn c_tcp random hr hs) in
    let same : c' ≡ c = ground (arith, e, e') in
    let kept : c.sender.stream.end_flag ≡ false =
      connect-Same (Connection.new c_tcp random) c e
      ∙ unfold Connection.new Sender.new ByteStream.new in refl in
    (
      c,
      e,
      syn,
      record {
        sound = subst (Sound s isn c_tcp.recv_capacity [] false) same v;
        plain = connect-Plain (Connection.new c_tcp random) c e (new-Plain c_tcp random);
        ended = λ h. sym kept ∙ h;
        well = q;
      },
    )

-- A socket connects and then runs its main loop, with rounds, a kernel, an adapter, a peer and
-- capacities as for one that listens: `poll` reports no failing descriptor, the kernel keeps its
-- promises for a local stream socket, the adapter gives segments of the peer only, counts its reads and
-- does not throw in a read, a tick or the write of a segment without options, and the capacities have 64
-- bits. The initial numbers, the peer's and its own, have 32 bits. Then nothing throws,
-- in particular `connect` finds the connection in `SYN_SENT`; and what was written for the owner
-- followed by what is buffered is the beginning of the peer's bytes.
pub connect_sound :
    {A : Type 0} (ad : Adapter A) (env : Environment) (s : ℕ → ℕ) (isn : WrappingInt32)
    (Q : A → Type 0) (c_tcp : TcpConfig) (c_ad : FdAdapterConfig) (random : WrappingInt32)
    (first second : FdWrapper) (a : A) (base_time now n : ℕ) (connecting running : List Round)
    → IsU32 isn
    → IsU32 (value_or c_tcp.fixed_isn random)
    → IsU64 c_tcp.recv_capacity
    → IsU64 c_tcp.send_capacity
    → Carries ad s isn Q
    → Kernel env
    → Q (Adapter.configure ad c_ad a)
    → All Answers connecting
    → All Answers running
    → (b : Bool) × (rs : List (Rule (Socket TcpConnection A))) × (w w' : Socket TcpConnection A)
      × (o : Option (Socket (Option TcpConnection) A)) × (connect ad env c_tcp c_ad random base_time
            connecting
            (new first second a)
          ≡ ok (b, rs, w))
      × (tcp_main ad env (returned n) now running rs w ≡ ok (o, w'))
      × Agrees s 0 (w'.delivered ++ contents w'.tcp.receiver.reassembler.output)
unfolding connect initialize_tcp new
connect_sound {A = A} ad env s isn Q c_tcp c_ad random first second a base_time now n connecting
      running small hi hr hs carries kernel q xs ys =
    let a' : A = Adapter.configure ad c_ad a in
    let cap : ℕ = c_tcp.recv_capacity in
    let (c, e0, syn, v0) =
      connected-Running ad env s isn c_tcp small Q carries kernel random first second a a' hi hr hs
        q in
    let w0 : Socket TcpConnection A = record (with_tcp c (new first second a)) {
      datagram_adapter = a';
    } in
    let there : in_state ad env st_syn_sent w0 ≡ true =
      ap (λ x. equals x (of_state st_syn_sent)) syn ∙ unfold equals of_state in refl in
    let (b, rs, w, e, k, v) =
      tcp_loop-Running ad env s isn cap small Q carries kernel (in_state ad env st_syn_sent)
        base_time connecting (rules ad env) w0 xs
        (rules-Fit ad env s isn cap small Q carries kernel) v0 in
    let (o, w', e', v') =
      main-Running ad env s isn cap small Q carries kernel (returned n) n now running rs w refl ys k
        v in
    (b, rs, w, w', o, rw (e0, there) e, e', v'.sound.hears.faithful.agrees)
