-- ===== src/Sockets.antt =====
-- libsponge/util/socket.{hh,cc}: sockets of the system, whose answers are arguments. `bind`, `connect`,
-- `listen` and the options only pass their arguments on, and fail when the system call does.
use cs144_sponge.Base.{
  ℕ, Bool, not, ◌||◌, ◌==◌, ltb, List, length, if◌then◌else◌, Result, ok, err, runtime_error,
  unix_error, ◌>>=◌,
}
use cs144_sponge.BufferViewList
use cs144_sponge.BufferViewList.{BufferViewList}
use cs144_sponge.BufferViewList.Laws.{bytes}
use cs144_sponge.FdAdapter.{Address}
use cs144_sponge.FileDescriptor
use cs144_sponge.FileDescriptor.{Answer, FdWrapper, system_call, register_read, register_write}

-- What `getsockopt` gives: its own answer, the size of the option and the value.
pub record OptionValue : Type 0 where
  pub answer : Answer
  pub full_size : Bool
  pub actual_value : ℕ

-- `Socket(fd, domain, type)`: one of its two checks, and both.
unfoldable pub verify : ℕ → OptionValue → Result ℕ
verify expected o = system_call o.answer >>= λ n.
    if not o.full_size || not (o.actual_value == expected) then err runtime_error else ok n

unfoldable pub from_fd :
    FdWrapper → (domain kind : ℕ) → (of_domain of_kind : OptionValue) → Result FdWrapper
unfolding verify
from_fd f domain kind of_domain of_kind =
    verify domain of_domain >>= λ n. verify kind of_kind >>= λ m. ok f

pub data How : Type 0 where
  shut_rd shut_wr shut_rdwr other_how : How

unfoldable pub shutdown : How → Answer → FdWrapper → Result FdWrapper
shutdown shut_rd answer f = system_call answer >>= λ n. ok (register_read f)
shutdown shut_wr answer f = system_call answer >>= λ n. ok (register_write f)
shutdown shut_rdwr answer f = system_call answer >>= λ n. ok (register_write (register_read f))
shutdown other_how answer f = system_call answer >>= λ n. err runtime_error

-- `recvfrom` with `MSG_TRUNC`: the sender and the whole datagram, of which as much as fits is copied.
pub data Received : Type 0 where
  came : Address → List ℕ → Received
  no_datagram : (errno : ℕ) → Received

abbrev pub default_mtu : ℕ
default_mtu = 65536

unfoldable pub recv : ℕ → Received → FdWrapper → Result ((Address × List ℕ) × FdWrapper)
recv mtu (no_datagram errno) f = err unix_error
recv mtu (came source payload) f =
    if ltb mtu (length payload) then err runtime_error else ok ((source, payload), register_read f)

unfoldable pub sendmsg_helper : Answer → BufferViewList → Result (List ℕ)
sendmsg_helper answer payload = system_call answer >>= λ bytes_sent.
    if not (bytes_sent == BufferViewList.size payload)
    then err runtime_error
    else ok (bytes payload)

-- The datagram that went out, and the socket.
unfoldable pub sendto :
    Answer → Address → BufferViewList → FdWrapper → Result ((Address × List ℕ) × FdWrapper)
unfolding sendmsg_helper
sendto answer destination payload f =
    sendmsg_helper answer payload >>= λ d. ok ((destination, d), register_write f)

unfoldable pub send : Answer → BufferViewList → FdWrapper → Result (List ℕ × FdWrapper)
unfolding sendmsg_helper
send answer payload f = sendmsg_helper answer payload >>= λ d. ok (d, register_write f)

-- The new socket, before the checks of its constructor, and the listening one.
unfoldable pub accept : Answer → FdWrapper → Result (FdWrapper × FdWrapper)
accept answer f =
    system_call answer >>= λ n. FileDescriptor.new answer >>= λ s. ok (s, register_read f)
