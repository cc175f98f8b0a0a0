-- ===== src/Wasio.antt =====
-- inc/wasio.h and inc/host/socket.h: what the I/O backends share: the result codes, the poll
-- entries, and the host functions that they import.
pub mod Poll
pub mod Table
pub mod Wasi
pub mod Sample
mod Tests
use waeio.Prelude.{
  ℕ, ◌≡◌, ◌||◌, ◌<◌, ℤ, pos, negsuc, eq_ℤ, List, length, Option, some, none, if◌then◌else◌,
}

-- `wasio_result_t`
pub data WasioResult : Type 0 where
  ok error efull eagain econn : WasioResult

-- `struct pollfd`
pub record Pollfd : Type 0 where
  pub fd : ℤ
  pub events : ℕ
  pub revents : ℕ

-- What an imported host function leaves behind: its answer, what it stored through the `errno`
-- pointer, if it did, and the state of the host.
pub record Reply (W : Type 0) : Type 0 where
  pub answer : ℤ
  pub errno : Option ℤ
  pub world : W

pub record PollReply (W : Type 0) : Type 0 where
  pub reply : Reply W
  pub fds : List Pollfd

pub record RecvReply (W : Type 0) : Type 0 where
  pub reply : Reply W
  pub bytes : List ℕ

-- The functions that a backend imports from the modules `host_socket` and `host_poll`, and the
-- platform's numbers for the errors that it tells apart.
pub record Host (W : Type 0) : Type 0 where
  pub eagain : ℤ
  pub ewouldblock : ℤ
  pub listen : W → ℤ → ℤ → Reply W
  pub accept : W → ℤ → Reply W
  pub recv : W → ℤ → ℕ → RecvReply W
  pub send : W → ℤ → List ℕ → ℕ → Reply W
  pub close : W → ℤ → Reply W
  pub poll : W → List Pollfd → ℕ → ℤ → PollReply W

-- `host_errno` after a call.
abbrev pub errno_after : ℤ → Option ℤ → ℤ
errno_after old none = old
errno_after old (some e) = e

unfoldable pub translate_error : {W : Type 0} → Host W → ℤ → WasioResult
translate_error host errno =
    if eq_ℤ errno host.eagain || eq_ℤ errno host.ewouldblock then eagain else error
