-- ===== src/Httpserver/Bespoke/Closing.antt =====
-- examples/httpserver/httpserver_bespoke.c: the last loop of `main` closes what is open.
use waeio.Prelude.{
  ℕ, zero, suc, ◌+◌, ◌≤◌, ◌≡◌, refl, arith, inl, inr, ℤ, is_neg, minus_one, List, [], ◌∷◌, map,
  take, drop, drop-get_or, get_or, length, Bool-cases, done, read_in_range,
}
use waeio.Wasio.{Pollfd, Host}
use waeio.Httpserver.Compress.{open_keys}
use waeio.Httpserver.Bespoke.{Server, heard, close_all}

abbrev none_here : Pollfd
none_here = record { fd = minus_one; events = 0; revents = 0 }

abbrev pub fd_of : Pollfd → ℤ
fd_of entry = entry.fd

-- One call of the host for each descriptor, in order.
unfoldable pub close_each : {W : Type 0} → Host W → Server W → List ℤ → Server W
close_each host s [] = s
close_each host s (fd ∷ fds) = close_each host (heard s (host.close s.world fd)) fds

module _ {W : Type 0} (host : Host W) where
  close_all_from :
      (count i : ℕ) (s : Server W)
      → i + count ≤ length s.fds
      → close_all host count i s
        ≡ done (close_each host s (open_keys is_neg (map fd_of (take count (drop i s.fds)))))
  unfolding close_all close_each open_keys
  close_all_from zero i s h = refl
  close_all_from (suc count) i s h =
      let entry = get_or s.fds i none_here in
      let s' = heard s (host.close s.world entry.fd) in
      elim (Bool-cases (is_neg entry.fd)) [
        | inl closed ↦
            rw
              (
                read_in_range s.fds i none_here (omega (arith, h)),
                drop-get_or s.fds i none_here (omega (arith, h)),
                closed,
              )
              (close_all_from count (i + 1) s (omega (arith, h)))
        | inr open_one ↦
            rw
              (
                read_in_range s.fds i none_here (omega (arith, h)),
                drop-get_or s.fds i none_here (omega (arith, h)),
                open_one,
              )
              (close_all_from count (i + 1) s' (omega (arith, h)))
      ]

  -- When `nfds` is at most the size of the array, the last loop of `main` makes no access out of
  -- range: it closes each open descriptor among the first `nfds` entries once, in the order of the
  -- array, and changes nothing but the host's state and errno.
  pub close_all-close_each :
      (n : ℕ) (s : Server W)
      → n ≤ length s.fds
      → close_all host n 0 s
        ≡ done (close_each host s (open_keys is_neg (map fd_of (take n s.fds))))
  close_all-close_each n s h = close_all_from n 0 s (omega (arith, h))
