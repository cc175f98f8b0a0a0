-- ===== src/Httpserver/Bespoke/Serving.antt =====
-- examples/httpserver/httpserver_bespoke.c: a client that is readable is served until the host has no
-- more of it, and closed if it is to be.
use waeio.Prelude.{
  ℕ, Bool, if◌then◌else◌, ◌<◌, ◌≤◌, ◌≡◌, ◌⊎◌, refl, sym, ap, subst, arith, inl, inr, true, false,
  minus_one, List, Option, some, length, get_or, set, Bool-cases, Outcome, done, read_in_range,
  write_in_range,
}
use waeio.Wasio.{Pollfd, Host}
use waeio.Httpserver.Request.{Http}
use waeio.Httpserver.Request.Answers.{IsResult, ResponsesFit}
use waeio.Httpserver.Bespoke.{Server, heard, buffer_size, close_client, serve_client}
use waeio.Httpserver.Bespoke.Accepting.{none_here}
use waeio.Httpserver.Bespoke.Draining.{Drains, Calm}
use waeio.Httpserver.Bespoke.Talking.{Talk}
use waeio.Httpserver.Bespoke.Receiving.{receive_all-Received}

module _ {W : Type 0} (host : Host W) (http : Http) (waiting : W → ℕ) where
  -- The connection of an entry is closed: the host closes it, and the entry is free, to be compressed.
  abbrev pub closed : ℕ → Server W → Server W
  closed i t =
      let entry = get_or t.fds i none_here in
      record (heard t (host.close t.world entry.fd)) {
        fds = set t.fds i (record entry { fd = minus_one });
        compress_array = true;
      }

  -- A client has been served, and closed if it is to be.
  pub record Served (s : Server W) (i : ℕ) (o : Outcome (Option (Server W))) : Type 0 where
    pub closes : Bool
    pub talked : Server W
    pub talk : Talk host http i false s closes talked
    pub after : Server W
    pub returns : o ≡ done (some after)
    pub after_is : after ≡ (if closes then closed i talked else talked)
    pub entries :
        ((after.fds ≡ s.fds) × (after.compress_array ≡ s.compress_array))
        ⊎ ((after.fds ≡ set s.fds i (record (get_or s.fds i none_here) { fd = minus_one }))
            × (after.compress_array ≡ true))
    pub nfds_is : after.nfds ≡ s.nfds
    pub reqbuf_size : length after.reqbuf ≡ length s.reqbuf
    pub resbuf_size : length after.resbuf ≡ length s.resbuf
    pub calm : (count : W → ℕ) → Calm host count → count after.world ≤ count s.world

  -- With a host from which finitely many bytes wait to be received, a parser with the documented
  -- results, responses that fit into the buffer and more rounds than bytes wait, the loop that serves
  -- the client of an entry of the array ends, with no access out of range and no failed assertion.
  -- To what each receive gives it sends the response that belongs to the parsed request, and goes on
  -- until a call fails or the client is gone. If the host reported EAGAIN and no request asked the
  -- server to end, the array is as it was; otherwise that client's descriptor is closed, its entry
  -- alone is freed, and the array is to be compressed.
  pub serve_client-Served :
      (fuel i : ℕ) (s : Server W)
      → Drains host waiting
      → ((request : List ℕ) → IsResult (http.parse request).rc)
      → ResponsesFit http buffer_size
      → length s.reqbuf ≡ buffer_size
      → length s.resbuf ≡ buffer_size
      → i < length s.fds
      → waiting s.world < fuel
      → Served s i (serve_client host http fuel i s)
  unfolding serve_client close_client
  serve_client-Served fuel i s law results fit req res inside enough =
      let x =
        receive_all-Received host http waiting fuel i false s law results fit req res inside
          enough in
      let t = x.after in
      let entry = get_or t.fds i none_here in
      let inside' = subst (λ (l : List Pollfd). i < length l) (sym x.same.fds_is) inside in
      elim (Bool-cases x.closes) [
        | inl shut ↦ record {
          closes = x.closes;
          talked = t;
          talk = x.talk;
          after = closed i t;
          returns =
              rw
                (
                  x.returns,
                  read_in_range t.fds i none_here inside',
                  write_in_range t.fds i (record entry { fd = minus_one }) inside',
                  shut,
                )
                refl;
          after_is = rw shut refl;
          entries = inr (
            ap (λ (l : List Pollfd). set l i (record (get_or l i none_here) { fd = minus_one }))
                x.same.fds_is,
            refl,
          );
          nfds_is = x.same.nfds_is;
          reqbuf_size = x.same.reqbuf_size;
          resbuf_size = x.same.resbuf_size;
          calm = λ count c. omega (arith, x.calm count c, c.by_close t.world entry.fd);
        }
        | inr stays ↦ record {
          closes = x.closes;
          talked = t;
          talk = x.talk;
          after = t;
          returns =
              rw
                (
                  x.returns,
                  read_in_range t.fds i none_here inside',
                  write_in_range t.fds i (record entry { fd = minus_one }) inside',
                  stays,
                )
                refl;
          after_is = rw stays refl;
          entries = inl (x.same.fds_is, x.same.flag_is);
          nfds_is = x.same.nfds_is;
          reqbuf_size = x.same.reqbuf_size;
          resbuf_size = x.same.resbuf_size;
          calm = x.calm;
        }
      ]
