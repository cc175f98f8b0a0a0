-- ===== src/Httpserver/Bespoke/Rounds.antt =====
-- examples/httpserver/httpserver_bespoke.c: a round of the request loop ends and stays within the array.
use waeio.Prelude.{
  if_off, if_on, List, ℕ, zero, suc, ◌+◌, ◌<◌, ◌≤◌, ◌≡◌, refl, ap, ◌∙◌, arith, inl, inr, Bool, true,
  false, ℤ, minus_one, is_neg, eq_ℤ, to_nat, not, some, length, length-set, bit_and, Bool-cases,
  done, ◌>>=◌, ◌>>?◌, read_in_range, get_or, ◌==◌, ◌||◌,
}
use waeio.Wasio.{Pollfd, Host}
use waeio.Httpserver.Compress.{compress_keeps, no_more_open}
use waeio.Httpserver.Request.{Http}
use waeio.Httpserver.Request.Answers.{IsResult, ResponsesFit}
use waeio.Httpserver.Bespoke.{
  Server, heard, buffer_size, poll_timeout, fd_copy, accept_all, compress_fds, serve_client, visit,
  visit_all, request_round,
}
use waeio.Httpserver.Bespoke.Accepting.{none_here}
use waeio.Httpserver.Bespoke.Serving.{serve_client-Served}
use waeio.Httpserver.Bespoke.Workload.{
  Workload, InBounds, Keeps, Keeps-refl, Keeps-world, InBounds-Keeps, Ends, ends, then-Ends,
  accept_all-Ends,
}

module _ {W : Type 0} (host : Host W) (pollin : ℕ) (http : Http) (listen_sd : ℤ)
    (conns bytes : W → ℕ) (fuel : ℕ) where
  -- What the host, the parser and the responses are relied on for.
  pub record Relies : Type 0 where
    pub work : Workload host conns bytes
    pub results : (request : List ℕ) → IsResult (http.parse request).rc
    pub responses : ResponsesFit http buffer_size

  serve_client-Ends :
      (i : ℕ) (s : Server W)
      → Relies
      → InBounds host conns bytes fuel s
      → i < length s.fds
      → Ends host conns bytes (λ t. t) s (serve_client host http fuel i s)
  serve_client-Ends i s rely b inside =
      let x =
        serve_client-Served host http bytes fuel i s rely.work.drains rely.results rely.responses
          b.reqbuf_size b.resbuf_size inside b.enough_bytes in
      let fewer = x.calm conns rely.work.calm_conns in
      record {
        result = x.after;
        returns = x.returns;
        keeps = record {
          size = elim x.entries [
            | inl (same, flag) ↦ ap length same
            | inr (one, flag) ↦ ap length one ∙ length-set s.fds i _
          ];
          load = omega (arith, x.nfds_is, fewer);
          fewer_conns = fewer;
          fewer_bytes = x.calm bytes rely.work.calm_bytes;
          reqbuf_is = x.reqbuf_size;
          resbuf_is = x.resbuf_size;
        };
      }

  visit-Ends :
      (i : ℕ) (s : Server W)
      → Relies
      → InBounds host conns bytes fuel s
      → i < length s.fds
      → Ends host conns bytes (λ r. r.1) s (visit host pollin http listen_sd fuel i s)
  unfolding visit
  visit-Ends i s rely b inside =
      let entry = get_or s.fds i none_here in
      rw (read_in_range s.fds i none_here inside) (elim (Bool-cases (entry.revents == 0)) [
        | inl quiet ↦
            rw quiet (ends host conns bytes (λ r. r.1) s (true, s) (Keeps-refl host conns bytes s))
        | inr ready ↦ elim (Bool-cases (bit_and entry.revents pollin == 0)) [
          | inl failed ↦
              rw (ready, failed)
                (ends host conns bytes (λ r. r.1) s (false, record s { end_server = true })
                  (Keeps-world host conns bytes s s.world s.host_errno true (omega arith)
                    (omega arith)))
          | inr readable ↦ elim (Bool-cases (eq_ℤ entry.fd listen_sd)) [
            | inl listens ↦
                rw (ready, readable, listens)
                  (then-Ends host conns bytes (λ t. t) (λ r. r.1) s
                    (accept_all host pollin listen_sd fuel s) (λ t. done (some (true, t)))
                    (accept_all-Ends host conns bytes pollin listen_sd fuel s rely.work b.room
                      b.word b.enough_conns)
                    (λ t k.
                      ends host conns bytes (λ r. r.1) t (true, t) (Keeps-refl host conns bytes t)))
            | inr serves ↦
                rw (ready, readable, serves)
                  (then-Ends host conns bytes (λ t. t) (λ r. r.1) s
                    (serve_client host http fuel i s) (λ t. done (some (true, t)))
                    (serve_client-Ends i s rely b inside)
                    (λ t k.
                      ends host conns bytes (λ r. r.1) t (true, t) (Keeps-refl host conns bytes t)))
          ]
        ]
      ])

  visit_all-Ends :
      (count i : ℕ) (s : Server W)
      → Relies
      → InBounds host conns bytes fuel s
      → i + count ≤ length s.fds
      → Ends host conns bytes (λ t. t) s (visit_all host pollin http listen_sd fuel count i s)
  unfolding visit_all
  visit_all-Ends zero i s rely b below =
      ends host conns bytes (λ t. t) s s (Keeps-refl host conns bytes s)
  visit_all-Ends (suc count) i s rely b below =
      then-Ends host conns bytes (λ r. r.1) (λ t. t) s (visit host pollin http listen_sd fuel i s) _
        (visit-Ends i s rely b (omega (arith, below)))
        (λ r k. elim (Bool-cases r.0) [
          | inl on ↦ rw on (
              visit_all-Ends count (i + 1) r.1 rely (InBounds-Keeps host conns bytes b k)
                (omega (arith, below, k.size)))
          | inr stop ↦
              rw stop (ends host conns bytes (λ t. t) r.1 r.1 (Keeps-refl host conns bytes r.1))
        ])

  compress_fds-Keeps :
      (s : Server W)
      → s.nfds ≤ length s.fds
      → (t : Server W) × (compress_fds s ≡ done t) × Keeps host conns bytes s t
  unfolding compress_fds
  compress_fds-Keeps s below =
      let (after, n, q, size, count, keys) =
        compress_keeps (λ (p : Pollfd). p.fd) (λ k. eq_ℤ k minus_one) fd_copy (λ here next. refl)
          none_here s.fds s.nfds below in
      let fewer =
        no_more_open (λ (p : Pollfd). p.fd) (λ k. eq_ℤ k minus_one) fd_copy (λ here next. refl)
          none_here s.nfds 0 s.fds in
      elim (Bool-cases s.compress_array) [
        | inl marked ↦ (
          record s { fds = after; nfds = n; compress_array = false },
          if_on _ _ marked
              ∙ ap
                  (λ o.
                    o >>= λ r. done (record s { fds = r.0; nfds = r.1; compress_array = false }))
                  q,
          record {
            size = size;
            load = omega (arith, count, fewer);
            fewer_conns = omega arith;
            fewer_bytes = omega arith;
            reqbuf_is = refl;
            resbuf_is = refl;
          },
        )
        | inr quiet ↦ (s, rw quiet refl, Keeps-refl host conns bytes s)
      ]

  -- When the host has finitely many connections and bytes to hand out, there is room in the array of
  -- fewer than 2 ^ 32 entries for all the connections to come, the parser has the documented results,
  -- the responses fit into the buffer and the fuel exceeds what is to come, a round of the request
  -- loop ends: no loop runs out of fuel, no access is out of range and no assertion fails. What was
  -- assumed of the state holds of the one that it leaves, so the same is true of every later round.
  pub request_round-Ends :
      (s : Server W)
      → Relies
      → InBounds host conns bytes fuel s
      → (goes_on : Bool) × (t : Server W) × (request_round host pollin http listen_sd fuel s
          ≡ done (some (goes_on, t)))
        × InBounds host conns bytes fuel t
        × (goes_on ≡ true → t.end_server ≡ false)
  unfolding request_round
  request_round-Ends s rely b =
      let r = host.poll s.world s.fds s.nfds poll_timeout in
      let s' = record (heard s r.reply) { fds = r.fds } in
      let k : Keeps host conns bytes s s' = record {
        size = rely.work.in_place.same_length s.world s.fds s.nfds poll_timeout;
        load = omega (arith, rely.work.conns_by_poll s.world s.fds s.nfds poll_timeout);
        fewer_conns = rely.work.conns_by_poll s.world s.fds s.nfds poll_timeout;
        fewer_bytes = rely.work.bytes_by_poll s.world s.fds s.nfds poll_timeout;
        reqbuf_is = refl;
        resbuf_is = refl;
      } in
      let b' = InBounds-Keeps host conns bytes b k in
      elim (Bool-cases (is_neg r.reply.answer || (to_nat r.reply.answer == 0))) [
        | inl over ↦ (false, s', rw over refl, b', λ e. cc)
        | inr ready ↦
            let v = visit_all-Ends s.nfds 0 s' rely b' (omega (arith, b'.room)) in
            let bv = InBounds-Keeps host conns bytes b' v.keeps in
            let (t, q, kt) = compress_fds-Keeps v.result (omega (arith, bv.room)) in
            (
              not t.end_server,
              t,
              if_off _ _ ready
                  ∙ ap
                      (λ o. o >>? λ t. compress_fds t >>= λ t'. done (some (not t'.end_server, t')))
                      v.returns
                  ∙ ap (λ o. o >>= λ t'. done (some (not t'.end_server, t'))) q,
              InBounds-Keeps host conns bytes bv kt,
              not_true t.end_server,
            )
      ]
    where
      not_true : (e : Bool) → not e ≡ true → e ≡ false
      not_true true q = cc
      not_true false q = refl
