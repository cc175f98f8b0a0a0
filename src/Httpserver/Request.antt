-- ===== src/Httpserver/Request.antt =====
-- examples/httpserver: how the servers answer a request. The request parser, the date, the digits of
-- numbers and the text that is served are parameters.
pub mod Answers
use waeio.Prelude.{
  ◌==◌, ◌&&◌, Bool, true, false, ℤ, minus_one, negsuc, eq_ℤ, ℕ, List, [], ◌∷◌, length, ltb, to_nat,
  if◌then◌else◌, Outcome, done, ◌>>=◌, ◌>>◌,
}
use waeio.Httpserver.Response.{
  bytes, response_ok, response_notfound, response_badrequest, response_toolarge,
}

-- `phr_parse_request`: its result, the number of headers, and the path.
pub record Parsed : Type 0 where
  pub rc : ℤ
  pub num_headers : ℕ
  pub path : List ℕ

pub record Http : Type 0 where
  pub parse : List ℕ → Parsed
  pub date : List ℕ
  pub decimal : ℕ → List ℕ
  pub response_body : List ℕ

abbrev pub eq_bytes : List ℕ → List ℕ → Bool
eq_bytes [] [] = true
eq_bytes (x ∷ xs) (y ∷ ys) = (x == y) && eq_bytes xs ys
eq_bytes _ _ = false

module _ (http : Http) (check : Bool → Outcome (Unit {0})) (resbuf : List ℕ) (buffer_size : ℕ) where
  -- The response to a request: its length or -1, the buffer, and whether the path asks the server to
  -- end. `check` is the assertion on a partial parse.
  unfoldable pub respond : Parsed → Outcome ((ℤ × List ℕ) × Bool)
  unfolding bytes
  respond p =
      let quit = bytes "OK bye...\n" in
      let served =
        response_ok http.date http.decimal resbuf buffer_size http.response_body
          (length http.response_body) in
      let bye = response_ok http.date http.decimal resbuf buffer_size quit (length quit) in
      let unknown = response_notfound http.date http.decimal resbuf buffer_size [] 0 in
      let bad = response_badrequest http.date http.decimal resbuf buffer_size [] 0 in
      let too_large =
        check (eq_ℤ p.rc (negsuc 1))
        >> response_toolarge http.date http.decimal resbuf buffer_size [] 0 in
      if ltb 0 (to_nat p.rc)
      then if eq_bytes p.path (bytes "/")
        then (served >>= λ r. done (r, false))
        else if eq_bytes p.path (bytes "/quit")
        then (bye >>= λ r. done (r, true))
        else (unknown >>= λ r. done (r, false))
      else if eq_ℤ p.rc minus_one
      then (bad >>= λ r. done (r, false))
      else (too_large >>= λ r. done (r, false))
