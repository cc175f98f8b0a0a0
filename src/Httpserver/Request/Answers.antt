-- ===== src/Httpserver/Request/Answers.antt =====
-- examples/httpserver: which response a request gets.
use Prim.Native.String.{String}
use waeio.Prelude.{
  ℕ, ◌+◌, ◌<◌, ◌≤◌, ◌≡◌, refl, ap, ◌⊎◌, inl, inr, arith, Bool, true, false, ℤ, pos, negsuc,
  minus_one, eq_ℤ, to_nat, List, [], ◌++◌, length, ltb, u32_mod, if◌then◌else◌, Bool-cases, Outcome,
  done, ◌>>=◌,
}
use waeio.Httpserver.Response.{bytes}
use waeio.Httpserver.Response.Fits.{response, make_response_fits}
use waeio.Httpserver.Request.{Parsed, Http, eq_bytes, respond}

-- The results that picohttpparser documents: a length, -1 on failure, -2 on a partial request.
abbrev pub IsResult : ℤ → Type 0
IsResult rc = (0 < to_nat rc) ⊎ ((rc ≡ minus_one) ⊎ (rc ≡ negsuc 1))

partial_result :
    (rc : ℤ)
    → IsResult rc
    → ltb 0 (to_nat rc) ≡ false
    → eq_ℤ rc minus_one ≡ false
    → eq_ℤ rc (negsuc 1) ≡ true
partial_result rc (inl h) e f = ground arith
partial_result rc (inr (inl q)) e f = absurd (cc (ap (λ r. eq_ℤ r minus_one) q, f))
partial_result rc (inr (inr q)) e f = rw q refl

module _ (http : Http) where
  abbrev pub plain : String → List ℕ
  plain code = response http.date http.decimal (bytes code) [] 0

  abbrev pub served : List ℕ
  served =
      response http.date http.decimal (bytes "200 OK") http.response_body
        (length http.response_body)

  abbrev pub bye : List ℕ
  bye =
      response http.date http.decimal (bytes "200 OK") (bytes "OK bye...\n")
        (length (bytes "OK bye...\n"))

  -- The response to a parsed request, and whether it asks the server to end.
  unfoldable pub reply_to : Parsed → List ℕ × Bool
  reply_to p =
      if ltb 0 (to_nat p.rc)
      then if eq_bytes p.path (bytes "/")
        then (served, false)
        else if eq_bytes p.path (bytes "/quit")
        then (bye, true)
        else (plain "404 Not Found", false)
      else if eq_ℤ p.rc minus_one
      then (plain "400 Bad Request", false)
      else (plain "413 Content Too Large", false)

  -- Each response is shorter than the buffer.
  pub record ResponsesFit (buffer_size : ℕ) : Type 0 where
    pub word : buffer_size < u32_mod
    pub served_fits : length served < buffer_size
    pub bye_fits : length bye < buffer_size
    pub not_found_fits : length (plain "404 Not Found") < buffer_size
    pub bad_fits : length (plain "400 Bad Request") < buffer_size
    pub too_large_fits : length (plain "413 Content Too Large") < buffer_size

  -- A response stored at the start of the buffer, with its length.
  abbrev pub Stores : List ℕ → List ℕ → Outcome (ℤ × List ℕ) → Type 0
  Stores resbuf text o =
      (rest : List ℕ) × (o ≡ done (pos (length text), text ++ rest))
      × (length text + length rest ≡ length resbuf)

  abbrev pub Answers : List ℕ → List ℕ × Bool → Outcome ((ℤ × List ℕ) × Bool) → Type 0
  Answers resbuf reply o =
      (rest : List ℕ) × (o ≡ done ((pos (length reply.0), reply.0 ++ rest), reply.1))
      × (length reply.0 + length rest ≡ length resbuf)

  with_flag :
      (resbuf text : List ℕ) (quit : Bool) (o : Outcome (ℤ × List ℕ))
      → Stores resbuf text o
      → Answers resbuf (text, quit) (o >>= λ r. done (r, quit))
  with_flag resbuf text quit o (rest, q, size) = (rest, rw q refl, size)

  -- With a buffer of the size that the code assumes, and responses that fit into it, a request with
  -- a documented result of the parser gets exactly the response of its kind: the text for `/`, the
  -- farewell for `/quit`, which alone asks the server to end, 404 for another path, 400 for a
  -- failure, 413 for a partial request. No access is out of range, the assertion holds, the length
  -- of the response is returned, and the buffer starts with the response.
  pub respond-reply_to :
      (check : Bool → Outcome (Unit {0})) (resbuf : List ℕ) (buffer_size : ℕ) (p : Parsed)
      → ResponsesFit buffer_size
      → buffer_size ≤ length resbuf
      → check true ≡ done tt
      → IsResult p.rc
      → Answers resbuf (reply_to p) (respond http check resbuf buffer_size p)
  unfolding respond reply_to
  respond-reply_to check resbuf buffer_size p fits room holds result =
      let store = λ (code : String) (body : List ℕ) (n : ℕ).
        make_response_fits http.date http.decimal (bytes code) body n resbuf buffer_size in
      elim (Bool-cases (ltb 0 (to_nat p.rc))) [
        | inl parsed ↦ elim (Bool-cases (eq_bytes p.path (bytes "/"))) [
          | inl root ↦
              rw (parsed, root)
                (with_flag resbuf _ false _
                  (store "200 OK" http.response_body _ fits.served_fits room fits.word))
          | inr other ↦ elim (Bool-cases (eq_bytes p.path (bytes "/quit"))) [
            | inl quits ↦
                rw (parsed, other, quits)
                  (with_flag resbuf _ true _ (store "200 OK" _ _ fits.bye_fits room fits.word))
            | inr unknown ↦
                rw (parsed, other, unknown)
                  (with_flag resbuf _ false _
                    (store "404 Not Found" [] 0 fits.not_found_fits room fits.word))
          ]
        ]
        | inr not_parsed ↦ elim (Bool-cases (eq_ℤ p.rc minus_one)) [
          | inl failed ↦
              rw (not_parsed, failed)
                (with_flag resbuf _ false _
                  (store "400 Bad Request" [] 0 fits.bad_fits room fits.word))
          | inr partial ↦
              let two : eq_ℤ p.rc (negsuc 1) ≡ true =
                partial_result p.rc result not_parsed partial in
              rw (not_parsed, partial, two, holds)
                (with_flag resbuf _ false _
                  (store "413 Content Too Large" [] 0 fits.too_large_fits room fits.word))
        ]
      ]
