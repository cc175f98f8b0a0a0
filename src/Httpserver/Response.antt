-- ===== src/Httpserver/Response.antt =====
-- examples/httpserver/http_utils.h: the responses. Texts are lists of bytes; the date that `gmtime` and
-- `snprintf` give and the decimal digits of `%d` are parameters.
pub mod Fits
use Prim.Native.String
use Prim.Native.String.{String}
use Prim.Native.Char.{code}
use waeio.Prelude.{
  ℕ, zero, suc, ◌-◌, ◌==◌, Bool, true, false, ℤ, pos, minus_one, List, [], ◌∷◌, ◌++◌, length, take,
  add32, sub32, leb, if◌then◌else◌, Outcome, done, ◌>>=◌,
}
use waeio.Driver.{write_bytes}

-- The bytes of a literal, which has only ASCII characters.
unfoldable pub bytes : String → List ℕ
bytes String.[] = []
bytes (String.◌∷◌ c s) = code c ∷ bytes s

-- `snprintf(buffer + offset, size, ...)` of a text: what fits is stored with a zero behind it.
unfoldable pub snprintf : List ℕ → ℕ → ℕ → List ℕ → Outcome (List ℕ)
snprintf buffer offset zero text = done buffer
snprintf buffer offset (suc size) text = write_bytes buffer offset (take size text ++ (0 ∷ []))

-- `response_length += snprintf(buffer + response_length, buflen - response_length, ...)`, for one text
-- after the other; the subtraction is one of words.
unfoldable pub print_all : ℕ → List (List ℕ) → List ℕ → ℕ → Outcome (List ℕ × ℕ)
unfolding snprintf
print_all buflen [] buffer response_length = done (buffer, response_length)
print_all buflen (text ∷ texts) buffer response_length = do
  buffer' ← snprintf buffer response_length (sub32 buflen response_length) text
  print_all buflen texts buffer' (add32 response_length (length text))

module _ (date : List ℕ) (decimal : ℕ → List ℕ) where
  -- The texts of a response, in order. The body is printed by `%s`: the bytes before its zero.
  unfoldable pub response_texts : List ℕ → List ℕ → ℕ → List (List ℕ)
  unfolding bytes
  response_texts httpcode body content_length =
      let headers : List (List ℕ) =
        (bytes "HTTP/1.1 " ++ httpcode)
        ∷ bytes "\r\n"
        ∷ (bytes "Date: " ++ date ++ bytes " GMT\r\n")
        ∷ (bytes "Content-Length: " ++ decimal content_length ++ bytes "\r\n")
        ∷ bytes "Content-Type: text/plain\r\n"
        ∷ bytes "\r\n"
        ∷ [] in
      if content_length == 0 then headers else headers ++ (body ∷ [])

  -- The result and the buffer.
  unfoldable pub make_response : List ℕ → ℕ → List ℕ → List ℕ → ℕ → Outcome (ℤ × List ℕ)
  unfolding print_all response_texts
  make_response buffer buflen httpcode body content_length = do
    r ← print_all buflen (response_texts httpcode body content_length) buffer 0
    if leb buflen r.1 then done (minus_one, r.0) else done (pos r.1, r.0)

  abbrev pub response_ok : List ℕ → ℕ → List ℕ → ℕ → Outcome (ℤ × List ℕ)
  response_ok buffer buflen = make_response buffer buflen (bytes "200 OK")

  abbrev pub response_notfound : List ℕ → ℕ → List ℕ → ℕ → Outcome (ℤ × List ℕ)
  response_notfound buffer buflen = make_response buffer buflen (bytes "404 Not Found")

  abbrev pub response_err : List ℕ → ℕ → List ℕ → ℕ → Outcome (ℤ × List ℕ)
  response_err buffer buflen = make_response buffer buflen (bytes "500 Internal Server Error")

  abbrev pub response_toolarge : List ℕ → ℕ → List ℕ → ℕ → Outcome (ℤ × List ℕ)
  response_toolarge buffer buflen = make_response buffer buflen (bytes "413 Content Too Large")

  abbrev pub response_badrequest : List ℕ → ℕ → List ℕ → ℕ → Outcome (ℤ × List ℕ)
  response_badrequest buffer buflen = make_response buffer buflen (bytes "400 Bad Request")
