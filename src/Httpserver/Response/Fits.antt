-- ===== src/Httpserver/Response/Fits.antt =====
-- examples/httpserver/http_utils.h: a response that fits into the buffer.
use waeio.Prelude.{
  ℕ, suc, ◌+◌, ◌-◌, ◌<◌, ◌≤◌, ◌≡◌, refl, sym, ◌∙◌, ap, subst, arith, false, pos, List, [], ◌∷◌,
  ◌++◌, length, take, set, append_assoc, append-nil, set-append, take_all, leb, length-append,
  add32, sub32, u32_mod, Outcome, done, write_in_range,
}
use waeio.Driver.{write_bytes}
use waeio.Httpserver.Response.{snprintf, print_all, response_texts, make_response}

-- The texts behind each other.
unfoldable pub concat : List (List ℕ) → List ℕ
concat [] = []
concat (xs ∷ xss) = xs ++ concat xss

-- Bytes written behind `xs`, over as many of `ys`, with what stays of `ys`.
pub write_behind :
    (xs ys new : List ℕ) (offset : ℕ)
    → offset ≡ length xs
    → length new ≤ length ys
    → (rest : List ℕ) × (write_bytes (xs ++ ys) offset new ≡ done (xs ++ (new ++ rest)))
      × (length new + length rest ≡ length ys)
unfolding write_bytes
write_behind xs ys [] offset q h = (ys, refl, omega arith)
write_behind xs [] (b ∷ new) offset q h = absurd (omega (arith, h))
write_behind xs (y ∷ ys) (b ∷ new) offset q h =
    let size = length-append xs (b ∷ []) in
    let ih =
      write_behind (xs ++ (b ∷ [])) ys new (offset + 1) (omega (arith, q, size))
        (omega (arith, h)) in
    let inside : offset < length (xs ++ (y ∷ ys)) = omega (arith, q, length-append xs (y ∷ ys)) in
    let first : set (xs ++ (y ∷ ys)) offset b ≡ (xs ++ (b ∷ [])) ++ ys =
      rw q (set-append xs ys y b ∙ sym (append_assoc xs (b ∷ []) ys)) in
    (
      ih.0,
      rw (write_in_range (xs ++ (y ∷ ys)) offset b inside, first, ih.1)
          (ap (λ l. done l) (append_assoc xs (b ∷ []) (new ++ ih.0))),
      omega (arith, ih.2),
    )

same_printed :
    (rest : List ℕ) {a b : List ℕ} {n m : ℕ}
    → a ≡ b
    → n ≡ m
    → ◌≡◌ {A = Outcome (List ℕ × ℕ)} (done (a ++ rest, n)) (done (b ++ rest, m))
same_printed rest p q = rw (p, q) refl

snprintf-write_bytes :
    (text buffer : List ℕ) (buflen n : ℕ)
    → n + length text < buflen
    → buflen < u32_mod
    → snprintf buffer n (sub32 buflen n) text ≡ write_bytes buffer n (text ++ (0 ∷ []))
unfolding snprintf
snprintf-write_bytes text buffer buflen n fits word =
    let spare : sub32 buflen n ≡ suc (buflen - n - 1) = omega (arith, fits, word) in
    let cut : take (buflen - n - 1) text ≡ text = take_all _ text (omega (arith, fits)) in
    rw (spare, cut) refl

-- One text that fits.
snprintf_fits :
    (text xs ys : List ℕ) (buflen : ℕ)
    → length xs + length text < buflen
    → buflen ≤ length xs + length ys
    → buflen < u32_mod
    → (rest : List ℕ) × (snprintf (xs ++ ys) (length xs) (sub32 buflen (length xs)) text
        ≡ done ((xs ++ text) ++ (0 ∷ rest)))
      × (length text + 1 + length rest ≡ length ys)
snprintf_fits text xs ys buflen fits room word =
    let n = length xs in
    let size = length-append text (0 ∷ []) in
    let w = write_behind xs ys (text ++ (0 ∷ [])) n refl (omega (arith, fits, room, size)) in
    let shape : xs ++ ((text ++ (0 ∷ [])) ++ w.0) ≡ (xs ++ text) ++ (0 ∷ w.0) =
      ap (λ l. xs ++ l) (append_assoc text (0 ∷ []) w.0) ∙ sym (append_assoc xs text (0 ∷ w.0)) in
    (
      w.0,
      snprintf-write_bytes text (xs ++ ys) buflen n fits word ∙ w.1 ∙ ap (λ l. done l) shape,
      omega (arith, w.2, size),
    )

print_all-step :
    (text : List ℕ) (texts : List (List ℕ)) (buffer buffer' : List ℕ) (buflen n n' : ℕ)
    → snprintf buffer n (sub32 buflen n) text ≡ done buffer'
    → add32 n (length text) ≡ n'
    → print_all buflen (text ∷ texts) buffer n ≡ print_all buflen texts buffer' n'
unfolding print_all
print_all-step text texts buffer buffer' buflen n n' q next = rw (q, next) refl

-- The buffer after texts that fit: what was printed before, the texts, and the rest with a zero.
print_all_fits :
    (texts : List (List ℕ)) (xs ys : List ℕ) (buflen : ℕ)
    → length xs + length (concat texts) < buflen
    → buflen ≤ length xs + length ys
    → buflen < u32_mod
    → (rest : List ℕ) × (print_all buflen texts (xs ++ ys) (length xs)
        ≡ done ((xs ++ concat texts) ++ rest, length xs + length (concat texts)))
      × (length (concat texts) + length rest ≡ length ys)
unfolding print_all concat
print_all_fits [] xs ys buflen fits room word =
    let n : length xs + 0 ≡ length xs = omega arith in (ys, rw (append-nil xs, n) refl, omega arith)
print_all_fits (text ∷ texts) xs ys buflen fits room word =
    let both = length-append text (concat texts) in
    let grown = length-append xs text in
    let w = snprintf_fits text xs ys buflen (omega (arith, fits, both)) room word in
    let next : add32 (length xs) (length text) ≡ length (xs ++ text) =
      omega (arith, grown, fits, word, both) in
    let ih =
      print_all_fits texts (xs ++ text) (0 ∷ w.0) buflen (omega (arith, fits, both, grown))
        (omega (arith, room, w.2, grown)) word in
    let total : length (xs ++ text) + length (concat texts)
        ≡ length xs + length (text ++ concat texts) =
      omega (arith, grown, both) in
    (
      ih.0,
      print_all-step text texts (xs ++ ys) _ buflen (length xs) _ w.1 next
          ∙ ih.1
          ∙ same_printed ih.0 (append_assoc xs text (concat texts)) total,
      omega (arith, ih.2, w.2, both),
    )

-- The same from an empty buffer.
print_all_from_start :
    (texts : List (List ℕ)) (buffer : List ℕ) (buflen : ℕ)
    → length (concat texts) < buflen
    → buflen ≤ length buffer
    → buflen < u32_mod
    → (rest : List ℕ) × (print_all buflen texts buffer 0
        ≡ done (concat texts ++ rest, length (concat texts)))
      × (length (concat texts) + length rest ≡ length buffer)
print_all_from_start texts buffer buflen fits room word =
    let x =
      print_all_fits texts [] buffer buflen (omega (arith, fits)) (omega (arith, room)) word in
    let zero_left : 0 + length (concat texts) ≡ length (concat texts) = omega arith in
    (
      x.0,
      subst (λ n. print_all buflen texts buffer 0 ≡ done (concat texts ++ x.0, n)) zero_left x.1,
      x.2,
    )

module _ (date : List ℕ) (decimal : ℕ → List ℕ) (httpcode body : List ℕ) (content_length : ℕ) where
  -- The bytes of the response.
  abbrev pub response : List ℕ
  response = concat (response_texts date decimal httpcode body content_length)

  -- A response whose bytes are fewer than the 32-bit `buflen`, in a buffer of at least that size: no
  -- access is out of range, the result is the number of bytes, and the buffer starts with the
  -- response.
  pub make_response_fits :
      (buffer : List ℕ) (buflen : ℕ)
      → length response < buflen
      → buflen ≤ length buffer
      → buflen < u32_mod
      → (rest : List ℕ) × (make_response date decimal buffer buflen httpcode body content_length
          ≡ done (pos (length response), response ++ rest))
        × (length response + length rest ≡ length buffer)
  unfolding make_response
  make_response_fits buffer buflen fits room word =
      let x =
        print_all_from_start (response_texts date decimal httpcode body content_length) buffer
          buflen fits room word in
      let short : leb buflen (length response) ≡ false = ground (arith, fits) in
      (x.0, rw (x.1, short) refl, x.2)
