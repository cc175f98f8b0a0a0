-- ===== src/Hostgen/Poll.antt =====
-- utils/hostgen.c: the header with the masks of poll(2), and the choice of the file to print. The masks
-- of the platform are parameters, some of which it may not define.
use Prim.Native.String.{String}
use waeio.Prelude.{
  Bool, if◌then◌else◌, ℕ, ℤ, pos, minus_one, List, [], ◌∷◌, ◌++◌, Option, none, some, Outcome, done,
  ◌>>=◌,
}
use waeio.Hostgen.{ErrnoItem, join, header, emit_hguard, emit_errno_c, emit_errno_h}

-- The macros of poll.h.
pub record PollMasks : Type 0 where
  pub pollin : ℕ
  pub pollpri : ℕ
  pub pollout : ℕ
  pub pollrdnorm : Option ℕ
  pub pollrdband : Option ℕ
  pub pollwrnorm : Option ℕ
  pub pollwrband : Option ℕ
  pub pollmsg : Option ℕ
  pub pollremove : Option ℕ
  pub pollrhup_defined : Bool
  pub pollrdhup : ℕ
  pub pollerr : ℕ
  pub pollhup : ℕ
  pub pollnval : ℕ

-- `extern`, the attribute and the prototype of an import.
unfoldable pub emit_import : String → String → String → List String
emit_import from fn sig =
    "extern\n"
    ∷ join ("__wasm_import__(\"" ∷ from ∷ "\", \"" ∷ fn ∷ "\")\n" ∷ [])
    ∷ join (sig ∷ ";\n" ∷ [])
    ∷ []

abbrev includes : List String
includes =
    "\n#include <assert.h>\n" ∷ "#include <stddef.h>\n" ∷ "#include <stdint.h>\n"
    ∷ "#include <wasm_utils.h>\n\n" ∷ []

-- One `fprintf` of the text of the struct.
abbrev struct_pollfd : List String
struct_pollfd =
    join (
      "struct pollfd {\n" ∷ "  int32_t fd;\n" ∷ "  short int events;\n" ∷ "  short int revents;\n"
      ∷ "} __attribute__((packed));\n"
      ∷ "static_assert(sizeof(struct pollfd) == 8, \"size of struct pollfd\");\n"
      ∷ "static_assert(offsetof(struct pollfd, fd) == 0, \"offset of fd\");\n"
      ∷ "static_assert(offsetof(struct pollfd, events) == 4, \"offset of events\");\n"
      ∷ "static_assert(offsetof(struct pollfd, revents) == 6, \"offset of revents\");\n\n" ∷ [])
    ∷ []

-- The prints of one function, one after the other.
pub concat : List (List String) → List String
concat [] = []
concat (texts ∷ rest) = texts ++ concat rest

module _ (decimal : ℕ → String) where
  abbrev pub define_mask : String → ℕ → List String
  define_mask name mask = join ("#define HOST_" ∷ name ∷ " " ∷ decimal mask ∷ "\n" ∷ []) ∷ []

  -- Under `#if defined`.
  abbrev pub define_if : String → Option ℕ → List String
  define_if name none = []
  define_if name (some mask) = define_mask name mask

  -- POLLRDHUP stands under the test for POLLRHUP.
  abbrev pub define_rdhup : Bool → ℕ → List String
  define_rdhup guard mask = if guard then define_mask "POLLRDHUP" mask else []

  abbrev pub mask_lines : PollMasks → List (List String)
  mask_lines masks =
      define_mask "POLLIN" masks.pollin
      ∷ define_mask "POLLPRI" masks.pollpri
      ∷ define_mask "POLLOUT" masks.pollout
      ∷ define_if "POLLRDNORM" masks.pollrdnorm
      ∷ define_if "POLLRDBAND" masks.pollrdband
      ∷ define_if "POLLWRNORM" masks.pollwrnorm
      ∷ define_if "POLLWRBAND" masks.pollwrband
      ∷ define_if "POLLMSG" masks.pollmsg
      ∷ define_if "POLLREMOVE" masks.pollremove
      ∷ define_rdhup masks.pollrhup_defined masks.pollrdhup
      ∷ define_mask "POLLERR" masks.pollerr
      ∷ define_mask "POLLHUP" masks.pollhup
      ∷ (join ("#define HOST_POLLNVAL " ∷ decimal masks.pollnval ∷ "\n\n" ∷ []) ∷ [])
      ∷ []

  unfoldable pub emit_poll_h : PollMasks → List String
  emit_poll_h masks = concat (
      (header ∷ emit_hguard "WAEIO_HOST_POLL_H")
      ∷ includes
      ∷ (mask_lines masks
          ++ (struct_pollfd
              ∷ emit_import "host_poll" "poll"
                  "int32_t host_poll(struct pollfd*, uint32_t, uint32_t, int32_t*)"
              ∷ ("#endif\n" ∷ [])
              ∷ [])))

-- The argument of the program; `other` is none of the three names.
pub data Target : Type 0 where
  errno_h errno_c poll_h other : Target

module _ (decimal strerror : ℕ → String) (masks : PollMasks) (items : List ErrnoItem) where
  unfoldable pub emit : Target → Outcome (List String)
  emit errno_h = done (emit_errno_h decimal items)
  emit errno_c = emit_errno_c strerror items
  emit poll_h = done (emit_poll_h decimal masks)
  emit other = done []

  -- The exit status and what is printed; `none` stands for a wrong number of arguments.
  unfoldable pub main : Option Target → Outcome (ℤ × List String)
  main none = done (minus_one, [])
  main (some target) = emit target >>= λ texts. done (pos 0, texts)
