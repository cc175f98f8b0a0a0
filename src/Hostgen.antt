-- ===== src/Hostgen.antt =====
-- utils/hostgen.c: the generator of the headers that tell a guest the error numbers of its platform.
-- What it prints is a list of texts; the numbers, `strerror` and `%d` are parameters.
pub mod Errno
pub mod Poll
mod Tests
use Prim.Native.String
use Prim.Native.String.{String}
use waeio.Prelude.{
  ℕ, zero, suc, Bool, true, false, List, [], ◌∷◌, ◌++◌, map, replicate, not, pos, Outcome, done,
  ◌>>=◌, read, write, if◌then◌else◌,
}

-- `struct errno_item`
pub record ErrnoItem : Type 0 where
  pub name : String
  pub code : ℕ

-- ERRNO_ITEMS
abbrev pub errno_items_count : ℕ
errno_items_count = 134

abbrev pub errno_names : List String
errno_names =
    "EPERM" ∷ "ENOENT" ∷ "ESRCH" ∷ "EINTR" ∷ "EIO" ∷ "ENXIO" ∷ "E2BIG" ∷ "ENOEXEC" ∷ "EBADF"
    ∷ "ECHILD" ∷ "EAGAIN" ∷ "ENOMEM" ∷ "EACCES" ∷ "EFAULT" ∷ "ENOTBLK" ∷ "EBUSY" ∷ "EEXIST"
    ∷ "EXDEV" ∷ "ENODEV" ∷ "ENOTDIR" ∷ "EISDIR" ∷ "EINVAL" ∷ "ENFILE" ∷ "EMFILE" ∷ "ENOTTY"
    ∷ "ETXTBSY" ∷ "EFBIG" ∷ "ENOSPC" ∷ "ESPIPE" ∷ "EROFS" ∷ "EMLINK" ∷ "EPIPE" ∷ "EDOM" ∷ "ERANGE"
    ∷ "EDEADLK" ∷ "ENAMETOOLONG" ∷ "ENOLCK" ∷ "ENOSYS" ∷ "ENOTEMPTY" ∷ "ELOOP" ∷ "EWOULDBLOCK"
    ∷ "ENOMSG" ∷ "EIDRM" ∷ "ECHRNG" ∷ "EL2NSYNC" ∷ "EL3HLT" ∷ "EL3RST" ∷ "ELNRNG" ∷ "EUNATCH"
    ∷ "ENOCSI" ∷ "EL2HLT" ∷ "EBADE" ∷ "EBADR" ∷ "EXFULL" ∷ "ENOANO" ∷ "EBADRQC" ∷ "EBADSLT"
    ∷ "EDEADLOCK" ∷ "EBFONT" ∷ "ENOSTR" ∷ "ENODATA" ∷ "ETIME" ∷ "ENOSR" ∷ "ENONET" ∷ "ENOPKG"
    ∷ "EREMOTE" ∷ "ENOLINK" ∷ "EADV" ∷ "ESRMNT" ∷ "ECOMM" ∷ "EPROTO" ∷ "EMULTIHOP" ∷ "EDOTDOT"
    ∷ "EBADMSG" ∷ "EOVERFLOW" ∷ "ENOTUNIQ" ∷ "EBADFD" ∷ "EREMCHG" ∷ "ELIBACC" ∷ "ELIBBAD"
    ∷ "ELIBSCN" ∷ "ELIBMAX" ∷ "ELIBEXEC" ∷ "EILSEQ" ∷ "ERESTART" ∷ "ESTRPIPE" ∷ "EUSERS"
    ∷ "ENOTSOCK" ∷ "EDESTADDRREQ" ∷ "EMSGSIZE" ∷ "EPROTOTYPE" ∷ "ENOPROTOOPT" ∷ "EPROTONOSUPPORT"
    ∷ "ESOCKTNOSUPPORT" ∷ "EOPNOTSUPP" ∷ "EPFNOSUPPORT" ∷ "EAFNOSUPPORT" ∷ "EADDRINUSE"
    ∷ "EADDRNOTAVAIL" ∷ "ENETDOWN" ∷ "ENETUNREACH" ∷ "ENETRESET" ∷ "ECONNABORTED" ∷ "ECONNRESET"
    ∷ "ENOBUFS" ∷ "EISCONN" ∷ "ENOTCONN" ∷ "ESHUTDOWN" ∷ "ETOOMANYREFS" ∷ "ETIMEDOUT"
    ∷ "ECONNREFUSED" ∷ "EHOSTDOWN" ∷ "EHOSTUNREACH" ∷ "EALREADY" ∷ "EINPROGRESS" ∷ "ESTALE"
    ∷ "EUCLEAN" ∷ "ENOTNAM" ∷ "ENAVAIL" ∷ "EISNAM" ∷ "EREMOTEIO" ∷ "EDQUOT" ∷ "ENOMEDIUM"
    ∷ "EMEDIUMTYPE" ∷ "ECANCELED" ∷ "ENOKEY" ∷ "EKEYEXPIRED" ∷ "EKEYREVOKED" ∷ "EKEYREJECTED"
    ∷ "EOWNERDEAD" ∷ "ENOTRECOVERABLE" ∷ "ERFKILL" ∷ "EHWPOISON" ∷ "ENOTSUP" ∷ []

-- `errno_items`, where `number` gives the platform's number for a name.
unfoldable pub errno_items : (String → ℕ) → List ErrnoItem
errno_items number = map (λ name. record { name = name; code = number name }) errno_names

-- The texts of one `fprintf`, put together.
unfoldable pub join : List String → String
join [] = ""
join (s ∷ ss) = String.◌++◌ s (join ss)

-- What the loop of `emit_errno_c` prints for an item.
unfoldable pub print_case : (ℕ → String) → ErrnoItem → List String
unfolding join
print_case strerror item =
    join ("    case HOST_" ∷ item.name ∷ ":\n" ∷ [])
    ∷ join ("      return \"" ∷ strerror item.code ∷ "\";\n" ∷ [])
    ∷ []

-- The loop of `emit_errno_c`; `seen` marks the numbers that have a case.
unfoldable pub emit_cases : (ℕ → String) → List Bool → List ErrnoItem → Outcome (List String)
emit_cases strerror seen [] = done []
emit_cases strerror seen (item ∷ items) = do
  was_seen ← read seen (pos item.code)
  seen' ← write seen (pos item.code) true
  let skip = emit_cases strerror seen items
  let print = emit_cases strerror seen' items >>= λ ls. done (print_case strerror item ++ ls)
  if was_seen then skip else print

abbrev pub header : String
header = "// DO NOT EDIT. This file is automatically generated by the build process!\n"

-- What `emit_errno_c` prints around the cases.
abbrev pub around_cases : List String → List String
around_cases cases =
    header
    ∷ "#include <host/errno.h>\n"
    ∷ "#include <stdint.h>\n\n"
    ∷ "int32_t host_errno = 0;\n\n"
    ∷ "const char* host_strerror(int32_t e) {\n"
    ∷ "  switch (e) {\n"
    ∷ (cases ++ ("    default:\n" ∷ "      return \"UNKNOWN ERROR\";\n" ∷ "  }\n" ∷ "}\n" ∷ []))

unfoldable pub emit_errno_c : (ℕ → String) → List ErrnoItem → Outcome (List String)
unfolding emit_cases
emit_errno_c strerror items = do
  cases ← emit_cases strerror (replicate errno_items_count false) items
  done (around_cases cases)

abbrev pub emit_hguard : String → List String
emit_hguard h = join ("#ifndef " ∷ h ∷ "\n" ∷ []) ∷ join ("#define " ∷ h ∷ "\n" ∷ []) ∷ []

abbrev pub print_define : (ℕ → String) → ErrnoItem → String
print_define decimal item = join ("#define HOST_" ∷ item.name ∷ " " ∷ decimal item.code ∷ "\n" ∷ [])

unfoldable pub emit_errno_h : (ℕ → String) → List ErrnoItem → List String
emit_errno_h decimal items =
    header
    ∷ (emit_hguard "WAEIO_HOST_ERRNO_H"
        ++ ("\n#include <stdint.h>\n\n"
            ∷ "extern int32_t host_errno;\n\n"
            ∷ "const char* host_strerror(int32_t);\n\n"
            ∷ (map (print_define decimal) items ++ ("\n" ∷ "#endif\n" ∷ []))))
