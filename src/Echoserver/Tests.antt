-- ===== src/Echoserver/Tests.antt =====
-- examples/echoserver/echoserver.c: the theorems on a small table.
use waeio.Prelude.{
  List, Option, replicate, length-replicate, ℕ, ◌≡◌, refl, arith, true, false, pos, minus_one, [],
  ◌∷◌, some, none, done, ◌>>=◌, take, write,
}
use waeio.Wasio.{Host, ok, translate_error}
use waeio.Wasio.Table.{wasio_send, wasio_close, wasio_recv}
use waeio.Wasio.Sample.{toy, refuse, one_open}
use waeio.Driver.{write_bytes}
use waeio.Httpserver.Response.{bytes}
use waeio.Httpserver.Request.{eq_bytes}
use waeio.Echoserver.{Server, closed, echo, echoed, receive, send_back, event}
use waeio.Httpserver.Sample.{counting, counting-Drains}
use waeio.Wasio.Table.Close.{ClosesOpen}
use waeio.Wasio.Sample.{one_open-IsTable}
use waeio.Echoserver.Safe.{Sound, Safe}
use waeio.Echoserver.Events.{event-Safe}
use waeio.Echoserver.Echo.{buffer_outlives}

abbrev server : Server ℕ
server = record { wasio = one_open; nclients = 1; buffers = none ∷ none ∷ []; keep_going = true }

-- A host that refuses to close anything.
abbrev holding : Host ℕ
holding = record toy { close = λ w fd. refuse w }

abbrev served : Server ℕ
served = record server {
  wasio = record one_open { host_errno = pos 9 };
  buffers = some (104 ∷ 105 ∷ 0 ∷ 0 ∷ []) ∷ none ∷ [];
}

serves :
    echo holding 0
      (104 ∷ 105 ∷ 0 ∷ 0 ∷ [])
      2
      (record server { buffers = some (104 ∷ 105 ∷ 0 ∷ 0 ∷ []) ∷ none ∷ [] })
    ≡ done served
unfolding echo echoed closed wasio_send wasio_close translate_error
serves = refl

gets : wasio_recv holding one_open (pos 0) 4096 0 ≡ done (ok, 2, 104 ∷ 105 ∷ [], one_open)
unfolding wasio_recv
gets = refl

stores : write_bytes (0 ∷ 0 ∷ 0 ∷ 0 ∷ []) 0 (104 ∷ 105 ∷ []) ≡ done (104 ∷ 105 ∷ 0 ∷ 0 ∷ [])
unfolding write_bytes write
stores = refl

not_quit : eq_bytes (take 4 (104 ∷ 105 ∷ 0 ∷ 0 ∷ [])) (bytes "quit") ≡ false
unfolding bytes
not_quit = refl

buffer_outlives_example :
    (receive holding 0 (some (0 ∷ 0 ∷ 0 ∷ 0 ∷ [])) server ≡ done (true, served))
    × (event holding (λ n. none) (pos 1) (pos 0) 0 served
        ≡ (send_back holding 0 (104 ∷ 105 ∷ 0 ∷ 0 ∷ []) served >>= λ u. done (true, u)))
buffer_outlives_example =
    buffer_outlives holding (λ n. none) (pos 1) (pos 0) 0 2 (0 ∷ 0 ∷ 0 ∷ 0 ∷ []) (104 ∷ 105 ∷ [])
      (104 ∷ 105 ∷ 0 ∷ 0 ∷ []) one_open server served served gets stores not_quit (omega arith)
      serves (λ e. ground arith) refl

counting-ClosesOpen : ClosesOpen counting
counting-ClosesOpen = record { refuses = λ w e. cc }

abbrev blocks : ℕ → Option (List ℕ)
blocks n = some (replicate 4096 0)

server-Sound : Sound 2 server
server-Sound = record { table = one_open-IsTable; capacity_is = refl; room = refl }

event-Safe_example : Safe (λ r. r.1) 2 (event counting blocks (pos 1) minus_one 0 server)
event-Safe_example =
    event-Safe counting 2 blocks 1 0 minus_one server counting-ClosesOpen
      (λ w fd len. counting-Drains.at_most w fd len)
      (λ n. (replicate 4096 0, refl, omega (arith, length-replicate 4096 (let z : ℕ = 0 in z))))
      server-Sound (omega arith) (omega arith) (omega arith)
