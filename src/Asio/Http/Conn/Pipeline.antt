-- ===== src/Asio/Http/Conn/Pipeline.antt =====
-- The responses of a connection come whole and in the order of the requests.
use net_cpp.Prelude.{
  ℕ, ◌+◌, ◌≤◌, ◌≡◌, refl, sym, ap, ap₂, ◌∙◌, Bool, true, false, none, some, List, [], ◌∷◌, ◌++◌,
  arith, if◌then◌else◌, length, length-append, Str,
}
use net_cpp.Asio.Io.{Turn, Sent}
use net_cpp.Asio.Io.Whole.{rooms, Works}
use net_cpp.Asio.Http.Response.{to_string}
use net_cpp.Asio.Http.Response.Sendto.{ResponseBuilder, sendto-Written}
use net_cpp.Asio.Http.Context.{Request}
use net_cpp.Asio.Http.Service.{Served, replied}
use net_cpp.Asio.Http.Conn.{
  Incoming, request, failed, Stop, deregistered, waiting, Session, closes, with_close, after_send,
  after_service, serve_connection,
}

-- The service replies to a request with a string as the body, and this is the text of its response.
abbrev pub Replies : (Request → Served) → Request → Str → Type 0
Replies service r text =
    (resp : ResponseBuilder) × (head : Str) × (service r ≡ replied resp)
    × (to_string (with_close (closes r) resp).part ≡ some head)
    × ((with_close (closes r) resp).body ≡ none)
    × (text ≡ head ++ (with_close (closes r) resp).raw_body)

-- The texts of the responses up to the first request that closes the connection, or the first read
-- that fails, and how the connection then stands.
abbrev pub answers : (Request → Str) → List Incoming → Str
answers text [] = []
answers text (failed ec ∷ incoming) = []
answers text (request r ∷ incoming) = if closes r then text r else (text r ++ answers text incoming)

abbrev pub stands : List Incoming → Stop
stands [] = waiting
stands (failed ec ∷ incoming) = deregistered
stands (request r ∷ incoming) = if closes r then deregistered else stands incoming

-- The write calls that are needed at most.
abbrev pub needed : (Request → Str) → List Incoming → ℕ
needed text [] = 0
needed text (failed ec ∷ incoming) = 0
needed text (request r ∷ incoming) = length (text r) + 2 + needed text incoming

abbrev Serves : (Request → Served) → (Request → Str) → Bool → List Incoming → Type 0
Serves service text g incoming =
    (ts : List Turn)
    → Works ts
    → needed text incoming ≤ rooms ts
    → ((serve_connection service g incoming ts).wire ≡ answers text incoming)
      × ((serve_connection service g incoming ts).stop ≡ stands incoming)

-- Every request that is read is replied to.
abbrev pub Answered : (Request → Served) → (Request → Str) → List Incoming → Type 0
Answered service text [] = Unit {0}
Answered service text (failed ec ∷ incoming) = Unit {0}
Answered service text (request r ∷ incoming) =
    Replies service r (text r) × Answered service text incoming

sent_then :
    (b : Bool) (ts : List Turn) (next : List Turn → Session) (s : Sent) {t u : Str} {stop : Stop}
    → s.wire ≡ t
    → (next s.rest).wire ≡ u
    → (next s.rest).stop ≡ stop
    → ((after_send b ts next (some (some s))).wire ≡ (if b then t else (t ++ u)))
      × ((after_send b ts next (some (some s))).stop ≡ (if b then deregistered else stop))
unfolding after_send
sent_then true ts next s e f h = (e, refl)
sent_then false ts next s e f h = (ap₂ ◌++◌ e f, h)

module _ (service : Request → Served) (text : Request → Str) (g : Bool) where
  Serves-request :
      (r : Request) (incoming : List Incoming)
      → Replies service r (text r)
      → Serves service text g incoming
      → Serves service text g (request r ∷ incoming)
  unfolding serve_connection after_service after_send
  Serves-request r incoming (resp, head, e, h, n, t) ih ts w l =
      let (s, f, d) =
        sendto-Written g ts (with_close (closes r) resp) head h n w
          (omega (arith, ap length t, length-append head (with_close (closes r) resp).raw_body)) in
      let (wire, stop) = ih s.rest d.works (omega (arith, d.enough, ap length t)) in
      let whole : s.wire ≡ text r = d.wire ∙ sym t in
      rw (e, f) (sent_then (closes r) ts (serve_connection service g incoming) s whole wire stop)

  serves :
      (incoming : List Incoming) → Answered service text incoming → Serves service text g incoming
  unfolding serve_connection
  serves [] a ts w l = (refl, refl)
  serves (failed ec ∷ incoming) a ts w l = (refl, refl)
  serves (request r ∷ incoming) (a, as') ts w l =
      Serves-request r incoming a (serves incoming as') ts w l

-- If the service replies to each request with a string as the body, and on turns where every call has
-- room and nothing fails, and enough of them, a connection writes the texts of the responses, whole
-- and in the order of the requests, up to the first request that asks to close or the first read that
-- fails; then it is deregistered, and otherwise it waits for the peer.
pub serve_connection-answers :
    (service : Request → Served) (text : Request → Str) (g : Bool) (incoming : List Incoming)
    (ts : List Turn)
    → Answered service text incoming
    → Works ts
    → needed text incoming ≤ rooms ts
    → ((serve_connection service g incoming ts).wire ≡ answers text incoming)
      × ((serve_connection service g incoming ts).stop ≡ stands incoming)
serve_connection-answers service text g incoming ts a w l = serves service text g incoming a ts w l
