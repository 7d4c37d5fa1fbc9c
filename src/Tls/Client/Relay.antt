-- ===== src/Tls/Client/Relay.antt =====
-- lib/exaproxy/reactor/client/tls.py, the coroutine `_read` of class `TLSClient`, with
-- `processProxyHeader` and `process`: one `send` to the generator. What `recv` answers, as often as the
-- turn calls it, is a list, and `none` says that it was too short.
use exaproxy.Common.{
  ℕ, Bool, true, false, Option, none, some, List, [], ◌∷◌, ◌++◌, if◌then◌else◌, mem,
}
use exaproxy.Util.Proxy.{Bytes, parse}
use exaproxy.Client.Http.Relay.{lstrip}
use exaproxy.Tls.Client.{Checked, rejected, waiting, complete, check_request}

-- the mode; `other` is one that the class does not know
pub data Mode : Type 0 where
  proxy tls passthrough other : Mode

pub data Received : Type 0 where
  got : Bytes → Received
  not_yet broken : Received

-- `asks` says that the generator stands at the yield that takes a mode, `over` that it has left its loop.
pub record TlsReader : Type 0 where
  pub r_buffer : Bytes
  pub size : Option ℕ
  pub mode : Mode
  pub peer : Option Bytes
  pub asks : Bool
  pub over : Bool

unfoldable pub create : Bool → TlsReader
create proxied = record {
  r_buffer = [];
  size = some 0;
  mode = if proxied then proxy else tls;
  peer = none;
  asks = false;
  over = false;
}

-- What is yielded: None twice, or a hello and data, of which one is empty.
pub data Given : Type 0 where
  ends : Given
  gives : Bytes → Bytes → Given

abbrev pub Turn : Type 0
Turn = Option (Given × List Received × TlsReader)

abbrev ended : List Received → TlsReader → Turn
ended reads r = some (ends, reads, record r { over = true })

-- `'\r\n' in r_buffer` or `'\n' in r_buffer`
abbrev pub has_line : Bytes → Bool
has_line r_buffer = mem 10 r_buffer

-- `process`, in a mode that is not `tls`
abbrev process : List Received → TlsReader → Mode → Turn
process reads r passthrough = some (gives [] r.r_buffer, reads, record r { r_buffer = [] })
process reads r proxy = ended reads r
process reads r tls = ended reads r
process reads r other = ended reads r

abbrev pub checked_hello : List Received → TlsReader → Checked → Turn
checked_hello reads r rejected = ended reads r
checked_hello reads r (waiting buffer size) =
    some (gives [] [], reads, record r { r_buffer = buffer; size = size })
checked_hello reads r (complete hello buffer size) =
    some (gives hello [], reads, record r { r_buffer = buffer; size = some 0; asks = true })

module _ (is_ip4 is_ip6 : Bytes → Bool) (max_buffer : ℕ) where
  -- a turn behind the proxy header, with the data that was read
  abbrev pub serve : List Received → TlsReader → Mode → Turn
  serve reads r tls = checked_hello reads r (check_request r.r_buffer max_buffer r.size)
  serve reads r proxy = process reads r proxy
  serve reads r passthrough = process reads r passthrough
  serve reads r other = process reads r other

  -- The address of the proxy header, and what follows it; without an address the loop is left. An
  -- address is never empty.
  abbrev pub masquerade : List Received → TlsReader → Option Bytes × Option Bytes → Turn
  masquerade reads r (none, rest) = ended reads r
  masquerade reads r (some client, none) = ended reads r
  masquerade reads r (some client, some rest) =
      serve reads (record r { r_buffer = rest; peer = some client; mode = tls }) tls

  -- The first loop: a proxy header that is not whole yet is read on within the turn.
  unfoldable pub read_proxied : List Received → TlsReader → Turn
  read_proxied [] r = none
  read_proxied (got [] ∷ reads) r = ended reads r
  read_proxied (not_yet ∷ reads) r = some (gives [] [], reads, r)
  read_proxied (broken ∷ reads) r = ended reads r
  read_proxied (got (x ∷ xs) ∷ reads) r =
      let buffer = lstrip (r.r_buffer ++ x ∷ xs) in
      let later = read_proxied reads (record r { r_buffer = buffer }) in
      if has_line buffer then masquerade reads r (parse is_ip4 is_ip6 buffer) else later

  abbrev pub receive : List Received → TlsReader → Turn
  receive [] r = none
  receive (got [] ∷ reads) r = ended reads r
  receive (not_yet ∷ reads) r = some (gives [] [], reads, r)
  receive (broken ∷ reads) r = ended reads r
  receive (got (x ∷ xs) ∷ reads) r =
      serve reads (record r { r_buffer = r.r_buffer ++ x ∷ xs }) r.mode

  abbrev pub read_mode : List Received → TlsReader → Mode → Turn
  read_mode reads r proxy = read_proxied reads r
  read_mode reads r tls = receive reads r
  read_mode reads r other = receive reads r
  read_mode reads r passthrough = elim r.r_buffer [
    | [] ↦ receive reads r
    | x ∷ xs ↦ serve reads r passthrough
  ]

  -- `reader.send((mode, remaining))`; a generator that has left its loop has nothing more to yield.
  unfoldable pub read_turn : Mode → List Received → TlsReader → Turn
  read_turn mode reads r =
      let asked : TlsReader = if r.asks then record r { mode = mode; asks = false } else r in
      if r.over then none else read_mode reads asked asked.mode
