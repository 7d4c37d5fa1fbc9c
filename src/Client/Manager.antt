-- ===== src/Client/Manager.antt =====
-- lib/exaproxy/reactor/client/manager.py, class `ClientManager`. Sockets are numbers, and a client's
-- name is the number that `str(self._nextid)` prints. What a client object answers (`readData`,
-- `writeData`, `startData`, `readRelated`) is an argument of the method that asks it. The calls on
-- the poller are kept in `calls`, newest first, and the clients that were shut down in `closed`.
pub mod Owned
pub mod Steps
mod Tests
use Prim.Native.String.{String}
use exaproxy.Common.{
  ℕ, suc, ◌+◌, Bool, true, false, not, ◌&&◌, ◌||◌, Option, none, some, List, [], ◌∷◌, ◌++◌, map,
  if◌then◌else◌, nat_beq, number_key, text_key, ◌==◌, length, mem, remove_first, ltb,
}
use exaproxy.Dict.{Dict, lookup, insert, remove, contains}
use exaproxy.Util.TimeCache.{TimeCache, Phase, Budget, set_item, pop, next, start}
use exaproxy.Util.TimeCache
use exaproxy.Poller.Epoll.{
  Call, add_read, remove_read, cork_read, uncork_read, add_write, remove_write, clear_reads,
  clear_writes,
}

-- the classes `HTTPClient`, `ICAPClient`, `TLSClient` and `PassthroughClient`
pub data Kind : Type 0 where
  http icap tls passthrough : Kind

pub record Client : Type 0 where
  pub kind : Kind
  pub name : ℕ
  pub sock : ℕ

-- a client and the source it came from, as the two tables hold them
abbrev pub Entry : Type 0
Entry = Client × String

pub record ClientManager : Type 0 where
  pub total_sent4 : ℕ
  pub total_sent6 : ℕ
  pub total_requested : ℕ
  pub norequest : TimeCache ℕ Entry
  pub is_plain : Bool
  pub bysock : Dict ℕ Entry
  pub byname : Dict ℕ ℕ
  pub buffered : List ℕ
  pub nextid : ℕ
  pub calls : List Call
  pub closed : List Client

unfoldable pub create : ℕ → ClientManager
create idle_connect = record {
  total_sent4 = 0;
  total_sent6 = 0;
  total_requested = 0;
  norequest = TimeCache.create idle_connect;
  is_plain = false;
  bysock = [];
  byname = [];
  buffered = [];
  nextid = 0;
  calls = [];
  closed = [];
}

-- What reading from a client brought: `''`, a text, or `None` for a connection that is gone.
pub data Request : Type 0 where
  incomplete hangup : Request
  complete : List ℕ → Request

unfoldable pub lookup_socket : ℕ → ClientManager → Option ℕ
lookup_socket name m = lookup name m.byname

-- `getnextid` and the common part of the four kinds of connection
abbrev named : Kind → ℕ → ClientManager → Client
named kind sock m = record { kind = kind; name = suc m.nextid; sock = sock }

abbrev opening : Kind → ℕ → ℕ → String → ClientManager → ClientManager
opening kind now sock source m = record m {
  nextid = suc m.nextid;
  norequest = set_item now sock (named kind sock m, source) m.norequest;
  byname = insert (suc m.nextid) sock m.byname;
  calls = add_read "opening_client" sock ∷ m.calls;
}

unfoldable pub http_connection : ℕ → ℕ → String → ClientManager → ClientManager
http_connection = opening http

unfoldable pub icap_connection : ℕ → ℕ → String → ClientManager → ClientManager
icap_connection = opening icap

unfoldable pub tls_connection : ℕ → ℕ → String → ClientManager → ClientManager
tls_connection = opening tls

-- A passthrough connection has no request to wait for.
unfoldable pub passthrough_connection : ℕ → String → ClientManager → ClientManager
passthrough_connection sock source m = record m {
  nextid = suc m.nextid;
  bysock = insert sock (named passthrough sock m, source) m.bysock;
  byname = insert (suc m.nextid) sock m.byname;
  calls = add_read "read_client" sock ∷ m.calls;
}

-- The client of a socket, of `bysock` first and of `norequest` else.
unfoldable pub owner : ℕ → ClientManager → Option Entry
owner sock m = elim (lookup sock m.bysock) [
  | some entry ↦ some entry
  | none ↦ lookup sock m.norequest.entries
]

abbrev release : Option Entry → ClientManager → ClientManager
release none m = m
release (some (client, source)) m = record m {
  calls =
      remove_read "opening_client" client.sock
      ∷ remove_read "read_client" client.sock
      ∷ remove_write "write_client" client.sock
      ∷ m.calls;
  closed = client ∷ m.closed;
}

unfoldable pub cleanup : ℕ → ℕ → ClientManager → ClientManager
unfolding owner pop remove_first
cleanup sock name m = release (owner sock m) (record m {
  bysock = remove sock m.bysock;
  norequest = (pop sock m.norequest).1;
  byname = remove name m.byname;
  buffered = if mem sock m.buffered then remove_first sock m.buffered else m.buffered;
})

-- The opening request is there: the client moves to `bysock`, and nothing more is read from it until
-- the request has been handled.
unfoldable pub promoted : ℕ → Client → String → ClientManager → ClientManager
unfolding pop
promoted sock client source m = record m {
  total_requested = m.total_requested + 1;
  norequest = (pop sock m.norequest).1;
  bysock = insert sock (client, source) m.bysock;
  calls =
      cork_read "read_client" sock
      ∷ remove_read "opening_client" client.sock
      ∷ add_read "read_client" client.sock
      ∷ m.calls;
}

-- Reading the opening request. The answer is `None` for a socket that is not waiting for one.
unfoldable pub read_request :
    ℕ → Request → ClientManager → Option (Client × Request) × ClientManager
read_request sock answer m = elim (lookup sock m.norequest.entries) [
  | none ↦ (none, m)
  | some (client, source) ↦ (
    some (client, answer),
    elim answer [
      | incomplete ↦ m
      | hangup ↦ cleanup sock client.name m
      | complete text ↦ promoted sock client source m
    ],
  )
]

-- Reading on, for the next request of a client whose first one was read.
unfoldable pub read_data : ℕ → Request → ClientManager → Option (Client × Request) × ClientManager
read_data sock answer m = elim (lookup sock m.bysock) [
  | none ↦ (none, m)
  | some (client, source) ↦ (
    some (client, answer),
    elim answer [
      | incomplete ↦ m
      | hangup ↦ cleanup sock client.name m
      | complete text ↦ record m {
        total_requested = m.total_requested + 1;
        calls = cork_read "read_client" sock ∷ m.calls;
      }
    ],
  )
]

-- `buffered, had_buffer, sent4, sent6`
pub record Written : Type 0 where
  pub buffered : Bool
  pub had_buffer : Bool
  pub sent4 : ℕ
  pub sent6 : ℕ

abbrev counted : Written → ClientManager → ClientManager
counted w m = record m {
  total_sent4 = m.total_sent4 + w.sent4;
  total_sent6 = m.total_sent6 + w.sent6;
}

-- the buffered list and the poller's interest in writing, after a write of `send_data`
abbrev note_buffer : ℕ → Client → Written → ClientManager → Bool × ClientManager
note_buffer sock client w m =
    if w.buffered
    then (if mem sock m.buffered then (false, m) else (
      true,
      record m {
        buffered = m.buffered ++ sock ∷ [];
        calls = add_write "write_client" client.sock ∷ m.calls;
      },
    ))
    else if w.had_buffer && mem sock m.buffered
    then (
      true,
      record m {
        buffered = remove_first sock m.buffered;
        calls = remove_write "write_client" client.sock ∷ m.calls;
      },
    )
    else (false, m)

-- `result, buffer_change` and the manager; both are `None` for an unknown socket. A client that
-- answers `None` is closed, with `result` `None` and `buffer_change` False.
unfoldable pub send_data :
    ℕ → Option Written → ClientManager → Option Bool × Option Bool × ClientManager
unfolding remove_first
send_data sock answer m = elim (lookup sock m.bysock) [
  | none ↦ (none, none, m)
  | some (client, source) ↦ elim answer [
    | none ↦ (none, some false, cleanup sock client.name m)
    | some w ↦
        let (change, after) = note_buffer sock client w (counted w m) in
        (some w.buffered, some change, after)
  ]
]

-- `remaining`: a word, or a number that may be negative
pub data Remaining : Type 0 where
  word : String → Remaining
  bytes : ℕ → Remaining
  negative : Remaining

-- the modes that a client reads the rest of a request in; `more` is the source's `''`
pub data Mode : Type 0 where
  chunked passthrough_mode transfer more : Mode

unfoldable pub parse_remaining : Remaining → Mode × ℕ
parse_remaining (word w) = if w == "chunked" then (chunked, 0) else (passthrough_mode, 0)
parse_remaining (bytes n) = if n == 0 then (more, 0) else (transfer, n)
parse_remaining negative = (passthrough_mode, 0)

-- `if buffered is True and had_buffer is False … elif buffered is False and had_buffer is True …`;
-- `none` is the ValueError of `list.remove`
abbrev start_buffer : Client → Written → ClientManager → Option ClientManager
start_buffer client w m =
    if w.buffered && not w.had_buffer
    then some (record m {
      buffered = m.buffered ++ client.sock ∷ [];
      calls = add_write "write_client" client.sock ∷ m.calls;
    })
    else if not w.buffered && w.had_buffer
    then (if mem client.sock m.buffered
        then some (record m {
          buffered = remove_first client.sock m.buffered;
          calls = remove_write "write_client" client.sock ∷ m.calls;
        })
        else none)
    else some m

-- `content` has been read along, the read cork comes off, and the bytes sent are counted.
abbrev begin : Client → Written → ClientManager → ClientManager
begin client w m = counted w (record m { calls = uncork_read "read_client" client.sock ∷ m.calls })

abbrev returned : Option ClientManager → Option (Bool × ClientManager)
returned none = none
returned (some m) = some (true, m)

-- what `start_data` does for a client that it found
abbrev start_served :
    Client → Bool → Option Written → Request → ClientManager → Option (Bool × ClientManager)
start_served client false answer related m = some (false, m)
start_served client true none related m = some (false, cleanup client.sock client.name m)
start_served client true (some w) (complete text) m =
    let n = begin client w m in
    some (
      false,
      cleanup client.sock client.name (record n { total_requested = n.total_requested + 1 }),
    )
start_served client true (some w) hangup m =
    some (false, cleanup client.sock client.name (begin client w m))
start_served client true (some w) incomplete m = returned (start_buffer client w (begin client w m))

-- `valid` says that the command unpacks to a pair; `answer` is `client.startData(command, d)`, and
-- `related` the request part of `client.readRelated`. The result says whether the client goes on.
unfoldable pub start_data :
    ℕ → Bool → Option Written → Request → ClientManager → Option (Bool × ClientManager)
unfolding remove_first
start_data sock valid answer related m = elim (lookup sock m.bysock) [
  | none ↦ some (false, m)
  | some (client, source) ↦ start_served client valid answer related m
]

unfoldable pub cork_upload : ℕ → ClientManager → ClientManager
cork_upload sock m =
    if contains sock m.bysock
    then record m { calls = cork_read "read_client" sock ∷ m.calls }
    else m

unfoldable pub uncork_upload : ℕ → ClientManager → ClientManager
uncork_upload sock m =
    if contains sock m.bysock
    then record m { calls = uncork_read "read_client" sock ∷ m.calls }
    else m

unfoldable pub softstop : ClientManager → Bool
softstop m = not (ltb 0 (length m.byname) || ltb 0 (length m.norequest.entries))

-- `self.norequest` becomes a plain dictionary, which stamps nothing, as a cache without time-out does.
unfoldable pub stop : ClientManager → ClientManager
stop m = record m {
  bysock = [];
  norequest = TimeCache.create 0;
  is_plain = true;
  byname = [];
  buffered = [];
  calls =
      clear_writes "write_client"
      ∷ clear_reads "opening_client"
      ∷ clear_reads "read_client"
      ∷ m.calls;
  closed = map (λ e. e.1.0) m.norequest.entries ++ (map (λ e. e.1.0) m.bysock ++ m.closed);
}

-- what `expire` does with the key, if any, that the generator hands out
abbrev expired_key :
    Option ℕ → Phase → Budget → ClientManager → Option (Phase × Budget) × ClientManager
expired_key none phase maximum n = (none, n)
expired_key (some sock) phase maximum n = (
  some (phase, maximum),
  elim (lookup sock n.norequest.entries) [
    | none ↦ n
    | some (client, source) ↦ cleanup sock client.name n
  ],
)

-- One round of `expire`: the generator's next key is cleaned up, until it has none.
unfoldable pub expire_timed :
    ℕ → Phase → Budget → ClientManager → Option (Phase × Budget) × ClientManager
expire_timed now phase maximum m =
    let (key, phase', maximum', cache) = next now phase maximum m.norequest in
    expired_key key phase' maximum' (record m { norequest = cache })

-- A plain dictionary has no `expired`: an AttributeError, after `stop`.
unfoldable pub expire_step :
    ℕ → Phase → Budget → ClientManager → Option (Option (Phase × Budget) × ClientManager)
expire_step now phase maximum m =
    if m.is_plain then none else some (expire_timed now phase maximum m)

-- One call of the reactor, with what the client answers.
pub data Event : Type 0 where
  connects_http connects_icap connects_tls : ℕ → ℕ → String → Event
  connects_passthrough : ℕ → String → Event
  reads_request reads_data : ℕ → Request → Event
  sends_data : ℕ → Option Written → Event
  starts_data : ℕ → Bool → Option Written → Request → Event
  corks uncorks : ℕ → Event
  cleans_up : ℕ → ℕ → Event
  expires : ℕ → Phase → Budget → Event
  stops : Event

abbrev after_start : Option (Bool × ClientManager) → Option ClientManager
after_start none = none
after_start (some (b, m)) = some m

abbrev pub after_expire : Option (Option (Phase × Budget) × ClientManager) → Option ClientManager
after_expire none = none
after_expire (some (further, m)) = some m

-- `none` is an exception that leaves the method.
unfoldable pub step : Event → ClientManager → Option ClientManager
step (connects_http now sock source) m = some (http_connection now sock source m)
step (connects_icap now sock source) m = some (icap_connection now sock source m)
step (connects_tls now sock source) m = some (tls_connection now sock source m)
step (connects_passthrough sock source) m = some (passthrough_connection sock source m)
step (reads_request sock answer) m = some (read_request sock answer m).1
step (reads_data sock answer) m = some (read_data sock answer m).1
step (sends_data sock answer) m = some (send_data sock answer m).2
step (starts_data sock valid answer related) m =
    after_start (start_data sock valid answer related m)
step (corks sock) m = some (cork_upload sock m)
step (uncorks sock) m = some (uncork_upload sock m)
step (cleans_up sock name) m = some (cleanup sock name m)
step (expires now phase maximum) m = after_expire (expire_step now phase maximum m)
step stops m = some (stop m)
