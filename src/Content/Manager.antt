-- ===== src/Content/Manager.antt =====
-- lib/exaproxy/reactor/content/manager.py, class `ContentManager`. The source's `opening`,
-- `established` and `byclient` hold the same `Content` objects; their one changing field, the write
-- buffer, is kept here in `w_buffers` under the object's socket, so that a write through one table is
-- seen through the others. What sockets answer is an argument. `Host` is what the code asks of the
-- operating system and of the configuration. The calls on the poller are kept in `calls`, newest
-- first, and the sockets that were shut down in `closed`.
pub mod Owned
pub mod Fetch
pub mod Steps
mod Tests
use Prim.Native.String
use Prim.Native.String.{String}
use text.Mathlib.Text.{starts_with}
use exaproxy.Common.{
  ℕ, ◌+◌, Bool, true, false, not, ◌&&◌, ◌||◌, Option, none, some, List, [], ◌∷◌, ◌++◌, map,
  if◌then◌else◌, number_key, text_key, ◌==◌, mem, remove_first, leb, ltb,
}
use exaproxy.Dict.{Dict, lookup, insert, remove, contains}
use exaproxy.Poller.Epoll.{
  Call, add_read, remove_read, cork_read, uncork_read, add_write, remove_write, clear_reads,
  clear_writes,
}
use exaproxy.Client.Manager.{Remaining, word, bytes, negative}
use exaproxy.Content.Worker.{
  Bytes, Content, Sent, Received, Write, write_data, read_data, start_conversation, buffer_data,
}
use exaproxy.Content.Worker

-- What a client is told to send: `('close', text)`, `('stream', text)`, `('file', (header, name))`,
-- or `None`; `hangup` is `('close', None)`.
pub data Answer : Type 0 where
  close stream : String → Answer
  file : String → String → Answer
  hangup nothing : Answer

-- One row of `security.deny`: protocol 4 or 6, first and last address.
pub record Range : Type 0 where
  pub proto : ℕ
  pub first : ℕ
  pub last : ℕ

-- One row of `security.local`, where `none` stands for `'*'`.
pub record Allowed : Type 0 where
  pub allowed_host : Option String
  pub allowed_port : Option ℕ

-- The operating system and the configuration: `address` is the protocol and the number that
-- `inet_pton` reads a host as, `connect` the socket that `Content` opens, bound to the address that
-- the configuration gives for the family. `resolve` is `normpath(join(location, name))`, `size` and
-- `mtime` are what `stat` finds (`none` where it raises an IOError), `body` is the file's text with
-- the fields filled in. `http` and `file_header` print a response's text.
pub record Host : Type 0 where
  pub is_ipv4 : String → Bool
  pub is_ipv6 : String → Bool
  pub address : String → ℕ × ℕ
  pub deny : List Range
  pub local_hosts : List String
  pub local_allowed : List Allowed
  pub connect : String → ℕ → Option ℕ
  pub location : String
  pub resolve : String → String
  pub is_file : String → Bool
  pub stat : String → Option (ℕ × ℕ)
  pub body : String → List String → Option String
  pub http : String → String → String
  pub file_header : String → ℕ → String
  pub monitor_page : String → String

pub record ContentManager : Type 0 where
  pub total_sent4 : ℕ
  pub total_sent6 : ℕ
  pub opening : Dict ℕ Content
  pub established : Dict ℕ Content
  pub byclient : Dict ℕ Content
  pub w_buffers : Dict ℕ Bytes
  pub buffered : List ℕ
  pub headers : Dict String (ℕ × String)
  pub calls : List Call
  pub closed : List ℕ

abbrev pub create : ContentManager
create = record {
  total_sent4 = 0;
  total_sent6 = 0;
  opening = [];
  established = [];
  byclient = [];
  w_buffers = [];
  buffered = [];
  headers = [];
  calls = [];
  closed = [];
}

unfoldable pub has_client : ℕ → ContentManager → Bool
has_client client m = contains client m.byclient

abbrev buffer_of : ℕ → ContentManager → Bytes
buffer_of sock m = elim (lookup sock m.w_buffers) [ none ↦ [] | some b ↦ b ]

-- `normpath(join(location, name))`, or `''` for a file outside of the location
abbrev inside : Host → String → String
inside h name =
    if starts_with (h.resolve name) (String.◌++◌ h.location "/") then h.resolve name else ""

-- The header of a file is kept with the file's size, which is compared with the time of its last
-- change when the file is asked for again.
abbrev cached_header : Host → String → String → ℕ × ℕ → ContentManager → String × ContentManager
cached_header h code filename (size, mtime) m =
    let made : String × ContentManager = (
      h.file_header code size,
      record m { headers = insert filename (size, h.file_header code size) m.headers },
    ) in
    elim (lookup filename m.headers) [
      | none ↦ made
      | some (cache_time, header) ↦ if ltb cache_time mtime then made else (header, m)
    ]

unfoldable pub get_local_content : Host → String → String → ContentManager → Answer × ContentManager
get_local_content h code name m =
    let filename = inside h name in
    if h.is_file filename
    then elim (h.stat filename) [
      | none ↦ (close (h.http "501" (String.◌++◌ "local file is inaccessible " filename)), m)
      | some found ↦
          let (header, n) = cached_header h code filename found m in (file header filename, n)
    ]
    else (close (h.http "501" (String.◌++◌ "could not serve missing file " filename)), m)

-- The text of a `('close', text)`.
unfoldable pub read_local_content : Host → String → String → List String → String
read_local_content h code reason fields =
    let filename = inside h reason in
    let missing = h.http "501" (String.◌++◌ "could not serve missing file  " reason) in
    if h.is_file filename
    then elim (h.body filename fields) [ none ↦ missing | some text ↦ h.http code text ]
    else missing

-- the tests of `getDownloader`

unfoldable pub is_denied : List Range → ℕ × ℕ → Bool
is_denied [] address = false
is_denied (r ∷ rest) address =
    if r.proto == address.0 && leb r.first address.1 && leb address.1 r.last
    then true
    else is_denied rest address

abbrev fits {ℓ} : {A : Type ℓ} → (A → Bool) → Option A → Bool
fits same none = true
fits same (some a) = same a

unfoldable pub is_allowed : List Allowed → String → ℕ → Bool
is_allowed [] host port = false
is_allowed (a ∷ rest) host port =
    if fits (λ h. h == host) a.allowed_host && fits (λ p. p == port) a.allowed_port
    then true
    else is_allowed rest host port

abbrev is_local : List String → String → Bool
is_local [] host = false
is_local (h ∷ rest) host = if h == host then true else is_local rest host

-- `_terminate`, for a downloader that was found
abbrev drop_downloader : Content → ℕ → ℕ → List Call → ContentManager → ContentManager
drop_downloader downloader sock client watch m = record m {
  established = remove sock m.established;
  opening = remove sock m.opening;
  byclient = remove client m.byclient;
  buffered = if mem sock m.buffered then remove_first sock m.buffered else m.buffered;
  calls =
      (if mem sock m.buffered then remove_write "write_download" downloader.sock ∷ [] else [])
      ++ (watch ++ m.calls);
  closed = downloader.sock ∷ m.closed;
}

unfoldable pub terminate : ℕ → ℕ → ContentManager → Bool × ContentManager
unfolding remove_first
terminate sock client m = elim (lookup sock m.established) [
  | some d ↦ (true, drop_downloader d sock client (remove_read "read_download" d.sock ∷ []) m)
  | none ↦ elim (lookup sock m.opening) [
    | some d ↦ (true, drop_downloader d sock client (remove_write "opening_download" d.sock ∷ []) m)
    | none ↦ (false, m)
  ]
]

unfoldable pub end_client_download : ℕ → ContentManager → Bool × ContentManager
end_client_download client m = elim (lookup client m.byclient) [
  | none ↦ (false, m)
  | some d ↦ terminate d.sock client m
]

-- What `getDownloader` gives: no downloader, the client's own one again, or a new one.
pub data Download : Type 0 where
  refused : Download
  reused fresh : Content → Download

abbrev opened : Host → ℕ → String → ℕ → String → Download
opened h client host port method = elim (h.connect host port) [
  | none ↦ refused
  | some sock ↦ fresh (record {
    client = client;
    sock = sock;
    host = host;
    port = port;
    method = method;
    ipv4 = h.is_ipv4 host;
  })
]

abbrev new_downloader : Host → ℕ → String → ℕ → String → Download
new_downloader h client host port method =
    if is_denied h.deny (h.address host)
    then refused
    else if is_local h.local_hosts host && not (is_allowed h.local_allowed host port)
    then refused
    else opened h client host port method

abbrev same_server : Content → String → ℕ → Bool
same_server d host port = d.host == host && d.port == port

-- the client's downloader, if it goes to the same server; else it is ended
abbrev kept_downloader : ℕ → String → ℕ → ContentManager → Option Content × ContentManager
kept_downloader client host port m = elim (lookup client m.byclient) [
  | none ↦ (none, m)
  | some d ↦
      if same_server d host port then (some d, m) else (none, (end_client_download client m).1)
]

abbrev settle_downloader :
    Host → ℕ → String → ℕ → String → Option Content → ContentManager → Download × ContentManager
settle_downloader h client host port method kept n =
    if not (h.is_ipv4 host || h.is_ipv6 host)
    then (refused, n)
    else elim kept [ some d ↦ (reused d, n) | none ↦ (new_downloader h client host port method, n) ]

unfoldable pub get_downloader :
    Host → ℕ → String → ℕ → String → ContentManager → Download × ContentManager
unfolding is_denied is_allowed
get_downloader h client host port method m =
    let (kept, n) = kept_downloader client host port m in
    settle_downloader h client host port method kept n

-- The commands of the reactor, with their arguments; `malformed` is a tuple of another length, and
-- `unknown` any other command. A length is a text of digits (`bytes`) or another text (`word`).
pub data Command : Type 0 where
  download : String → ℕ → String → Remaining → Bytes → Command
  connect intercept : String → ℕ → Bytes → Command
  redirect http monitor : String → Command
  icap : String → Remaining → Command
  local_file : String → String → Command
  rewrite : String → String → List String → Command
  hang_up malformed unknown : Command

-- what the first half of `getContent` settles: the answer, the length and the downloader, with the
-- request to send to it
pub record Plan : Type 0 where
  pub answer : Answer
  pub length : Remaining
  pub download : Download
  pub request : Bytes

abbrev without_server : Answer → Remaining → Plan
without_server answer length = record {
  answer = answer;
  length = length;
  download = refused;
  request = [];
}

abbrev plan_with : Download → Bytes → Remaining → Answer → Plan
plan_with d request length answer = record {
  answer = answer;
  length = length;
  download = d;
  request = request;
}

abbrev download_length : String → Remaining → Remaining
download_length upgrade length =
    if upgrade == "" || upgrade == "http/1.0" || upgrade == "http/1.1" then length else negative

-- `download` and `connect` answer a client that gets no server with a page
abbrev plan_or_page : Host → Download → Bytes → Remaining → ContentManager → Plan × ContentManager
plan_or_page h refused request length m =
    let (page, n) = get_local_content h "400" "noconnect.html" m in
    (plan_with refused request (bytes 0) page, n)
plan_or_page h d request length m = (plan_with d request length (stream ""), m)

abbrev plan_or_close : Download → Bytes → Plan
plan_or_close refused request = plan_with refused request (bytes 0) (close "")
plan_or_close d request = plan_with d request negative (stream "")

abbrev redirection : String → String
redirection url =
    String.◌++◌ "HTTP/1.1 302 Surfprotected\r\nCache-Control: no-store\r\nLocation: "
      (String.◌++◌ url "\r\n\r\n\r\n")

unfoldable pub plan : Host → ℕ → Command → ContentManager → Plan × ContentManager
plan h client (download host port upgrade length request) m =
    let (d, n) = get_downloader h client host port "download" m in
    plan_or_page h d request (download_length upgrade length) n
plan h client (connect host port extra) m =
    let (d, n) = get_downloader h client host port "connect" m in plan_or_page h d extra negative n
plan h client (intercept host port extra) m =
    let (d, n) = get_downloader h client host port "intercept" m in (plan_or_close d extra, n)
plan h client (redirect url) m = (without_server (close (redirection url)) (bytes 0), m)
plan h client (http text) m = (without_server (close text) (bytes 0), m)
plan h client (icap response length) m = (without_server (stream response) length, m)
plan h client (local_file code reason) m =
    let (answer, n) = get_local_content h code reason m in (without_server answer (bytes 0), n)
plan h client (rewrite code reason fields) m =
    (without_server (close (read_local_content h code reason fields)) (bytes 0), m)
plan h client (monitor path) m =
    (without_server (close (h.http "200" (h.monitor_page path))) (bytes 0), m)
plan h client hang_up m = (without_server hangup (bytes 0), m)
plan h client malformed m = (without_server nothing (bytes 0), m)
plan h client unknown m = (without_server nothing (bytes 0), m)

-- a write on a downloader, with the totals and the object's buffer
abbrev sent_on : Content → Sent → Bytes → ContentManager → Option Bool × ContentManager
sent_on d answer extra m =
    let w = write_data d (buffer_of d.sock m) answer extra in
    (
      w.res,
      record m {
        total_sent4 = m.total_sent4 + w.sent4;
        total_sent6 = m.total_sent6 + w.sent6;
        w_buffers = insert d.sock w.w_buffer m.w_buffers;
      },
    )

abbrev is_true : Option Bool → Bool
is_true (some true) = true
is_true _ = false

-- `if buffered: … elif sock in self.buffered: … else: …`; the flag is what the source answers for
-- a socket that was buffered already
abbrev note_buffer : Bool → ℕ → Option Bool → ContentManager → Bool × ContentManager
note_buffer again sock res m =
    if is_true res
    then (if mem sock m.buffered then (again, m) else (
      true,
      record m {
        buffered = m.buffered ++ sock ∷ [];
        calls = add_write "write_download" sock ∷ m.calls;
      },
    ))
    else if mem sock m.buffered
    then (
      true,
      record m {
        buffered = remove_first sock m.buffered;
        calls = remove_write "write_download" sock ∷ m.calls;
      },
    )
    else (false, m)

-- `content, length, buffered, buffer_change`
abbrev ContentResult : Type 0
ContentResult = Answer × Remaining × Option Bool × Option Bool

-- the second half of `getContent`
abbrev carry_out : ℕ → Sent → Plan → ContentManager → ContentResult × ContentManager
carry_out client answer p m = elim p.download [
  | fresh d ↦ (
    (p.answer, p.length, none, none),
    record m {
      opening = insert d.sock d m.opening;
      byclient = insert d.client d m.byclient;
      w_buffers = insert d.sock p.request m.w_buffers;
      calls = add_write "opening_download" d.sock ∷ m.calls;
    },
  )
  | reused d ↦
      let (res, n) = sent_on d answer p.request m in
      let (change, after) = note_buffer false d.sock res n in
      ((p.answer, p.length, res, some change), after)
  | refused ↦ (
    (p.answer, p.length, none, none),
    if contains client m.byclient then (end_client_download client m).1 else m,
  )
]

unfoldable pub get_content :
    Host → ℕ → Command → Sent → ContentManager → ContentResult × ContentManager
unfolding remove_first
get_content h client command answer m =
    let (p, n) = plan h client command m in carry_out client answer p n

-- `client, response, buffer_change` of a connection that is there; the response is `None` where an
-- intercepted connection failed
unfoldable pub start_download :
    Host → ℕ → Sent → ContentManager → Option (ℕ × Option String × Bool) × ContentManager
start_download h sock answer m = elim (lookup sock m.opening) [
  | none ↦ (none, m)
  | some d ↦
      let (client, connected, response, left) = start_conversation d (buffer_of d.sock m) answer in
      (
        some (
          client,
          (if connected
              then some response
              else if d.method == "intercept"
              then none
              else some (read_local_content h "400" "noconnect.html" [])),
          mem d.sock m.buffered,
        ),
        record m {
          opening = remove sock m.opening;
          established = insert sock d m.established;
          w_buffers = insert d.sock left m.w_buffers;
          calls =
              (if mem d.sock m.buffered then add_write "write_download" d.sock ∷ [] else [])
              ++ add_read "read_download" d.sock
                ∷ remove_write "opening_download" d.sock
                ∷ remove_write "write_download" d.sock
                ∷ m.calls;
        },
      )
]

-- `client, data`
unfoldable pub read_socket :
    ℕ → Received → ContentManager → Option (ℕ × Option Bytes) × ContentManager
read_socket sock answer m = elim (lookup sock m.established) [
  | none ↦ (none, m)
  | some d ↦ (
    some (d.client, read_data answer),
    elim (read_data answer) [ none ↦ (terminate sock d.client m).1 | some b ↦ m ],
  )
]

-- `buffered, buffer_change, client`
unfoldable pub send_socket_data :
    ℕ → Sent → Bytes → ContentManager → Option (Option Bool × Bool × ℕ) × ContentManager
unfolding remove_first
send_socket_data sock answer extra m = elim (lookup sock m.established) [
  | none ↦ (none, m)
  | some d ↦
      let (res, n) = sent_on d answer extra m in
      let (change, after) = note_buffer false sock res n in (some (res, change, d.client), after)
]

-- `buffered, buffer_change`
unfoldable pub send_client_data :
    ℕ → Sent → Bytes → ContentManager → (Option Bool × Option Bool) × ContentManager
unfolding remove_first
send_client_data client answer extra m = elim (lookup client m.byclient) [
  | none ↦ ((none, none), m)
  | some d ↦
      if contains d.sock m.established
      then (let (res, n) = sent_on d answer extra m in
          let (change, after) = note_buffer true d.sock res n in ((res, some change), after))
      else if contains d.sock m.opening
      then (let (held, left) = buffer_data (buffer_of d.sock m) extra in
          let n : ContentManager = record m { w_buffers = insert d.sock left m.w_buffers } in
          if mem d.sock m.buffered
          then ((some held, some false), n)
          else ((some held, some true), record n { buffered = m.buffered ++ d.sock ∷ [] }))
      else ((none, none), (terminate d.sock client m).1)
]

unfoldable pub cork_client_download : ℕ → ContentManager → ContentManager
cork_client_download client m = elim (lookup client m.byclient) [
  | none ↦ m
  | some d ↦ record m { calls = cork_read "read_download" d.sock ∷ m.calls }
]

unfoldable pub uncork_client_download : ℕ → ContentManager → ContentManager
uncork_client_download client m = elim (lookup client m.byclient) [
  | none ↦ m
  | some d ↦
      if contains d.sock m.established
      then record m { calls = uncork_read "read_download" d.sock ∷ m.calls }
      else m
]

unfoldable pub stop : ContentManager → ContentManager
stop m = record m {
  established = [];
  opening = [];
  byclient = [];
  buffered = [];
  calls =
      clear_writes "opening_download"
      ∷ clear_writes "write_download"
      ∷ clear_reads "read_download"
      ∷ m.calls;
  closed = map (λ e. e.1.sock) m.established ++ (map (λ e. e.1.sock) m.opening ++ m.closed);
}

-- One call of the reactor, with what the socket answers.
pub data Event : Type 0 where
  gets : ℕ → Command → Sent → Event
  starts : ℕ → Sent → Event
  reads : ℕ → Received → Event
  sends_to_socket sends_for_client : ℕ → Sent → Bytes → Event
  ends corks uncorks : ℕ → Event
  stops : Event

unfoldable pub step : Host → Event → ContentManager → ContentManager
step h (gets client command answer) m = (get_content h client command answer m).1
step h (starts sock answer) m = (start_download h sock answer m).1
step h (reads sock answer) m = (read_socket sock answer m).1
step h (sends_to_socket sock answer extra) m = (send_socket_data sock answer extra m).1
step h (sends_for_client client answer extra) m = (send_client_data client answer extra m).1
step h (ends client) m = (end_client_download client m).1
step h (corks client) m = cork_client_download client m
step h (uncorks client) m = uncork_client_download client m
step h stops m = stop m
