-- ===== src/Content/Manager/Steps.antt =====
-- Every call of the reactor keeps the tables of downloaders linked.
use Prim.Native.String.{String}
use exaproxy.Common.{
  ℕ, ◌≡◌, inl, inr, refl, Bool, true, false, Option, some, [], arith, number_key, text_key,
  Bool-cases, Option-cases, subst, sym, mem,
}
use exaproxy.Dict.{lookup, insert, remove, contains}
use exaproxy.Client.Manager.{Remaining}
use exaproxy.Content.Worker.{Bytes, Sent, Received, read_data}
use exaproxy.Content.Manager.{
  ContentManager, Host, Command, Download, refused, reused, fresh, Plan, plan, plan_or_page,
  plan_or_close, get_local_content, carry_out, get_content, start_download, read_socket,
  send_socket_data, send_client_data, note_buffer, sent_on, cork_client_download,
  uncork_client_download, stop, Event, gets, starts, reads, sends_to_socket, sends_for_client, ends,
  corks, uncorks, stops, step, download, connect, intercept, local_file,
}
use exaproxy.Content.Manager.Owned.{
  tables, IsLinked, terminate-IsLinked, end-IsLinked, insert-IsLinked, move-IsLinked,
}
use exaproxy.Content.Manager.Fetch.{OpensNew, IsFetched, get_downloader-IsFetched}

-- `carry_out` sees the same tables, whatever `plan` did to the headers.
abbrev IsPlanned : ℕ → Plan × ContentManager → Type 0
IsPlanned client r = IsFetched client r.0.download r.1

refused-IsFetched :
    (client : ℕ) (n : ContentManager) → IsLinked (tables n) → IsFetched client refused n
refused-IsFetched client n v = record {
  linked = v;
  client_new = λ d e. cc;
  opening_new = λ d e. cc;
  established_new = λ d e. cc;
}

tables-get_local_content :
    (h : Host) (code name : String) (m : ContentManager)
    → tables (get_local_content h code name m).1 ≡ tables m
unfolding get_local_content
tables-get_local_content h code name m = ground arith

-- A write and its note of the buffer leave the tables alone.
tables-note_buffer :
    (again : Bool) (sock : ℕ) (res : Option Bool) (m : ContentManager)
    → tables (note_buffer again sock res m).1 ≡ tables m
tables-note_buffer again sock res m = ground arith

page-IsPlanned :
    (h : Host) (client : ℕ) (d : Download) (request : Bytes) (length : Remaining)
    (n : ContentManager)
    → IsFetched client d n
    → IsPlanned client (plan_or_page h d request length n)
page-IsPlanned h client refused request length n f =
    refused-IsFetched client _
      (subst IsLinked (sym (tables-get_local_content h "400" "noconnect.html" n)) f.linked)
page-IsPlanned h client (reused d) request length n f = f
page-IsPlanned h client (fresh d) request length n f = f

close-IsPlanned :
    (client : ℕ) (d : Download) (request : Bytes) (n : ContentManager)
    → IsFetched client d n
    → IsPlanned client (plan_or_close d request, n)
close-IsPlanned client refused request n f = f
close-IsPlanned client (reused d) request n f = f
close-IsPlanned client (fresh d) request n f = f

module _ (h : Host) (client : ℕ) (m : ContentManager) (v : IsLinked (tables m))
    (new : OpensNew h m) where
  plan-IsPlanned : (command : Command) → IsPlanned client (plan h client command m)
  unfolding plan
  plan-IsPlanned (download host port upgrade length request) =
      page-IsPlanned h client _ request _ _
        (get_downloader-IsFetched h client host port "download" m v new)
  plan-IsPlanned (connect host port extra) =
      page-IsPlanned h client _ extra _ _
        (get_downloader-IsFetched h client host port "connect" m v new)
  plan-IsPlanned (intercept host port extra) =
      close-IsPlanned client _ extra _
        (get_downloader-IsFetched h client host port "intercept" m v new)
  plan-IsPlanned (local_file code reason) =
      refused-IsFetched client _ (subst IsLinked (sym (tables-get_local_content h code reason m)) v)
  plan-IsPlanned _ = refused-IsFetched client m v

carry_out-IsLinked :
    (client : ℕ) (answer : Sent) (p : Plan) (n : ContentManager)
    → IsFetched client p.download n
    → IsLinked (tables (carry_out client answer p n).1)
carry_out-IsLinked client answer p n f = go p.download f
  where
    go :
        (d : Download)
        → IsFetched client d n
        → IsLinked (tables (carry_out client answer (record p { download = d }) n).1)
    go (fresh d) f =
        insert-IsLinked d (tables n) f.linked (f.client_new d refl) (f.opening_new d refl)
          (f.established_new d refl)
    go (reused d) f =
        subst IsLinked
          (sym (
            tables-note_buffer false d.sock (sent_on d answer p.request n).0
              (sent_on d answer p.request n).1))
          f.linked
    go refused f = elim (Bool-cases (contains client n.byclient)) [
      | inl has ↦ rw (has, carry_out) (end-IsLinked client n f.linked)
      | inr has_none ↦ rw (has_none, carry_out) f.linked
    ]

get_content-IsLinked :
    (h : Host) (client : ℕ) (command : Command) (answer : Sent) (m : ContentManager)
    → IsLinked (tables m)
    → OpensNew h m
    → IsLinked (tables (get_content h client command answer m).1)
unfolding get_content
get_content-IsLinked h client command answer m v new =
    carry_out-IsLinked client answer (plan h client command m).0 (plan h client command m).1
      (plan-IsPlanned h client m v new command)

start_download-IsLinked :
    (h : Host) (sock : ℕ) (answer : Sent) (m : ContentManager)
    → IsLinked (tables m)
    → IsLinked (tables (start_download h sock answer m).1)
unfolding start_download
start_download-IsLinked h sock answer m v = elim (Option-cases (lookup sock m.opening)) [
  | inl absent ↦ rw (absent, start_download) v
  | inr (d, found) ↦
      let e : d.sock ≡ sock = (v.owned sock d (inl found)).0 in
      rw (found, start_download)
        (subst (λ s. IsLinked (remove s m.opening, insert s d m.established, m.byclient)) e
          (move-IsLinked d (tables m) v (subst (λ s. lookup s m.opening ≡ some d) (sym e) found)))
]

read_socket-IsLinked :
    (sock : ℕ) (answer : Received) (m : ContentManager)
    → IsLinked (tables m)
    → IsLinked (tables (read_socket sock answer m).1)
unfolding read_socket
read_socket-IsLinked sock answer m v = elim (Option-cases (lookup sock m.established)) [
  | inl absent ↦ rw (absent, read_socket) v
  | inr (d, found) ↦ elim (Option-cases (read_data answer)) [
    | inl gone ↦
        rw (found, gone, read_socket)
          (terminate-IsLinked sock d.client m d (v.owned sock d (inr found)).0 refl v (inr found))
    | inr (b, got) ↦ rw (found, got, read_socket) v
  ]
]

send_socket_data-IsLinked :
    (sock : ℕ) (answer : Sent) (extra : Bytes) (m : ContentManager)
    → IsLinked (tables m)
    → IsLinked (tables (send_socket_data sock answer extra m).1)
unfolding send_socket_data
send_socket_data-IsLinked sock answer extra m v = elim (Option-cases (lookup sock m.established)) [
  | inl absent ↦ rw (absent, send_socket_data) v
  | inr (d, found) ↦
      rw (found, send_socket_data)
        (subst IsLinked
          (sym (
            tables-note_buffer false sock (sent_on d answer extra m).0
              (sent_on d answer extra m).1))
          v)
]

send_client_data-IsLinked :
    (client : ℕ) (answer : Sent) (extra : Bytes) (m : ContentManager)
    → IsLinked (tables m)
    → IsLinked (tables (send_client_data client answer extra m).1)
unfolding send_client_data
send_client_data-IsLinked client answer extra m v = elim (Option-cases (lookup client m.byclient)) [
  | inl nobody ↦ rw (nobody, send_client_data) v
  | inr (d, found) ↦
      let (same_client, held) = v.served client d found in
      elim (Bool-cases (contains d.sock m.established)) [
        | inl connected ↦
            rw (found, connected, send_client_data)
              (subst IsLinked
                (sym (
                  tables-note_buffer true d.sock (sent_on d answer extra m).0
                    (sent_on d answer extra m).1))
                v)
        | inr waiting ↦ elim (Bool-cases (contains d.sock m.opening)) [
          | inl connecting ↦ elim (Bool-cases (mem d.sock m.buffered)) [
            | inl full ↦ rw (found, waiting, connecting, full, send_client_data) v
            | inr room ↦ rw (found, waiting, connecting, room, send_client_data) v
          ]
          | inr lost ↦
              rw (found, waiting, lost, send_client_data)
                (terminate-IsLinked d.sock client m d refl same_client v held)
        ]
      ]
]

tables-cork :
    (client : ℕ) (m : ContentManager)
    → (tables (cork_client_download client m) ≡ tables m)
      × (tables (uncork_client_download client m) ≡ tables m)
unfolding cork_client_download uncork_client_download
tables-cork client m = (ground arith, ground arith)

pub nothing-IsLinked : IsLinked ([], [], [])
unfolding lookup contains
nothing-IsLinked = record { served = λ c d h. cc; owned = λ s d h. ground arith; apart = λ s h. cc }

-- No call of the reactor, whatever the sockets answer, breaks the tables of downloaders: the
-- downloader filed for a client is that client's and is connecting or connected under its own
-- socket; each downloader under a socket is filed for its client; and none is both connecting and
-- connected. It is assumed that `connect` opens sockets that no downloader has.
pub step-IsLinked :
    (h : Host) (event : Event) (m : ContentManager)
    → IsLinked (tables m)
    → OpensNew h m
    → IsLinked (tables (step h event m))
unfolding step
step-IsLinked h (gets client command answer) m v new =
    get_content-IsLinked h client command answer m v new
step-IsLinked h (starts sock answer) m v new = start_download-IsLinked h sock answer m v
step-IsLinked h (reads sock answer) m v new = read_socket-IsLinked sock answer m v
step-IsLinked h (sends_to_socket sock answer extra) m v new =
    send_socket_data-IsLinked sock answer extra m v
step-IsLinked h (sends_for_client client answer extra) m v new =
    send_client_data-IsLinked client answer extra m v
step-IsLinked h (ends client) m v new = end-IsLinked client m v
step-IsLinked h (corks client) m v new = subst IsLinked (sym (tables-cork client m).0) v
step-IsLinked h (uncorks client) m v new = subst IsLinked (sym (tables-cork client m).1) v
step-IsLinked h stops m v new = unfold stop in nothing-IsLinked
