-- ===== src/Client/Manager/Steps.antt =====
-- Every call of the reactor keeps to the rule of `IsOwned`.
use Prim.Native.String.{String}
use exaproxy.Common.{
  ℕ, ◌+◌, ◌≡◌, subst, inl, inr, refl, Bool, true, false, Option, none, some, [], ◌∷◌, arith,
  nat_beq_iff, number_key, text_key, Option-cases, remove_first,
}
use exaproxy.Dict.{Dict, lookup, contains-insert, contains-remove, contains-lookup}
use exaproxy.Util.TimeCache.{
  TimeCache, Phase, Budget, start, behind_last, looping, finished, drain, next,
}
use exaproxy.Poller.Epoll.{cork_read}
use exaproxy.Client.Manager.{
  ClientManager, Client, Entry, Request, incomplete, hangup, complete, Written, cleanup,
  http_connection, icap_connection, tls_connection, passthrough_connection, read_request, read_data,
  send_data, start_data, cork_upload, uncork_upload, stop, promoted, note_buffer, counted,
  start_buffer, start_served, begin, after_start, step, returned, expire_step, expire_timed,
  expired_key, Event, http, icap, tls, connects_http, connects_icap, connects_tls,
  connects_passthrough, reads_request, reads_data, sends_data, starts_data, corks, uncorks,
  cleans_up, expires, stops,
}
use exaproxy.Client.Manager.Owned.{
  IsOwned, cleanup-IsOwned, remove-HasSock, insert-HasSock, opening-IsOwned, passthrough-IsOwned,
  same_tables,
}

promoted-IsOwned :
    (sock : ℕ) (client : Client) (source : String) (m : ClientManager)
    → IsOwned m
    → client.sock ≡ sock
    → IsOwned (promoted sock client source m)
unfolding promoted
promoted-IsOwned sock client source m v own = record {
  opening = λ s h.
      ground (arith, v.opening s, nat_beq_iff sock s, contains-remove sock s m.norequest.entries);
  reading = λ s h.
      ground
        (arith, v.reading s, nat_beq_iff sock s, contains-insert sock s (client, source) m.bysock);
  writing = λ s h.
      ground
        (arith, v.writing s, nat_beq_iff sock s, contains-insert sock s (client, source) m.bysock);
  waiting_sock = remove-HasSock sock m.norequest.entries v.waiting_sock;
  served_sock = insert-HasSock sock (client, source) m.bysock own v.served_sock;
}

read_request-IsOwned :
    (sock : ℕ) (r : Request) (m : ClientManager) → IsOwned m → IsOwned (read_request sock r m).1
unfolding read_request
read_request-IsOwned sock r m v = elim (Option-cases (lookup sock m.norequest.entries)) [
  | inl unknown ↦ rw (unknown, read_request) v
  | inr (e, found) ↦
      rw (found, read_request)
        ((elim r
          as (λ r. IsOwned (elim r as (λ _. ClientManager) [
            | incomplete ↦ m
            | hangup ↦ cleanup sock e.0.name m
            | complete text ↦ promoted sock e.0 e.1 m
          ])) [
            | incomplete ↦ v
            | hangup ↦ cleanup-IsOwned sock e.0.name m v
            | complete text ↦ promoted-IsOwned sock e.0 e.1 m v (v.waiting_sock sock e found)
          ]))
]

read_data-IsOwned :
    (sock : ℕ) (r : Request) (m : ClientManager) → IsOwned m → IsOwned (read_data sock r m).1
unfolding read_data
read_data-IsOwned sock r m v = elim (Option-cases (lookup sock m.bysock)) [
  | inl unknown ↦ rw (unknown, read_data) v
  | inr (e, found) ↦
      rw (found, read_data)
        ((elim r
          as (λ r. IsOwned (elim r as (λ _. ClientManager) [
            | incomplete ↦ m
            | hangup ↦ cleanup sock e.0.name m
            | complete text ↦ record m {
              total_requested = m.total_requested + 1;
              calls = cork_read "read_client" sock ∷ m.calls;
            }
          ])) [
            | incomplete ↦ v
            | hangup ↦ cleanup-IsOwned sock e.0.name m v
            | complete text ↦ same_tables m _ v refl refl v.opening v.reading v.writing
          ]))
]

-- The client of a socket that is being served has that socket.
module _ (sock : ℕ) (m : ClientManager) (v : IsOwned m) (e : Entry)
    (found : lookup sock m.bysock ≡ some e) where
  note_buffer-IsOwned : (w : Written) → IsOwned (note_buffer sock e.0 w (counted w m)).1
  unfolding remove_first
  note_buffer-IsOwned w =
      same_tables m _ v (ground arith) (ground arith) (λ s h. ground (arith, v.opening s))
        (λ s h. ground (arith, v.reading s))
        (λ s h. ground (
          arith,
          v.writing s,
          v.served_sock sock e,
          contains-lookup sock m.bysock,
          nat_beq_iff sock s,
        ))

  start_buffer-IsOwned :
      (w : Written) (n : ClientManager) → start_buffer e.0 w m ≡ some n → IsOwned n
  unfolding remove_first
  start_buffer-IsOwned w n started =
      same_tables m n v (ground arith) (ground arith) (λ s asks. ground (arith, v.opening s))
        (λ s asks. ground (arith, v.reading s))
        (λ s asks. ground (
          arith,
          v.writing s,
          v.served_sock sock e,
          contains-lookup sock m.bysock,
          nat_beq_iff sock s,
        ))

send_data-IsOwned :
    (sock : ℕ) (answer : Option Written) (m : ClientManager)
    → IsOwned m
    → IsOwned (send_data sock answer m).2
unfolding send_data
send_data-IsOwned sock none m v = elim (Option-cases (lookup sock m.bysock)) [
  | inl unknown ↦ rw (unknown, send_data) v
  | inr (e, found) ↦ rw (found, send_data) (cleanup-IsOwned sock e.0.name m v)
]
send_data-IsOwned sock (some w) m v = elim (Option-cases (lookup sock m.bysock)) [
  | inl unknown ↦ rw (unknown, send_data) v
  | inr (e, found) ↦ rw (found, send_data) (note_buffer-IsOwned sock m v e found w)
]

-- A write that `start_data` begins, before what was read with it is looked at.
begun : (client : Client) (w : Written) (m : ClientManager) → IsOwned m → IsOwned (begin client w m)
begun client w m v = same_tables m _ v refl refl v.opening v.reading v.writing

returned-some :
    (o : Option ClientManager) {n : ClientManager} → after_start (returned o) ≡ some n → o ≡ some n
returned-some none h = cc
returned-some (some m) h = ground arith

start_data-IsOwned :
    (sock : ℕ) (valid : Bool) (answer : Option Written) (related : Request) (m n : ClientManager)
    → IsOwned m
    → after_start (start_data sock valid answer related m) ≡ some n
    → IsOwned n
unfolding start_data
start_data-IsOwned sock valid answer related m n v h = elim (Option-cases (lookup sock m.bysock)) [
  | inl unknown ↦ let e : m ≡ n = ground arith in subst IsOwned e v
  | inr (e, found) ↦ served e found valid answer related (rw (found, start_data) at h)
]
  where
    served :
        (e : Entry)
        → lookup sock m.bysock ≡ some e
        → (valid : Bool) (answer : Option Written) (related : Request)
        → after_start (start_served e.0 valid answer related m) ≡ some n
        → IsOwned n
    served e found false answer related h = let q : m ≡ n = ground arith in subst IsOwned q v
    served e found true none related h =
        let q : cleanup e.0.sock e.0.name m ≡ n = ground arith in
        subst IsOwned q (cleanup-IsOwned e.0.sock e.0.name m v)
    served e found true (some w) (complete text) h =
        let b = begin e.0 w m in
        let c : ClientManager = record b { total_requested = b.total_requested + 1 } in
        let q : cleanup e.0.sock e.0.name c ≡ n = ground arith in
        subst IsOwned q (
          cleanup-IsOwned e.0.sock e.0.name c
            (same_tables m c v refl refl v.opening v.reading v.writing))
    served e found true (some w) hangup h =
        let q : cleanup e.0.sock e.0.name (begin e.0 w m) ≡ n = ground arith in
        subst IsOwned q (cleanup-IsOwned e.0.sock e.0.name (begin e.0 w m) (begun e.0 w m v))
    served e found true (some w) incomplete h =
        start_buffer-IsOwned sock (begin e.0 w m) (begun e.0 w m v) e found w n
          (returned-some (start_buffer e.0 w (begin e.0 w m)) h)

cork-IsOwned : (sock : ℕ) (m : ClientManager) → IsOwned m → IsOwned (cork_upload sock m)
unfolding cork_upload
cork-IsOwned sock m v =
    same_tables m _ v (ground arith) (ground arith) (λ s h. ground (arith, v.opening s))
      (λ s h. ground (arith, v.reading s)) (λ s h. ground (arith, v.writing s))

uncork-IsOwned : (sock : ℕ) (m : ClientManager) → IsOwned m → IsOwned (uncork_upload sock m)
unfolding uncork_upload
uncork-IsOwned sock m v =
    same_tables m _ v (ground arith) (ground arith) (λ s h. ground (arith, v.opening s))
      (λ s h. ground (arith, v.reading s)) (λ s h. ground (arith, v.writing s))

stop-IsOwned : (m : ClientManager) → IsOwned (stop m)
unfolding stop lookup
stop-IsOwned m = record {
  opening = λ s h. ground arith;
  reading = λ s h. ground arith;
  writing = λ s h. ground arith;
  waiting_sock = λ s e h. cc;
  served_sock = λ s e h. cc;
}

drained-entries :
    (now : ℕ) (b : Budget) (c : TimeCache ℕ Entry) (l : Dict ℕ ℕ)
    → (drain now b c l).3.entries ≡ c.entries
unfolding drain
drained-entries now b c [] = refl
drained-entries now b c ((k, t) ∷ rest) = ground (arith, drained-entries now b c rest)

next-entries :
    (now : ℕ) (ph : Phase) (b : Budget) (c : TimeCache ℕ Entry)
    → (next now ph b c).3.entries ≡ c.entries
unfolding next
next-entries now start b c =
    ground (
      arith,
      drained-entries now b c c.time,
      drained-entries now b (record c { last = none }) c.time,
    )
next-entries now behind_last b c = drained-entries now b (record c { last = none }) c.time
next-entries now looping b c = drained-entries now b c c.time
next-entries now finished b c = refl

expire-IsOwned :
    (now : ℕ) (ph : Phase) (b : Budget) (m : ClientManager)
    → IsOwned m
    → IsOwned (expire_timed now ph b m).1
unfolding expire_timed
expire-IsOwned now ph b m v = picked (next now ph b m.norequest).0
  where
    n : ClientManager
    n = record m { norequest = (next now ph b m.norequest).3 }

    kept : IsOwned n
    kept = same_tables m n v (next-entries now ph b m.norequest) refl v.opening v.reading v.writing

    picked :
        (key : Option ℕ)
        → IsOwned (expired_key key (next now ph b m.norequest).1 (next now ph b m.norequest).2 n).1
    picked none = kept
    picked (some sock) = elim (Option-cases (lookup sock n.norequest.entries)) [
      | inl gone ↦ rw (gone, expired_key) kept
      | inr (e, found) ↦ rw (found, expired_key) (cleanup-IsOwned sock e.0.name n kept)
    ]

-- No call of the reactor, whatever the clients answer and whenever they time out, makes the poller
-- watch a socket that the manager has no client for: a socket watched for its opening request has a
-- waiting client, one watched for reading or writing a client that is served, and every client is
-- filed under its own socket.
pub step-IsOwned :
    (event : Event) (m n : ClientManager) → IsOwned m → step event m ≡ some n → IsOwned n
unfolding step
step-IsOwned (connects_http now sock source) m n v h =
    let e : http_connection now sock source m ≡ n = ground arith in
    subst IsOwned e (unfold http_connection in opening-IsOwned http now sock source m v)
step-IsOwned (connects_icap now sock source) m n v h =
    let e : icap_connection now sock source m ≡ n = ground arith in
    subst IsOwned e (unfold icap_connection in opening-IsOwned icap now sock source m v)
step-IsOwned (connects_tls now sock source) m n v h =
    let e : tls_connection now sock source m ≡ n = ground arith in
    subst IsOwned e (unfold tls_connection in opening-IsOwned tls now sock source m v)
step-IsOwned (connects_passthrough sock source) m n v h =
    let e : passthrough_connection sock source m ≡ n = ground arith in
    subst IsOwned e (passthrough-IsOwned sock source m v)
step-IsOwned (reads_request sock r) m n v h =
    let e : (read_request sock r m).1 ≡ n = ground arith in
    subst IsOwned e (read_request-IsOwned sock r m v)
step-IsOwned (reads_data sock r) m n v h =
    let e : (read_data sock r m).1 ≡ n = ground arith in
    subst IsOwned e (read_data-IsOwned sock r m v)
step-IsOwned (sends_data sock answer) m n v h =
    let e : (send_data sock answer m).2 ≡ n = ground arith in
    subst IsOwned e (send_data-IsOwned sock answer m v)
step-IsOwned (starts_data sock valid answer related) m n v h =
    start_data-IsOwned sock valid answer related m n v h
step-IsOwned (corks sock) m n v h =
    let e : cork_upload sock m ≡ n = ground arith in subst IsOwned e (cork-IsOwned sock m v)
step-IsOwned (uncorks sock) m n v h =
    let e : uncork_upload sock m ≡ n = ground arith in subst IsOwned e (uncork-IsOwned sock m v)
step-IsOwned (cleans_up sock name) m n v h =
    let e : cleanup sock name m ≡ n = ground arith in
    subst IsOwned e (cleanup-IsOwned sock name m v)
step-IsOwned (expires now ph b) m n v h =
    let e : (expire_timed now ph b m).1 ≡ n = unfold expire_step in ground arith in
    subst IsOwned e (expire-IsOwned now ph b m v)
step-IsOwned stops m n v h = let e : stop m ≡ n = ground arith in subst IsOwned e (stop-IsOwned m)
