-- ===== src/Client/Manager/Owned.antt =====
-- Every socket that the poller watches for the client manager belongs to a client that the manager
-- knows.
use Prim.Native.String.{String}
use exaproxy.Common.{
  ℕ, ◌≡◌, sym, subst, if◌then◌else◌, inl, inr, refl, true, false, some, arith, nat_beq, nat_beq_iff,
  number_key, text_key, Option-cases,
}
use exaproxy.Dict.{
  Dict, lookup, insert, remove, contains, contains-insert, contains-remove, lookup-insert,
  lookup-remove, contains-lookup,
}
use exaproxy.Util.TimeCache.{set_item}
use exaproxy.Poller.Asked.{asked}
use exaproxy.Client.Manager.{
  ClientManager, create, Entry, Kind, passthrough, owner, cleanup, opening, passthrough_connection,
  named,
}

abbrev pub HasSock : Dict ℕ Entry → Type 0
HasSock d = (s : ℕ) (e : Entry) → lookup s d ≡ some e → e.0.sock ≡ s

pub record IsOwned (m : ClientManager) : Type 0 where
  pub opening :
      (s : ℕ) → asked m.calls "opening_client" s ≡ true → contains s m.norequest.entries ≡ true
  pub reading : (s : ℕ) → asked m.calls "read_client" s ≡ true → contains s m.bysock ≡ true
  pub writing : (s : ℕ) → asked m.calls "write_client" s ≡ true → contains s m.bysock ≡ true
  pub waiting_sock : HasSock m.norequest.entries
  pub served_sock : HasSock m.bysock

pub create-IsOwned : (idle : ℕ) → IsOwned (create idle)
unfolding create lookup
create-IsOwned idle = record {
  opening = λ s h. cc;
  reading = λ s h. cc;
  writing = λ s h. cc;
  waiting_sock = λ s e h. cc;
  served_sock = λ s e h. cc;
}

pub remove-HasSock : (k : ℕ) (d : Dict ℕ Entry) → HasSock d → HasSock (remove k d)
remove-HasSock k d h s e p = h s e (ground (arith, lookup-remove k s d))

pub insert-HasSock :
    (k : ℕ) (e : Entry) (d : Dict ℕ Entry) → e.0.sock ≡ k → HasSock d → HasSock (insert k e d)
insert-HasSock k e d own h s f p = ground (arith, lookup-insert k s e d, h s f, nat_beq_iff k s)

owner-sock :
    (sock : ℕ) (m : ClientManager)
    → IsOwned m
    → (e : Entry) → owner sock m ≡ some e
    → e.0.sock ≡ sock
unfolding owner
owner-sock sock m v e h = ground (arith, v.waiting_sock sock e, v.served_sock sock e)

module _ (sock name : ℕ) (m : ClientManager) (v : IsOwned m) where
  cleanup-entries :
      ((cleanup sock name m).bysock ≡ remove sock m.bysock)
      × ((cleanup sock name m).norequest.entries ≡ remove sock m.norequest.entries)
  unfolding cleanup
  cleanup-entries = (ground arith, ground arith)

  -- Afterwards nothing watches the socket, and every other one is watched as before.
  pub asked-cleanup :
      (s : ℕ)
      → (asked (cleanup sock name m).calls "opening_client" s
          ≡ (if nat_beq sock s then false else asked m.calls "opening_client" s))
        × (asked (cleanup sock name m).calls "read_client" s
            ≡ (if nat_beq sock s then false else asked m.calls "read_client" s))
        × (asked (cleanup sock name m).calls "write_client" s
            ≡ (if nat_beq sock s then false else asked m.calls "write_client" s))
  unfolding cleanup
  asked-cleanup s = elim (Option-cases (owner sock m)) [
    | inl nobody ↦ ground (
      arith,
      contains-lookup sock m.bysock,
      contains-lookup sock m.norequest.entries,
      v.opening s,
      v.reading s,
      v.writing s,
      nat_beq_iff sock s,
    )
    | inr (e, found) ↦
        ground (arith, v.served_sock sock e, v.waiting_sock sock e, nat_beq_iff sock s)
  ]

  pub cleanup-IsOwned : IsOwned (cleanup sock name m)
  cleanup-IsOwned = record {
    opening = λ s h. ground (
      arith,
      cleanup-entries,
      asked-cleanup s,
      v.opening s,
      contains-remove sock s m.norequest.entries,
    );
    reading = λ s h.
        ground
          (arith, cleanup-entries, asked-cleanup s, v.reading s, contains-remove sock s m.bysock);
    writing = λ s h.
        ground
          (arith, cleanup-entries, asked-cleanup s, v.writing s, contains-remove sock s m.bysock);
    waiting_sock =
        subst HasSock (sym cleanup-entries.1)
          (remove-HasSock sock m.norequest.entries v.waiting_sock);
    served_sock =
        subst HasSock (sym cleanup-entries.0) (remove-HasSock sock m.bysock v.served_sock);
  }

pub opening-IsOwned :
    (kind : Kind) (now sock : ℕ) (source : String) (m : ClientManager)
    → IsOwned m
    → IsOwned (opening kind now sock source m)
unfolding set_item
opening-IsOwned kind now sock source m v = record {
  opening = λ s h. ground (
    arith,
    v.opening s,
    nat_beq_iff sock s,
    contains-insert sock s (named kind sock m, source) m.norequest.entries,
  );
  reading = λ s h. ground (arith, v.reading s);
  writing = λ s h. ground (arith, v.writing s);
  waiting_sock =
      insert-HasSock sock (named kind sock m, source) m.norequest.entries refl v.waiting_sock;
  served_sock = v.served_sock;
}

pub passthrough-IsOwned :
    (sock : ℕ) (source : String) (m : ClientManager)
    → IsOwned m
    → IsOwned (passthrough_connection sock source m)
unfolding passthrough_connection
passthrough-IsOwned sock source m v = record {
  opening = v.opening;
  reading = λ s h. ground (
    arith,
    v.reading s,
    nat_beq_iff sock s,
    contains-insert sock s (named passthrough sock m, source) m.bysock,
  );
  writing = λ s h.
      ground
        (arith, v.writing s, contains-insert sock s (named passthrough sock m, source) m.bysock);
  waiting_sock = v.waiting_sock;
  served_sock = insert-HasSock sock (named passthrough sock m, source) m.bysock refl v.served_sock;
}

-- A method that leaves both tables alone and asks only for what they hold.
module _ (m n : ClientManager) (v : IsOwned m)
    (same_wait : n.norequest.entries ≡ m.norequest.entries)
    (same_served : n.bysock ≡ m.bysock) where
  pub same_tables :
      ((s : ℕ) → asked n.calls "opening_client" s ≡ true → contains s m.norequest.entries ≡ true)
      → ((s : ℕ) → asked n.calls "read_client" s ≡ true → contains s m.bysock ≡ true)
      → ((s : ℕ) → asked n.calls "write_client" s ≡ true → contains s m.bysock ≡ true)
      → IsOwned n
  same_tables a b c = record {
    opening = λ s h. rw same_wait (a s h);
    reading = λ s h. rw same_served (b s h);
    writing = λ s h. rw same_served (c s h);
    waiting_sock = subst HasSock (sym same_wait) v.waiting_sock;
    served_sock = subst HasSock (sym same_served) v.served_sock;
  }
