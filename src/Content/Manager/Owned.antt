-- ===== src/Content/Manager/Owned.antt =====
-- The tables of downloaders agree with one another: each client's downloader is connecting or
-- connected, under its own socket, and each of those is its client's.
use exaproxy.Common.{
  ℕ, ◌≡◌, ◌⊎◌, inl, inr, refl, true, false, none, some, arith, nat_beq_iff, number_key, text_key,
  Option-cases, subst, sym,
}
use exaproxy.Dict.{
  Dict, lookup, insert, remove, contains, contains-insert, contains-remove, lookup-insert,
  lookup-remove, contains-lookup,
}
use exaproxy.Content.Worker.{Content}
use exaproxy.Content.Manager.{ContentManager, terminate, end_client_download}

abbrev pub Tables : Type 0
Tables = Dict ℕ Content × Dict ℕ Content × Dict ℕ Content

-- `opening`, `established`, `byclient`
abbrev pub tables : ContentManager → Tables
tables m = (m.opening, m.established, m.byclient)

-- a downloader is held under a socket
abbrev pub Holds : Tables → ℕ → Content → Type 0
Holds t s d = (lookup s t.0 ≡ some d) ⊎ (lookup s t.1 ≡ some d)

pub record IsLinked (t : Tables) : Type 0 where
  pub served : (c : ℕ) (d : Content) → lookup c t.2 ≡ some d → (d.client ≡ c) × Holds t d.sock d
  pub owned : (s : ℕ) (d : Content) → Holds t s d → (d.sock ≡ s) × (lookup d.client t.2 ≡ some d)
  pub apart : (s : ℕ) → contains s t.0 ≡ true → contains s t.1 ≡ false

-- taking out a downloader, as `_terminate` does
abbrev pub dropped : Content → Tables → Tables
dropped d t = (remove d.sock t.0, remove d.sock t.1, remove d.client t.2)

module _ (d : Content) (t : Tables) (v : IsLinked t) (held : Holds t d.sock d) where
  dropped-IsLinked : IsLinked (dropped d t)
  dropped-IsLinked = record {
    served = λ c e h. ground (
      arith,
      v.served c e,
      lookup-remove d.client c t.2,
      lookup-remove d.sock e.sock t.0,
      lookup-remove d.sock e.sock t.1,
      nat_beq_iff d.client c,
      nat_beq_iff d.sock e.sock,
      v.apart d.sock,
      contains-lookup d.sock t.0,
      contains-lookup d.sock t.1,
    );
    owned = λ s e h. ground (
      arith,
      v.owned s e,
      v.owned d.sock d,
      lookup-remove d.client e.client t.2,
      lookup-remove d.sock s t.0,
      lookup-remove d.sock s t.1,
      nat_beq_iff d.client e.client,
      nat_beq_iff d.sock s,
    );
    apart = λ s h.
        ground (arith, v.apart s, contains-remove d.sock s t.0, contains-remove d.sock s t.1);
  }

-- `_terminate` of a downloader that is held drops it; where none is held, nothing changes.
tables-terminate :
    (sock client : ℕ) (m : ContentManager) (d : Content)
    → d.sock ≡ sock
    → d.client ≡ client
    → IsLinked (tables m)
    → Holds (tables m) sock d
    → tables (terminate sock client m).1 ≡ dropped d (tables m)
unfolding terminate
tables-terminate sock client m d es ec v held =
    ground (arith, v.apart sock, contains-lookup sock m.opening, contains-lookup sock m.established)

pub terminate-IsLinked :
    (sock client : ℕ) (m : ContentManager) (d : Content)
    → d.sock ≡ sock
    → d.client ≡ client
    → IsLinked (tables m)
    → Holds (tables m) sock d
    → IsLinked (tables (terminate sock client m).1)
terminate-IsLinked sock client m d es ec v held =
    rw (tables-terminate sock client m d es ec v held)
      (dropped-IsLinked d (tables m) v (subst (λ s. Holds (tables m) s d) (sym es) held))

pub end-IsLinked :
    (client : ℕ) (m : ContentManager)
    → IsLinked (tables m)
    → IsLinked (tables (end_client_download client m).1)
unfolding end_client_download
end-IsLinked client m v = elim (Option-cases (lookup client m.byclient)) [
  | inl nobody ↦ rw (nobody, end_client_download) v
  | inr (d, found) ↦
      let (same_client, held) = v.served client d found in
      rw (found, end_client_download) (terminate-IsLinked d.sock client m d refl same_client v held)
]

-- After it, the client has no downloader.
pub end-lookup :
    (client : ℕ) (m : ContentManager)
    → IsLinked (tables m)
    → lookup client (end_client_download client m).1.byclient ≡ none
unfolding end_client_download
end-lookup client m v = elim (Option-cases (lookup client m.byclient)) [
  | inl nobody ↦ rw (nobody, end_client_download) nobody
  | inr (d, found) ↦
      let (same_client, held) = v.served client d found in
      rw (found, end_client_download)
        (subst (λ (t : Tables). lookup client t.2 ≡ none)
          (sym (tables-terminate d.sock client m d refl same_client v held))
          (ground (arith, lookup-remove d.client client m.byclient, nat_beq_iff d.client client)))
]

-- It takes sockets out, and puts none in.
pub end-contains :
    (client s : ℕ) (m : ContentManager)
    → (contains s m.opening ≡ false → contains s (end_client_download client m).1.opening ≡ false)
      × (contains s m.established ≡ false
          → contains s (end_client_download client m).1.established ≡ false)
unfolding end_client_download terminate
end-contains client s m = elim (Option-cases (lookup client m.byclient)) [
  | inl nobody ↦ rw (nobody, end_client_download) ((λ h. h), (λ h. h))
  | inr (d, found) ↦
      rw (found, end_client_download)
        (
          (λ h. ground (arith, contains-remove d.sock s m.opening)),
          (λ h. ground (arith, contains-remove d.sock s m.established)),
        )
]

-- A new downloader of a client that has none, under a socket that no downloader has.
pub insert-IsLinked :
    (d : Content) (t : Tables)
    → IsLinked t
    → lookup d.client t.2 ≡ none
    → contains d.sock t.0 ≡ false
    → contains d.sock t.1 ≡ false
    → IsLinked (insert d.sock d t.0, t.1, insert d.client d t.2)
insert-IsLinked d t v no_client no_opening no_established = record {
  served = λ c e h. ground (
    arith,
    v.served c e,
    lookup-insert d.client c d t.2,
    lookup-insert d.sock e.sock d t.0,
    nat_beq_iff d.client c,
    nat_beq_iff d.sock e.sock,
    contains-lookup d.sock t.0,
    contains-lookup d.sock t.1,
  );
  owned = λ s e h. ground (
    arith,
    v.owned s e,
    lookup-insert d.client e.client d t.2,
    lookup-insert d.sock s d t.0,
    nat_beq_iff d.client e.client,
    nat_beq_iff d.sock s,
    contains-lookup s t.1,
  );
  apart = λ s h. ground (arith, v.apart s, contains-insert d.sock s d t.0, nat_beq_iff d.sock s);
}

-- A downloader that moves from the connecting to the connected.
pub move-IsLinked :
    (d : Content) (t : Tables)
    → IsLinked t
    → lookup d.sock t.0 ≡ some d
    → IsLinked (remove d.sock t.0, insert d.sock d t.1, t.2)
move-IsLinked d t v found = record {
  served = λ c e h. ground (
    arith,
    v.served c e,
    v.owned d.sock d,
    lookup-remove d.sock e.sock t.0,
    lookup-insert d.sock e.sock d t.1,
    nat_beq_iff d.sock e.sock,
    v.apart d.sock,
    contains-lookup d.sock t.0,
    contains-lookup d.sock t.1,
  );
  owned = λ s e h. ground (
    arith,
    v.owned s e,
    v.owned d.sock d,
    lookup-remove d.sock s t.0,
    lookup-insert d.sock s d t.1,
    nat_beq_iff d.sock s,
  );
  apart = λ s h. ground (
    arith,
    v.apart s,
    contains-remove d.sock s t.0,
    contains-insert d.sock s d t.1,
    nat_beq_iff d.sock s,
  );
}
