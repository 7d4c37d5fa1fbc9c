-- ===== src/Content/Manager/Fetch.antt =====
-- What `getDownloader` leaves, and whom it connects a client to.
use Prim.Native.String.{String}
use text.Mathlib.TextEquality.{eq_iff}
use exaproxy.Common.{
  ℕ, ◌≤◌, ◌≡◌, ◌⊎◌, inl, inr, refl, true, false, not, ◌&&◌, ◌||◌, Option, none, some, List, [], ◌∷◌,
  arith, nat_beq_iff, number_key, text_key, ◌==◌, Bool-cases, Option-cases, subst, sym, ap,
}
use exaproxy.Dict.{lookup, contains}
use exaproxy.Content.Worker.{Content}
use exaproxy.Content.Manager.{
  ContentManager, Host, Download, reused, fresh, get_downloader, kept_downloader, is_denied,
  is_allowed, is_local, fits, Range, Allowed, new_downloader, settle_downloader, same_server,
  end_client_download,
}
use exaproxy.Content.Manager.Owned.{tables, IsLinked, end-IsLinked, end-lookup, end-contains}

-- The sockets that `connect` opens are none of those that a downloader has.
abbrev pub OpensNew : Host → ContentManager → Type 0
OpensNew h m =
    (host : String) (port s : ℕ)
    → h.connect host port ≡ some s
    → (contains s m.opening ≡ false) × (contains s m.established ≡ false)

-- What getting a downloader leaves: linked tables, and for a new one a client that has none and a
-- socket that no downloader has.
pub record IsFetched (client : ℕ) (r : Download) (n : ContentManager) : Type 0 where
  pub linked : IsLinked (tables n)
  pub client_new : (d : Content) → r ≡ fresh d → lookup d.client n.byclient ≡ none
  pub opening_new : (d : Content) → r ≡ fresh d → contains d.sock n.opening ≡ false
  pub established_new : (d : Content) → r ≡ fresh d → contains d.sock n.established ≡ false

new_downloader-fresh :
    (h : Host) (client : ℕ) (host : String) (port : ℕ) (method : String) (d : Content)
    → new_downloader h client host port method ≡ fresh d
    → (d.client ≡ client) × (h.connect host port ≡ some d.sock)
new_downloader-fresh h client host port method d e = ground arith

module _ (h : Host) (client : ℕ) (host : String) (port : ℕ) (method : String) (m : ContentManager)
    (v : IsLinked (tables m)) (new : OpensNew h m) where
  new-IsFetched :
      (n : ContentManager)
      → IsLinked (tables n)
      → lookup client n.byclient ≡ none
      → ((s : ℕ)
          → (contains s m.opening ≡ false → contains s n.opening ≡ false)
            × (contains s m.established ≡ false → contains s n.established ≡ false))
      → IsFetched client (new_downloader h client host port method) n
  new-IsFetched n linked nobody shrunk = record {
    linked = linked;
    client_new = λ d e.
        let (c, s) = new_downloader-fresh h client host port method d e in
        subst (λ x. lookup x n.byclient ≡ none) (sym c) nobody;
    opening_new = λ d e.
        let (c, s) = new_downloader-fresh h client host port method d e in
        (shrunk d.sock).0 (new host port d.sock s).0;
    established_new = λ d e.
        let (c, s) = new_downloader-fresh h client host port method d e in
        (shrunk d.sock).1 (new host port d.sock s).1;
  }

  settle-IsFetched :
      (kept : Option Content) (n : ContentManager)
      → IsLinked (tables n)
      → (kept ≡ none → lookup client n.byclient ≡ none)
      → ((s : ℕ)
          → (contains s m.opening ≡ false → contains s n.opening ≡ false)
            × (contains s m.established ≡ false → contains s n.established ≡ false))
      → IsFetched client
          (settle_downloader h client host port method kept n).0
          (settle_downloader h client host port method kept n).1
  settle-IsFetched kept n linked nobody shrunk =
      elim (Bool-cases (not (h.is_ipv4 host || h.is_ipv6 host))) [
        | inl bad ↦
            rw (bad, settle_downloader)
              (record {
                linked = linked;
                client_new = λ d e. cc;
                opening_new = λ d e. cc;
                established_new = λ d e. cc;
              })
        | inr fine ↦ rw (fine, settle_downloader) (chosen kept nobody)
      ]
    where
      chosen :
          (k : Option Content)
          → (k ≡ none → lookup client n.byclient ≡ none)
          → (let r : Download × ContentManager = elim k [
            | some d ↦ (reused d, n)
            | none ↦ (new_downloader h client host port method, n)
          ] in
              IsFetched client r.0 r.1)
      chosen none nobody = new-IsFetched n linked (nobody refl) shrunk
      chosen (some d) nobody = record {
        linked = linked;
        client_new = λ d e. cc;
        opening_new = λ d e. cc;
        established_new = λ d e. cc;
      }

  abbrev Settles : Option Content × ContentManager → Type 0
  Settles r =
      IsFetched client (settle_downloader h client host port method r.0 r.1).0
        (settle_downloader h client host port method r.0 r.1).1

  kept-Settles : Settles (kept_downloader client host port m)
  kept-Settles = elim (Option-cases (lookup client m.byclient)) [
    | inl nobody ↦
        let e : kept_downloader client host port m ≡ (none, m) = rw (nobody, kept_downloader) in
        subst Settles (sym e) (settle-IsFetched none m v (λ _. nobody) (λ s. ((λ h. h), (λ h. h))))
    | inr (d, found) ↦ elim (Bool-cases (same_server d host port)) [
      | inl same ↦
          let e : kept_downloader client host port m ≡ (some d, m) =
            rw (found, same, kept_downloader) in
          subst Settles (sym e)
            (settle-IsFetched (some d) m v (λ e. cc) (λ s. ((λ h. h), (λ h. h))))
      | inr other ↦
          let e : kept_downloader client host port m ≡ (none, (end_client_download client m).1) =
            rw (found, other, kept_downloader) in
          subst Settles (sym e) (
            settle-IsFetched none (end_client_download client m).1 (end-IsLinked client m v)
              (λ _. end-lookup client m v) (λ s. end-contains client s m))
    ]
  ]

  pub get_downloader-IsFetched :
      IsFetched client
        (get_downloader h client host port method m).0
        (get_downloader h client host port method m).1
  unfolding get_downloader
  get_downloader-IsFetched = kept-Settles

-- The rows of `security.deny` do not cover the address.
abbrev pub AllElsewhere : List Range → ℕ × ℕ → Type 0
AllElsewhere [] a = Unit
AllElsewhere (r ∷ rest) a =
    (¬ ((r.proto ≡ a.0) × (r.first ≤ a.1) × (a.1 ≤ r.last))) × AllElsewhere rest a

-- Some row of `security.local` names the host, or any, and the port, or any.
abbrev pub SomeAllows : List Allowed → String → ℕ → Type 0
SomeAllows [] host port = ⊥
SomeAllows (a ∷ rest) host port =
    (((a.allowed_host ≡ none) ⊎ (a.allowed_host ≡ some host))
      × ((a.allowed_port ≡ none) ⊎ (a.allowed_port ≡ some port)))
    ⊎ SomeAllows rest host port

denied_lem : (l : List Range) (a : ℕ × ℕ) → is_denied l a ≡ false → AllElsewhere l a
unfolding is_denied
denied_lem [] a h = tt
denied_lem (r ∷ rest) a h = ((λ covers. ground arith), denied_lem rest a (ground arith))

fits_host :
    (host : String) (o : Option String)
    → fits (λ h. h == host) o ≡ true
    → (o ≡ none) ⊎ (o ≡ some host)
fits_host host none h = inl refl
fits_host host (some x) h = inr (ap some ((eq_iff x host).0 h))

fits_port :
    (port : ℕ) (o : Option ℕ) → fits (λ p. p == port) o ≡ true → (o ≡ none) ⊎ (o ≡ some port)
fits_port port none h = inl refl
fits_port port (some x) h = inr (ap some ((nat_beq_iff x port).0 h))

allowed_lem :
    (l : List Allowed) (host : String) (port : ℕ)
    → is_allowed l host port ≡ true
    → SomeAllows l host port
unfolding is_allowed
allowed_lem [] host port h = cc
allowed_lem (a ∷ rest) host port h =
    elim (Bool-cases
      (fits (λ h. h == host) a.allowed_host && fits (λ p. p == port) a.allowed_port)) [
        | inl row ↦ inl (
          fits_host host a.allowed_host (ground arith),
          fits_port port a.allowed_port (ground arith),
        )
        | inr other ↦ inr (allowed_lem rest host port (ground arith))
      ]

settle-fresh :
    (h : Host) (client : ℕ) (host : String) (port : ℕ) (method : String) (kept : Option Content)
    (n : ContentManager) (d : Content)
    → (settle_downloader h client host port method kept n).0 ≡ fresh d
    → new_downloader h client host port method ≡ fresh d
settle-fresh h client host port method kept n d e =
    elim (Bool-cases (not (h.is_ipv4 host || h.is_ipv6 host))) [
      | inl bad ↦ cc (rw (bad, settle_downloader) at e)
      | inr fine ↦ chosen kept (rw (fine, settle_downloader) at e)
    ]
  where
    chosen :
        (k : Option Content)
        → (let r : Download × ContentManager = elim k [
          | some d ↦ (reused d, n)
          | none ↦ (new_downloader h client host port method, n)
        ] in
            r.0 ≡ fresh d)
        → new_downloader h client host port method ≡ fresh d
    chosen none e = e
    chosen (some d) e = cc

new_downloader-tests :
    (h : Host) (client : ℕ) (host : String) (port : ℕ) (method : String) (d : Content)
    → new_downloader h client host port method ≡ fresh d
    → (is_denied h.deny (h.address host) ≡ false)
      × (is_local h.local_hosts host ≡ true → is_allowed h.local_allowed host port ≡ true)
new_downloader-tests h client host port method d e =
    elim (Bool-cases (is_denied h.deny (h.address host))) [
      | inl denied ↦ cc (rw (denied, new_downloader) at e)
      | inr elsewhere ↦ (elsewhere, λ here. ground arith)
    ]

-- Whoever asks, a client is only ever connected anew to an address outside of `security.deny`, and
-- to one of the proxy's own addresses only if a row of `security.local` names the host and port.
pub fresh_permitted :
    (h : Host) (client : ℕ) (host : String) (port : ℕ) (method : String) (m : ContentManager)
    (d : Content)
    → (get_downloader h client host port method m).0 ≡ fresh d
    → AllElsewhere h.deny (h.address host)
      × (is_local h.local_hosts host ≡ true → SomeAllows h.local_allowed host port)
      × (h.connect host port ≡ some d.sock)
unfolding get_downloader
fresh_permitted h client host port method m d e =
    let made =
      settle-fresh h client host port method (kept_downloader client host port m).0
        (kept_downloader client host port m).1 d e in
    let tests = new_downloader-tests h client host port method d made in
    (
      denied_lem h.deny (h.address host) tests.0,
      (λ here. allowed_lem h.local_allowed host port (tests.1 here)),
      (new_downloader-fresh h client host port method d made).1,
    )
