-- ===== src/Raft/Servers/Starting.antt =====
-- What starting a server of server/core/raft_protocol.go comes to.
use mathlib.Core.Path.{subst}
use pole.Prelude.{
  ℕ, Bool, true, false, Option, none, some, List, [], ◌∷◌, Text, Outcome, returned, panicked, ◌≡◌,
  refl, sym, ap, ◌∙◌, ◌⊎◌, inl, inr, ◌==◌, if◌then◌else◌, arith, All,
}
use pole.Storage.Kv.{Result, ok, err}
use pole.Cluster.Member.{Member, get_addr}
use pole.Raft.Servers.{
  RaftApi, IsRaft, InitialMembers, put_id, initial_members, ClusterView, Processor, raft_address,
  RaftServer, RaftProtocol, host_at, init_server, start_error, start_at, start_server, started,
  hosted, create_and_start_raft_server, keep_server, add_processor,
}

-- The address of the last member.
unfoldable pub last_addr : Member → List Member → Text
unfolding get_addr
last_addr m [] = get_addr m
last_addr m (n ∷ ns) = last_addr n ns

put_same :
    (id : ℕ) (addr : Text) (m : Member)
    → m.member_id ≡ id
    → put_id m.member_id (get_addr m) ((id, addr) ∷ []) ≡ (id, get_addr m) ∷ []
unfolding put_id
put_same id addr m h = ground (arith, h)

more_members :
    (id : ℕ) (addr : Text) (m : Member) (ms : List Member)
    → All (λ n. n.member_id ≡ id) (m ∷ ms)
    → initial_members (m ∷ ms) ((id, addr) ∷ []) ≡ (id, last_addr m ms) ∷ []
unfolding initial_members last_addr put_id
more_members id addr m [] h = ground (arith, h.0)
more_members id addr m (n ∷ ns) h =
    ap (λ entries. initial_members (n ∷ ns) entries) (put_same id addr m h.0)
    ∙ more_members id (get_addr m) n ns h.1

-- Members that have the same number, as the zero that every member of an address file has, leave one
-- entry to start with: the address of the last of them.
pub initial_members_lem :
    (id : ℕ) (m : Member) (ms : List Member)
    → All (λ n. n.member_id ≡ id) (m ∷ ms)
    → initial_members (m ∷ ms) [] ≡ (id, last_addr m ms) ∷ []
unfolding initial_members last_addr put_id
initial_members_lem id m [] h = ap (λ i. (i, get_addr m) ∷ []) h.0
initial_members_lem id m (n ∷ ns) h =
    ap (λ i. initial_members (n ∷ ns) ((i, get_addr m) ∷ [])) h.0
    ∙ more_members id (get_addr m) n ns h.1

filled_if :
    (b : Bool) (x y : ℕ × Text) (xs ys : InitialMembers)
    → (z : ℕ × Text) × (zs : InitialMembers) × ((if b then x ∷ xs else y ∷ ys) ≡ z ∷ zs)
filled_if true x y xs ys = (x, xs, refl)
filled_if false x y xs ys = (y, ys, refl)

filled_put :
    (id : ℕ) (addr : Text) (entries : InitialMembers)
    → (x : ℕ × Text) × (xs : InitialMembers) × (put_id id addr entries ≡ x ∷ xs)
unfolding put_id
filled_put id addr [] = (_, _, refl)
filled_put id addr ((i, a) ∷ entries) =
    filled_if (i == id) (id, addr) (i, a) entries (put_id id addr entries)

filled_members :
    (ms : List Member) (id : ℕ) (addr : Text) (entries : InitialMembers)
    → (x : ℕ × Text) × (xs : InitialMembers) × (initial_members ms (put_id id addr entries)
        ≡ x ∷ xs)
unfolding initial_members
filled_members [] id addr entries = filled_put id addr entries
filled_members (n ∷ ns) id addr entries =
    filled_members ns n.member_id (get_addr n) (put_id id addr entries)

module _ (api : RaftApi) (laws : IsRaft api) where
  open api use {Disk, Host}

  abbrev NoServer : Outcome (Result (RaftServer api)) → Type 0
  NoServer o = (o ≡ panicked) ⊎ ((e : Text) × (o ≡ returned (err e)))

  start_refused :
      (o : Option Member) (m : Member) (ms : List Member) (p : Text × ℕ) (h : Host) (d : Disk)
      → api.exists (api.data_dir p.0) d ≡ true
      → NoServer (started api p h (start_at api o (m ∷ ms) p h d)).0
  unfolding initial_members put_id
  start_refused none m ms p h d e = inl refl
  start_refused (some self) m ms p h d e =
      let (x, xs, filled) = filled_members ms m.member_id (get_addr m) [] in
      let (why, refused) = laws.join_refused h x xs p.1 self.member_id d in
      let r =
        api.start_cluster h (initial_members (m ∷ ms) []) (api.exists (api.data_dir p.0) d) p.1
          self.member_id d in
      inr (
        _,
        ap (λ o. (started api p h (returned (start_error api o), r.1)).0)
            (ap
                (λ join.
                  (api.start_cluster h (initial_members (m ∷ ms) []) join p.1 self.member_id d).0)
                e
              ∙ ap (λ members. (api.start_cluster h members true p.1 self.member_id d).0) filled
              ∙ refused),
      )

  host_refused :
      (o : Option Member) (m : Member) (ms : List Member) (self : Option Member) (p : Text × ℕ)
      (r : Outcome (Result Host)) (d d' : Disk)
      → (host_at api o p d).0 ≡ r
      → (host_at api o p d).1 ≡ d'
      → NoServer (hosted api (record { self = self; member_list = m ∷ ms }) p (r, d')).0
  unfolding start_server
  host_refused o m ms self p panicked d d' e f = inl refl
  host_refused o m ms self p (returned (err why)) d d' e f = inr (why, refl)
  host_refused none m ms self p (returned (ok h)) d d' e f = ground (arith, e)
  host_refused (some me) m ms self p (returned (ok h)) d d' e f = start_refused self m ms p h d' (
      ap (λ x. api.exists (api.data_dir p.0) x) (sym f)
      ∙ laws.host_exists (api.data_dir p.0) (raft_address me) d h (ground (arith, e)))

  create_fails :
      (view : ClusterView) (m : Member) (ms : List Member) (p : Text × ℕ) (d : Disk)
      → view.member_list ≡ m ∷ ms
      → NoServer (create_and_start_raft_server api view p d).0
  unfolding create_and_start_raft_server init_server
  create_fails view m ms p d h =
      subst
        (λ members.
          NoServer
            (hosted api (record view { member_list = members }) p (host_at api view.self p d)).0)
        (sym h)
        (host_refused view.self m ms view.self p (host_at api view.self p d).0 d
          (host_at api view.self p d).1 refl refl)

  -- Where the cluster has a member, a processor can never be added: the call gives an error or
  -- panics, and the protocol keeps the servers that it had.
  pub add_processor_fails :
      (view : ClusterView) (m : Member) (ms : List Member) (p : Processor)
      (processors : List Processor) (servers : RaftProtocol api) (d : Disk)
      → view.member_list ≡ m ∷ ms
      → (((add_processor api view (p ∷ processors) (servers, d)).0 ≡ panicked)
          ⊎ ((e : Text) × ((add_processor api view (p ∷ processors) (servers, d)).0
                ≡ returned (some e))))
        × ((add_processor api view (p ∷ processors) (servers, d)).1.0 ≡ servers)
  unfolding add_processor
  add_processor_fails view m ms none processors servers d h = (inr (_, refl), refl)
  add_processor_fails view m ms (some p) processors servers d h =
      let made = create_and_start_raft_server api view p d in
      let rest = add_processor api view processors in
      elim (create_fails view m ms p d h) [
        | inl e ↦ (
          inl (ap (λ o. (keep_server api p.0 (o, made.1) servers rest).0) e),
          ap (λ o. (keep_server api p.0 (o, made.1) servers rest).1.0) e,
        )
        | inr (why, e) ↦ (
          inr (why, ap (λ o. (keep_server api p.0 (o, made.1) servers rest).0) e),
          ap (λ o. (keep_server api p.0 (o, made.1) servers rest).1.0) e,
        )
      ]
