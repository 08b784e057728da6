-- ===== src/Cluster/Manager.antt =====
-- `ServerClusterManager` of server/cluster/member_manager.go: the list of members and its changes,
-- with the probes' results of member_utils.go. What `notifySubscriber` publishes is kept in
-- `published`, latest first.
use pole.Prelude.{
  ℕ, ◌+◌, ◌%◌, ◌^◌, Bool, true, false, ◌||◌, ◌==◌, Option, none, some, List, [], ◌∷◌, Text, codes,
  length, Outcome, returned, panicked, leb, if◌then◌else◌,
}
use pole.Prelude.ConcurrentMaps.{ConcurrentMapApi}
use pole.Cluster.Member.{Member, healthy, down, impeach, get_identifier, sing_parse, multi_parse}

-- `a <= b` on int32.
unfoldable pub le_int32 : ℕ → ℕ → Bool
le_int32 a b = leb ((a + 2 ^ 31) % 2 ^ 32) ((b + 2 ^ 31) % 2 ^ 32)

unfoldable pub has : ℕ → Text → Bool
has c [] = false
has c (d ∷ s) = c == d || has c s

-- `strings.ContainsAny(s, chars)`
unfoldable pub contains_any : Text → Text → Bool
unfolding has
contains_any [] chars = false
contains_any (c ∷ s) chars = has c chars || contains_any s chars

-- The member after `OnSuccess`.
unfoldable pub succeeded : Member → Member
succeeded m = record m { access_fail_cnt = 0; status = healthy }

-- The member after `OnFail` with an error, where `limit` is the configured `MaxProbeFailCnt`.
unfoldable pub failed : ℕ → Text → Member → Member
unfolding contains_any le_int32
failed limit err m =
    let cnt : ℕ = (m.access_fail_cnt + 1) % 2 ^ 32 in
    if contains_any err (codes "Connection refused")
    then record m { status = down }
    else record m { access_fail_cnt = cnt; status = if le_int32 limit cnt then down else impeach }

module _ (maps : ConcurrentMapApi) where
  open maps use {Map, zero, get, put, values, size}

  pub record ServerClusterManager : Type 0 where
    pub self : Text
    pub member_list : Map Member
    pub published : List (List Member)

  unfoldable pub get_member_list : ServerClusterManager → List Member
  get_member_list s = values Member s.member_list

  unfoldable pub notify_subscriber : ServerClusterManager → ServerClusterManager
  unfolding get_member_list
  notify_subscriber s = record s { published = get_member_list s ∷ s.published }

  abbrev pub Done : Type 0
  Done = Outcome (Unit {0}) × ServerClusterManager

  -- `NewServerClusterManager` and `init` up to the lookup, for the server's own address: the member
  -- of that address is put into the new list.
  unfoldable pub new_server_cluster_manager : Text → Done
  unfolding sing_parse get_identifier
  new_server_cluster_manager self =
      let s : ServerClusterManager = record {
        self = self;
        member_list = zero Member;
        published = [];
      } in
      elim (sing_parse self) [
        | panicked ↦ (panicked, s)
        | returned m ↦ elim (put Member (get_identifier m).0 (get_identifier m).1 s.member_list) [
          | panicked ↦ (panicked, s)
          | returned members ↦ (returned tt, record s { member_list = members })
        ]
      ]

  unfoldable pub update_member : Member → ServerClusterManager → Done
  unfolding get_identifier notify_subscriber
  update_member m s =
      let named : Text × Member = get_identifier m in
      elim (get Member named.0 s.member_list) [
        | none ↦ (returned tt, s)
        | some _ ↦ elim (put Member named.0 named.1 s.member_list) [
          | panicked ↦ (panicked, s)
          | returned members ↦ (returned tt, notify_subscriber (record s { member_list = members }))
        ]
      ]

  unfoldable pub on_success : Member → ServerClusterManager → Done
  unfolding succeeded update_member
  on_success m s = update_member (succeeded m) s

  -- A member of the list that is impeached in place.
  unfoldable pub impeached : Member → ServerClusterManager → ServerClusterManager
  unfolding get_identifier
  impeached m s = elim (get Member (get_identifier m).0 s.member_list) [
    | none ↦ s
    | some _ ↦
        elim (put Member (get_identifier m).0 (record m { status = impeach }) s.member_list) [
          | panicked ↦ s
          | returned members ↦ record s { member_list = members }
        ]
  ]

  -- `OnFail`; a nil error, as `openReportSelfInfoToOtherWork` passes for a bad status, is `none`, and a
  -- panic once the member has been impeached.
  unfoldable pub on_fail : ℕ → Option Text → Member → ServerClusterManager → Done
  unfolding failed update_member impeached
  on_fail limit none m s = (panicked, impeached m s)
  on_fail limit (some err) m s = update_member (failed limit err m) s

  -- The loop of `MemberChange`, from the flag and the new list so far; a nil member is a panic.
  unfoldable pub collect :
      List (Option Member) → Map Member → Bool → Map Member → Outcome (Bool × Map Member)
  unfolding get_identifier
  collect [] old changed new = returned (changed, new)
  collect (none ∷ ms) old changed new = panicked
  collect (some m ∷ ms) old changed new =
      let named : Text × Member = get_identifier m in
      let changed' : Bool = elim (get Member named.0 old) [ none ↦ true | some _ ↦ changed ] in
      elim (put Member named.0 named.1 new) [
        | panicked ↦ panicked
        | returned new' ↦ collect ms old changed' new'
      ]

  unfoldable pub replace : Bool → Map Member → ServerClusterManager → ServerClusterManager
  unfolding notify_subscriber
  replace changed new s =
      let s' : ServerClusterManager = record s { member_list = new } in
      if changed then notify_subscriber s' else s'

  unfoldable pub member_change : List (Option Member) → ServerClusterManager → Done
  unfolding collect replace
  member_change ms s =
      elim (collect ms s.member_list (length ms == size Member s.member_list) (zero Member)) [
        | panicked ↦ (panicked, s)
        | returned (changed, new) ↦ (returned tt, replace changed new s)
      ]

  -- `FileMemberLookup.OnEvent`, for the lines of the file.
  unfoldable pub on_event : List Text → ServerClusterManager → Done
  unfolding multi_parse member_change
  on_event lines s = elim (multi_parse lines) [
    | panicked ↦ (panicked, s)
    | returned ms ↦ member_change ms s
  ]
