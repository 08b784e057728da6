-- ===== src/Cluster/Reports.antt =====
-- The reports that a server makes of itself: `KRandomMember` of server/cluster/member_utils.go, and
-- `openReportSelfInfoToOtherWork` with the handler that receives a report, in member_manager.go.
pub mod Choice
pub mod Failing
mod Examples
use pole.Prelude.{
  ℕ, zero, suc, ◌+◌, ◌*◌, ◌%◌, ◌≤◌, Bool, true, false, Option, none, some, List, [], ◌∷◌, ◌++◌,
  length, get_elem?, Text, codes, Dict, insert, erase, Outcome, returned, panicked, ◌==◌, leb,
  if◌then◌else◌, ◌≡◌, All,
}
use pole.Prelude.ConcurrentMaps.{ConcurrentMapApi}
use pole.Discovery.Model.{decimal}
use pole.Cluster.Member.{Member, get_identifier, healthy}
use pole.Cluster.Manager.{ServerClusterManager, Done, get_member_list, on_success, on_fail}

-- A set of the rpc library, of pointers to members.
pub record MemberSets (A : Type 0) : Type 1 where
  pub MemberSet : Type 0
  pub new_set : MemberSet
  pub add : A → MemberSet → MemberSet
  pub size : MemberSet → ℕ
  pub elements : MemberSet → List A  -- in the order of Range

-- The documented behaviour.
pub record IsMemberSets {A : Type 0} (sets : MemberSets A) : Type 1 where
  pub size-new_set : sets.size sets.new_set ≡ 0
  pub size-add : (a : A) (s : sets.MemberSet) → sets.size (sets.add a s) ≤ sets.size s + 1
  pub size-elements : (s : sets.MemberSet) → length (sets.elements s) ≡ sets.size s
  pub elements-new_set : sets.elements sets.new_set ≡ []
  pub elements-add :
      (P : A → Type 0) (a : A) (s : sets.MemberSet)
      → P a
      → All P (sets.elements s)
      → All P (sets.elements (sets.add a s))

module _ {A : Type 0} (sets : MemberSets A) where
  open sets use {MemberSet, new_set, add, size, elements}

  abbrev pub add_if : Bool → A → MemberSet → MemberSet
  add_if true m s = add m s
  add_if false m s = s

  -- The loop of `KRandomMember`, with what is left of its 3 * totalSize rounds. In round `i` the index is
  -- `draws i`, brought below the number of members; none there is a panic.
  unfoldable pub choose : (ℕ → ℕ) → ℕ → List A → (A → Bool) → ℕ → ℕ → MemberSet → Outcome MemberSet
  choose draws k members filter zero i s = returned s
  choose draws k members filter (suc left) i s =
      if leb (size s) k
      then elim (get_elem? members (draws i % length members)) [
        | none ↦ panicked
        | some m ↦ choose draws k members filter left (suc i) (add_if (filter m) m s)
      ]
      else returned s

  unfoldable pub k_random_member : (ℕ → ℕ) → ℕ → List A → (A → Bool) → Outcome (List A)
  unfolding choose
  k_random_member draws k members filter =
      elim (choose draws k members filter (3 * length members) 0 new_set) [
        | panicked ↦ panicked
        | returned s ↦ returned (elements s)
      ]

-- What comes of sending a report: the member cannot be marshalled, the post fails with an error, or it
-- is answered with a code.
pub data Sent : Type 0 where
  unmarshalled : Sent
  post_failed : Text → Sent
  post_answered : ℕ → Sent

abbrev pub is_healthy : Member → Bool
is_healthy m = m.status == healthy

-- The metadata of a member, behind a lock that a member may not have: no code gives it one.
unfoldable pub update_meta_data : Bool → Text → Text → Member → Outcome (Unit {0}) × Member
update_meta_data true key value m =
    (returned tt, record m { meta_data = insert key value m.meta_data })
update_meta_data false key value m = (panicked, m)

unfoldable pub remove_meta_data : Bool → Text → Member → Outcome (Unit {0}) × Member
remove_meta_data true key m = (returned tt, record m { meta_data = erase key m.meta_data })
remove_meta_data false key m = (panicked, m)

unfoldable pub update_all_meta_data : Bool → Dict Text → Member → Outcome (Unit {0}) × Member
update_all_meta_data true new m = (returned tt, record m { meta_data = new })
update_all_meta_data false new m = (panicked, m)

module _ (maps : ConcurrentMapApi) where
  open maps use {Map, get, put}

  unfoldable pub get_self : ServerClusterManager maps → Outcome Member
  get_self s = elim (get Member s.self s.member_list) [ none ↦ panicked | some m ↦ returned m ]

  -- A port is an int that is not negative.
  unfoldable pub find_member : Text → ℕ → ServerClusterManager maps → Outcome (Member × Bool)
  unfolding decimal
  find_member ip port s = elim (get Member (ip ++ (codes ":" ++ decimal 20 port)) s.member_list) [
    | none ↦ panicked
    | some m ↦ returned (m, true)
  ]

  abbrev pub after_report :
      Outcome (Unit {0}) × Member
      → ServerClusterManager maps
      → Text
      → Outcome ℕ × ServerClusterManager maps
  after_report (panicked, m) s name = (panicked, s)
  after_report (returned _, m) s name = elim (put Member name m s.member_list) [
    | panicked ↦ (panicked, s)
    | returned members ↦ (returned 200, record s { member_list = members })
  ]

  -- The handler of `MemberInfoReportPattern`, from the member that was sent, if it is read, to the code
  -- of its answer. The member of the list is changed in place.
  unfoldable pub handle_report :
      Bool → Option Member → ServerClusterManager maps → Outcome ℕ × ServerClusterManager maps
  unfolding get_identifier update_all_meta_data
  handle_report has_lock none s = (returned 400, s)
  handle_report has_lock (some remote) s =
      elim (get Member (get_identifier remote).0 s.member_list) [
        | none ↦ (panicked, s)
        | some m ↦
            after_report (update_all_meta_data has_lock remote.meta_data m) s
              (get_identifier remote).0
      ]

  abbrev pub next_report : Done maps → (ServerClusterManager maps → Done maps) → Done maps
  next_report (panicked, s) rest = (panicked, s)
  next_report (returned _, s) rest = rest s

  unfoldable pub report_one : ℕ → Member × Sent → ServerClusterManager maps → Done maps
  unfolding on_success on_fail
  report_one limit (m, unmarshalled) s = (returned tt, s)
  report_one limit (m, post_failed e) s = on_fail maps limit (some e) m s
  report_one limit (m, post_answered code) s =
      if code == 200 then on_success maps m s else on_fail maps limit none m s

  -- The loop over the members that were chosen, with what comes of each report.
  unfoldable pub report_all : ℕ → List (Member × Sent) → ServerClusterManager maps → Done maps
  unfolding report_one
  report_all limit [] s = (returned tt, s)
  report_all limit (r ∷ reports) s = next_report (report_one limit r s) (report_all limit reports)
