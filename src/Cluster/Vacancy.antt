-- ===== src/Cluster/Vacancy.antt =====
-- Which members a server knows: what the calls of server/cluster do to the list of `ServerClusterManager`.
use pole.Prelude.{
  ℕ, ◌≡◌, refl, ap, ◌∙◌, Bool, Option, none, some, List, [], ◌∷◌, map, Text, inl, inr, returned,
  panicked,
}
use pole.Prelude.Outcomes.{Outcome-cases}
use pole.Prelude.ConcurrentMaps.{ConcurrentMapApi, IsNilMap}
use pole.Cluster.Member.{Member, get_identifier, sing_parse, multi_parse}
use pole.Cluster.Manager.{
  ServerClusterManager, new_server_cluster_manager, update_member, succeeded, failed, on_success,
  on_fail, impeached, member_change, on_event,
}
use pole.Cluster.Changes.{member_change_lem}
use pole.Cluster.Endpoints.{EndpointSubset, endpoint_members, only_subset, observe, on_endpoints}
use pole.Cluster.Reports.{handle_report, get_self, find_member}

-- The calls that may change the members: a probe that succeeds or fails, a change of the members, the
-- lines of the member file, an event of kubernetes, and a report from another server.
pub data Call : Type 0 where
  update_call success_call : Member → Call
  fail_call : ℕ → Option Text → Member → Call
  change_call : List (Option Member) → Call
  file_call : List Text → Call
  endpoints_call : Option (List EndpointSubset) → Call
  report_call : Bool → Option Member → Call

module _ (maps : ConcurrentMapApi) where
  unfoldable pub call : Call → ServerClusterManager maps → ServerClusterManager maps
  unfolding update_member on_success on_fail member_change on_event on_endpoints handle_report
  call (update_call m) s = (update_member maps m s).1
  call (success_call m) s = (on_success maps m s).1
  call (fail_call limit err m) s = (on_fail maps limit err m s).1
  call (change_call ms) s = (member_change maps ms s).1
  call (file_call lines) s = (on_event maps lines s).1
  call (endpoints_call e) s = on_endpoints maps e s
  call (report_call has_lock remote) s = (handle_report maps has_lock remote s).1

  unfoldable pub run_calls : List Call → ServerClusterManager maps → ServerClusterManager maps
  unfolding call
  run_calls [] s = s
  run_calls (c ∷ cs) s = run_calls cs (call c s)

  abbrev pub IsVacant : ServerClusterManager maps → Type 0
  IsVacant s = s.member_list ≡ maps.zero Member

  module _ (laws : IsNilMap maps) where
    unknown :
        (k : Text) (s : ServerClusterManager maps)
        → IsVacant s
        → maps.get Member k s.member_list ≡ none
    unknown k s h = ap (maps.get Member k) h ∙ laws.get-zero Member k

    update_member-vacant :
        (m : Member) (s : ServerClusterManager maps)
        → IsVacant s
        → update_member maps m s ≡ (returned tt, s)
    unfolding update_member
    update_member-vacant m s h = rw (unknown (get_identifier m).0 s h, update_member) refl

    updated :
        (m : Member) (s : ServerClusterManager maps)
        → IsVacant s
        → IsVacant (update_member maps m s).1
    updated m s h = ap (λ r. r.1.member_list) (update_member-vacant m s h) ∙ h

    failing :
        (limit : ℕ) (err : Option Text) (m : Member) (s : ServerClusterManager maps)
        → IsVacant s
        → IsVacant (on_fail maps limit err m s).1
    unfolding on_fail impeached
    failing limit none m s h = rw (unknown (get_identifier m).0 s h, impeached) h
    failing limit (some err) m s h = updated (failed limit err m) s h

    changed :
        (ms : List (Option Member)) (s : ServerClusterManager maps)
        → IsVacant s
        → IsVacant (member_change maps ms s).1
    changed [] s h = ap (λ r. r.1.member_list) (member_change_lem maps laws [] s)
    changed (o ∷ ms) s h = ap (λ r. r.1.member_list) (member_change_lem maps laws (o ∷ ms) s) ∙ h

    read_file :
        (lines : List Text) (s : ServerClusterManager maps)
        → IsVacant s
        → IsVacant (on_event maps lines s).1
    unfolding on_event
    read_file lines s h = elim (Outcome-cases (multi_parse lines)) [
      | inl e ↦ rw (e, on_event) h
      | inr (ms, e) ↦ rw (e, on_event) (changed ms s h)
    ]

    observed :
        (x : Option EndpointSubset) (s : ServerClusterManager maps)
        → IsVacant s
        → IsVacant (observe maps x s)
    observed none s h = h
    observed (some x) s h = changed (map (λ m. some m) (endpoint_members x)) s h

    reported :
        (has_lock : Bool) (remote : Option Member) (s : ServerClusterManager maps)
        → IsVacant s
        → IsVacant (handle_report maps has_lock remote s).1
    unfolding handle_report
    reported has_lock none s h = h
    reported has_lock (some m) s h = rw (unknown (get_identifier m).0 s h, handle_report) h

    call-IsVacant : (c : Call) (s : ServerClusterManager maps) → IsVacant s → IsVacant (call c s)
    unfolding call on_success on_endpoints
    call-IsVacant (update_call m) s h = updated m s h
    call-IsVacant (success_call m) s h = updated (succeeded m) s h
    call-IsVacant (fail_call limit err m) s h = failing limit err m s h
    call-IsVacant (change_call ms) s h = changed ms s h
    call-IsVacant (file_call lines) s h = read_file lines s h
    call-IsVacant (endpoints_call e) s h = observed (only_subset e) s h
    call-IsVacant (report_call has_lock remote) s h = reported has_lock remote s h

    run_calls-IsVacant :
        (cs : List Call) (s : ServerClusterManager maps) → IsVacant s → IsVacant (run_calls cs s)
    unfolding run_calls
    run_calls-IsVacant [] s h = h
    run_calls-IsVacant (c ∷ cs) s h = run_calls-IsVacant cs (call c s) (call-IsVacant c s h)

    new-lem :
        (self : Text)
        → new_server_cluster_manager maps self
          ≡ (panicked, record { self = self; member_list = maps.zero Member; published = [] })
    unfolding new_server_cluster_manager
    new-lem self = elim (Outcome-cases (sing_parse self)) [
      | inl e ↦ rw (e, new_server_cluster_manager) refl
      | inr (m, e) ↦
          rw
            (
              e,
              laws.put-zero Member (get_identifier m).0 (get_identifier m).1,
              new_server_cluster_manager,
            )
            refl
    ]

    -- Where the zero value of a concurrent map is a nil map: making the manager panics, and whatever is
    -- called on the manager that it leaves, in whatever order, no member is ever known to it, not even
    -- the server itself, so that GetSelf and FindMember panic.
    pub run_calls-new_server_cluster_manager :
        (self ip : Text) (port : ℕ) (cs : List Call)
        → ((new_server_cluster_manager maps self).0 ≡ panicked)
          × ((k : Text)
              → maps.get Member k
                  (run_calls cs (new_server_cluster_manager maps self).1).member_list
                ≡ none)
          × (get_self maps (run_calls cs (new_server_cluster_manager maps self).1) ≡ panicked)
          × (find_member maps ip port (run_calls cs (new_server_cluster_manager maps self).1)
              ≡ panicked)
    unfolding get_self find_member
    run_calls-new_server_cluster_manager self ip port cs =
        let s = run_calls cs (new_server_cluster_manager maps self).1 in
        let vacant : IsVacant s =
          run_calls-IsVacant cs (new_server_cluster_manager maps self).1
            (ap (λ r. r.1.member_list) (new-lem self)) in
        (
          ap (λ r. r.0) (new-lem self),
          (λ k. unknown k s vacant),
          rw (unknown s.self s vacant, get_self) refl,
          rw (unknown _ s vacant, find_member) refl,
        )
