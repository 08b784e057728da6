-- ===== src/Cluster/Reports/Failing.antt =====
-- What becomes of the reports of server/cluster/member_manager.go when one is not answered with code 200.
use pole.Prelude.{
  ℕ, false, Option, none, some, List, [], ◌∷◌, ◌++◌, returned, panicked, ◌≡◌, ◌≢◌, refl, ap, ◌∙◌,
  arith, inl, inr,
}
use pole.Prelude.Tests.{Option-cases}
use pole.Prelude.ConcurrentMaps.{ConcurrentMapApi}
use pole.Cluster.Member.{Member, get_identifier}
use pole.Cluster.Manager.{ServerClusterManager, Done, on_fail, impeached}
use pole.Cluster.Reports.{
  Sent, post_answered, next_report, report_one, report_all, handle_report, update_all_meta_data,
}

module _ (maps : ConcurrentMapApi) where
  refused :
      (limit code : ℕ) (m : Member) (s : ServerClusterManager maps)
      → code ≢ 200
      → report_one maps limit (m, post_answered code) s ≡ (panicked, impeached maps m s)
  unfolding report_one on_fail
  refused limit code m s h = ground (arith, h)

  carried :
      (limit : ℕ) (before reports : List (Member × Sent)) (s' t : ServerClusterManager maps)
      (r : Done maps)
      → ((s : ServerClusterManager maps)
          → report_all maps limit before s ≡ (returned tt, s')
          → report_all maps limit reports s ≡ (panicked, t))
      → next_report maps r (report_all maps limit before) ≡ (returned tt, s')
      → next_report maps r (report_all maps limit reports) ≡ (panicked, t)
  carried limit before reports s' t (panicked, s) rest e = ground (arith, e)
  carried limit before reports s' t (returned _, s) rest e = rest s e

  -- A member that answers a report with another code than 200 makes the reports panic: those before
  -- have had their effect, the member is impeached in place, and no report after it has an effect.
  pub report_all_lem :
      (limit code : ℕ) (m : Member) (before after : List (Member × Sent))
      (s s' : ServerClusterManager maps)
      → code ≢ 200
      → report_all maps limit before s ≡ (returned tt, s')
      → report_all maps limit (before ++ (m, post_answered code) ∷ after) s
        ≡ (panicked, impeached maps m s')
  unfolding report_all
  report_all_lem limit code m [] after s s' h e =
      ap (λ r. next_report maps r (report_all maps limit after)) (refused limit code m s h)
      ∙ ap (λ d. (panicked, impeached maps m d.1)) e
  report_all_lem limit code m (r ∷ before) after s s' h e =
      carried limit before (before ++ (m, post_answered code) ∷ after) s' (impeached maps m s')
        (report_one maps limit r s) (λ x. report_all_lem limit code m before after x s' h) e

  -- No report changes what the server that receives it has: the handler answers 400 to what it
  -- cannot read, and panics on every member.
  pub handle_report_lem :
      (remote : Option Member) (s : ServerClusterManager maps)
      → handle_report maps false remote s
        ≡ (elim remote [ none ↦ returned 400 | some _ ↦ panicked ], s)
  unfolding handle_report update_all_meta_data
  handle_report_lem none s = refl
  handle_report_lem (some remote) s =
      elim (Option-cases (maps.get Member (get_identifier remote).0 s.member_list)) [
        | inl e ↦ rw (e, handle_report) refl
        | inr (m, e) ↦ rw (e, handle_report) refl
      ]
