-- ===== src/Cluster/Changes.antt =====
-- What becomes of the member list.
use pole.Prelude.{
  ◌≡◌, refl, Bool, ◌==◌, Option, none, some, List, [], ◌∷◌, length, Text, inl, inr, returned,
  panicked, if◌then◌else◌,
}
use pole.Prelude.Outcomes.{Outcome-cases}
use pole.Prelude.Tests.{Bool-cases}
use pole.Prelude.ConcurrentMaps.{ConcurrentMapApi, IsNilMap}
use pole.Cluster.Member.{Member, get_identifier, multi_parse, parse_all, nils}
use pole.Cluster.Manager.{
  ServerClusterManager, get_member_list, notify_subscriber, collect, replace, member_change,
  on_event,
}

module _ (maps : ConcurrentMapApi) where
  -- A file with at least one line never takes effect: the request panics, at an address that does not
  -- parse or at a nil member, and the members stay as they were.
  pub on_event_panics :
      (line : Text) (lines : List Text) (s : ServerClusterManager maps)
      → on_event maps (line ∷ lines) s ≡ (panicked, s)
  unfolding on_event multi_parse member_change collect nils
  on_event_panics line lines s = elim (Outcome-cases (parse_all (line ∷ lines))) [
    | inl e ↦ rw (e, on_event, multi_parse) refl
    | inr (ms, e) ↦ rw (e, on_event, multi_parse) refl
  ]

  module _ (laws : IsNilMap maps) where
    collect-zero :
        (o : Option Member) (ms : List (Option Member)) (old : maps.Map Member) (changed : Bool)
        → collect maps (o ∷ ms) old changed (maps.zero Member) ≡ panicked
    unfolding collect
    collect-zero none ms old changed = refl
    collect-zero (some m) ms old changed =
        rw (laws.put-zero Member (get_identifier m).0 (get_identifier m).1, collect) refl

    -- A change to at least one member panics and leaves everything as it was: the new list cannot take
    -- its first member. A change to no member empties the list, and publishes what the empty list holds,
    -- nothing, if there was no member before.
    pub member_change_lem :
        (ms : List (Option Member)) (s : ServerClusterManager maps)
        → member_change maps ms s ≡ (elim ms [
          | _ ∷ _ ↦ (panicked, s)
          | [] ↦ (
            returned tt,
            record s {
              member_list = maps.zero Member;
              published =
                  if 0 == maps.size Member s.member_list then [] ∷ s.published else s.published;
            },
          )
        ])
    unfolding member_change replace notify_subscriber get_member_list collect
    member_change_lem [] s = elim (Bool-cases (0 == maps.size Member s.member_list)) [
      | inl e ↦ rw (e, laws.values-zero Member, member_change, replace) refl
      | inr e ↦ rw (e, member_change, replace) refl
    ]
    member_change_lem (o ∷ ms) s =
        rw
          (
            collect-zero o ms s.member_list (length (o ∷ ms) == maps.size Member s.member_list),
            member_change,
          )
          refl
