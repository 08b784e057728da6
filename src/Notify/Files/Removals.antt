-- ===== src/Notify/Files/Removals.antt =====
-- Whom the center of the file watchers notifies after a removal.
use pole.Prelude.{
  ℕ, ◌≡◌, refl, false, ◌&&◌, inl, inr, none, some, List, [], ◌∷◌, arith, All, Text, lookup, insert,
  str_eq, str_eq_refl, returned, if◌then◌else◌,
}
use pole.Prelude.Tests.{Bool-cases}
use pole.Notify.Files.{
  FileChangeEvent, FileWatcher, WatcherCenter, init_watcher_center, register_file_watcher,
  remove_element, is_one_of, remove_file_watcher, notify_named,
}

-- The calls with `e`, of those that are to be removed and watch the file.
unfoldable pub calls_of :
    List FileWatcher
    → FileChangeEvent
    → List FileWatcher
    → List (ℕ × FileChangeEvent)
    → List (ℕ × FileChangeEvent)
calls_of removed e [] before = before
calls_of removed e (f ∷ fws) before =
    if is_one_of removed f && str_eq f.file_name e.file_name
    then calls_of removed e fws ((f.id, e) ∷ before)
    else calls_of removed e fws before

notify_named-remove_element :
    (removed fws : List FileWatcher) (e : FileChangeEvent) (w : WatcherCenter)
    → All (λ (f : FileWatcher). (e : FileChangeEvent) → f.fails_on e ≡ false) fws
    → notify_named e (remove_element (is_one_of removed) fws) w
      ≡ (returned tt, record w { notified = calls_of removed e fws w.notified })
unfolding notify_named remove_element calls_of
notify_named-remove_element removed [] e w calm = refl
notify_named-remove_element removed (f ∷ fws) e w calm =
    let rest = notify_named-remove_element removed fws e w calm.1 in
    elim (Bool-cases (is_one_of removed f)) [
      | inl meant ↦
          let next =
            notify_named-remove_element removed fws e
              (record w { notified = (f.id, e) ∷ w.notified }) calm.1 in
          ground (arith, meant, calm.0 e, next, rest)
      | inr spared ↦ rw spared rest
    ]

abbrev left_over : Text → List FileWatcher → WatcherCenter
left_over path fws = record { watcher_map = (path, fws) ∷ []; notified = [] }

removed_lem :
    (path : Text) (fws removed : List FileWatcher)
    → (remove_file_watcher none path removed
        (register_file_watcher none path fws init_watcher_center).1).1
      ≡ some (left_over path (remove_element (is_one_of removed) fws))
unfolding remove_file_watcher register_file_watcher init_watcher_center insert lookup
removed_lem path fws removed = rw (str_eq_refl path, str_eq_refl path) refl

some_inj : {A : Type 0} {a b : A} → some a ≡ some b → a ≡ b
some_inj {A} {a} {b} e = ground (arith, e)
