-- ===== src/Prelude/ListMaps.antt =====
-- Concurrent maps that are association lists, with a nil map as the zero value: for tests.
use mathlib.Core.Path.{refl}
use mathlib.Core.Option.{Option, none, some}
use mathlib.Core.List.{[], map}
use pole.Prelude.Strings.{Text}
use pole.Prelude.Lists.{length}
use pole.Prelude.Maps.{Dict, lookup, insert, erase, lookup-nil}
use pole.Prelude.Outcomes.{Outcome, returned, panicked}
use pole.Prelude.ConcurrentMaps.{ConcurrentMapApi, IsNilMap}

abbrev entries : {V : Type 0} → Option (Dict V) → Dict V
entries none = []
entries (some m) = m

abbrev insert_made : {V : Type 0} → Text → V → Option (Dict V) → Outcome (Option (Dict V))
insert_made k v none = panicked
insert_made k v (some m) = returned (some (insert k v m))

abbrev erase_made : {V : Type 0} → Text → Option (Dict V) → Option (Dict V)
erase_made k none = none
erase_made k (some m) = some (erase k m)

abbrev pub lists : ConcurrentMapApi
lists = record {
  Map = λ V. Option (Dict V);
  zero = λ V. none;
  get = λ V k m. lookup k (entries m);
  put = λ V k v m. insert_made k v m;
  remove = λ V k m. erase_made k m;
  keys = λ V m. map (λ e. e.0) (entries m);
  values = λ V m. map (λ e. e.1) (entries m);
  size = λ V m. length (entries m);
}

pub lists-IsNilMap : IsNilMap lists
lists-IsNilMap = record {
  get-zero = λ V k. lookup-nil k;
  put-zero = λ V k v. refl;
  keys-zero = λ V. refl;
  values-zero = λ V. refl;
}
