-- ===== src/Map/Runs.antt =====
-- Any sequence of insertions and removals, against a function from keys to values.
use Prim.Native.Nat.Ordering.{eq}
use sprout_lang.Prelude.{
  ℕ, Option, none, some, List, [], ◌∷◌, ◌≡◌, refl, fun_ext, Outcome, ok, ◌>>=◌,
}
use sprout_lang.Map.{Bst, map_empty, map_set, map_remove}
use sprout_lang.Map.KeyOrder.{Strcmp}
use sprout_lang.Map.Entries.{entries}
use sprout_lang.Map.Entries.Assoc.{find_entry, find_entry-put_entry, find_entry-drop_entry}
use sprout_lang.Map.Laws.{IsMap, map_empty-IsMap, map_set_lem, map_remove_lem}

pub data Update {ℓ} (K : Type ℓ) : Type ℓ where
  set : K → ℕ → Update K
  remove : K → Update K

module _ {ℓ} {K : Type ℓ} ⦃o : Strcmp K⦄ where
  abbrev pub step : Update K → Bst K → Outcome (Bst K)
  step (set key w) m = map_set m (some key) w
  step (remove key) m = map_remove m (some key)

  abbrev pub run : List (Update K) → Bst K → Outcome (Bst K)
  run [] m = ok m
  run (u ∷ us) m = step u m >>= run us

  -- The same updates, on a function.
  abbrev pub apply : Update K → (K → Option ℕ) → K → Option ℕ
  apply (set key w) f q = elim (o.strcmp q key) [ eq ↦ some w | _ ↦ f q ]
  apply (remove key) f q = elim (o.strcmp q key) [ eq ↦ none | _ ↦ f q ]

  abbrev pub replay : List (Update K) → (K → Option ℕ) → K → Option ℕ
  replay [] f = f
  replay (u ∷ us) f = replay us (apply u f)

  abbrev pub values : Bst K → K → Option ℕ
  values m q = find_entry q (entries m)

  step_lem :
      (u : Update K) (m : Bst K)
      → IsMap m
      → (m' : Bst K) × (step u m ≡ ok m') × IsMap m' × (values m' ≡ apply u (values m))
  step_lem (set key w) m h =
      let (m', e, h', es) = map_set_lem m key w h in
      (m', e, h', fun_ext λ q. rw es (find_entry-put_entry key q w (entries m)))
  step_lem (remove key) m h =
      let (m', e, h', es) = map_remove_lem m key h in
      (m', e, h', fun_ext λ q. rw es (find_entry-drop_entry key q (entries m) h.sorted))

  run_lem :
      (us : List (Update K)) (m : Bst K)
      → IsMap m
      → (m' : Bst K) × (run us m ≡ ok m') × IsMap m' × (values m' ≡ replay us (values m))
  run_lem [] m h = (m, refl, h, refl)
  run_lem (u ∷ us) m h =
      let (m', e, h', vs) = step_lem u m h in
      let (n, f, k, ws) = run_lem us m' h' in (n, rw e f, k, rw (← vs) ws)

  -- From the empty map no sequence of updates aborts; it ends in a valid map, whose entries are
  -- what the updates make of the empty function.
  pub run-map_empty :
      (us : List (Update K))
      → (m : Bst K) × (run us map_empty ≡ ok m) × IsMap m × (values m ≡ replay us (λ _. none))
  unfolding map_empty entries find_entry
  run-map_empty us = run_lem us map_empty map_empty-IsMap
