-- ===== src/P2p/Sources/Merged.antt =====
-- When MultiDiscovery finds somebody.
use gpuswarm.Common.{
  Bool, true, false, Str, str, List, [], ◌∷◌, All, Result, ok, err, ◌≡◌, refl, ◌↔◌, ◌⊎◌, inl, inr,
  arith,
}
use gpuswarm.Common.Maps.{GoMap, MapRange, insert}
use gpuswarm.Model.{CapabilityDocument}
use gpuswarm.P2p.Sources.{source_key, add_caps, merge_sources, no_entries, list_merged}

module _ {F : Type 0} where
  -- A source that contributes nothing.
  abbrev pub Silent : Result Str (List (CapabilityDocument F)) → Type 0
  Silent (err e) = Unit
  Silent (ok caps) = caps ≡ []

  insert_some :
      (k : Str) (c : CapabilityDocument F) (m : GoMap (CapabilityDocument F))
      → no_entries (insert k c m) ≡ false
  unfolding no_entries insert
  insert_some k c [] = refl
  insert_some k c ((j, d) ∷ m) = ground arith

  add_caps_some :
      (caps : List (CapabilityDocument F)) (m : GoMap (CapabilityDocument F))
      → no_entries m ≡ false
      → no_entries (add_caps m caps) ≡ false
  unfolding add_caps
  add_caps_some [] m h = h
  add_caps_some (c ∷ caps) m h = add_caps_some caps _ (insert_some (source_key c) c m)

  merge_some :
      (sources : List (Result Str (List (CapabilityDocument F)))) (any_ok : Bool)
      (m : GoMap (CapabilityDocument F))
      → no_entries m ≡ false
      → no_entries (merge_sources any_ok m sources).1 ≡ false
  unfolding merge_sources
  merge_some [] any_ok m h = h
  merge_some (err e ∷ ss) any_ok m h = merge_some ss any_ok m h
  merge_some (ok caps ∷ ss) any_ok m h = merge_some ss true _ (add_caps_some caps m h)

  merge_true :
      (sources : List (Result Str (List (CapabilityDocument F)))) (m : GoMap (CapabilityDocument F))
      → (merge_sources true m sources).0 ≡ true
  unfolding merge_sources
  merge_true [] m = refl
  merge_true (err e ∷ ss) m = merge_true ss m
  merge_true (ok caps ∷ ss) m = merge_true ss _

  merge-Silent :
      (sources : List (Result Str (List (CapabilityDocument F)))) (any_ok : Bool)
      → All Silent sources
      → (merge_sources any_ok [] sources).1 ≡ []
  unfolding merge_sources add_caps
  merge-Silent [] any_ok h = refl
  merge-Silent (err e ∷ ss) any_ok h = merge-Silent ss any_ok h.1
  merge-Silent (ok caps ∷ ss) any_ok h = rw h.0 (merge-Silent ss true h.1)

  -- Every source is silent, or one has answered and the map is not empty.
  sources-cases :
      (sources : List (Result Str (List (CapabilityDocument F)))) (any_ok : Bool)
      → All Silent sources
        ⊎ (((merge_sources any_ok [] sources).0 ≡ true)
            × (no_entries (merge_sources any_ok [] sources).1 ≡ false))
  unfolding merge_sources add_caps
  sources-cases [] any_ok = inl tt
  sources-cases (err e ∷ ss) any_ok = elim (sources-cases ss any_ok) [
    | inl h ↦ inl (tt, h)
    | inr h ↦ inr h
  ]
  sources-cases (ok [] ∷ ss) any_ok = elim (sources-cases ss true) [
    | inl h ↦ inl (refl, h)
    | inr h ↦ inr h
  ]
  sources-cases (ok (c ∷ caps) ∷ ss) any_ok = inr (
    merge_true ss _,
    merge_some ss true _ (add_caps_some caps _ (insert_some (source_key c) c [])),
  )

  Silent-fails :
      (maps : MapRange) (sources : List (Result Str (List (CapabilityDocument F))))
      → All Silent sources
      → list_merged maps sources ≡ err (str "no peers discovered from any source")
  unfolding list_merged no_entries
  Silent-fails maps sources h = rw (merge-Silent sources false h) (ground arith)

  fails-Silent :
      (maps : MapRange) (sources : List (Result Str (List (CapabilityDocument F))))
      → list_merged maps sources ≡ err (str "no peers discovered from any source")
      → All Silent sources
  unfolding list_merged
  fails-Silent maps sources h = elim (sources-cases sources false) [
    | inl s ↦ s
    | inr (a, b) ↦ let k = rw (a, b) at h in cc k
  ]

  -- Discovery over several sources fails exactly when no source that answered has found anybody.
  pub list_merged_fails_iff :
      (maps : MapRange) (sources : List (Result Str (List (CapabilityDocument F))))
      → (list_merged maps sources ≡ err (str "no peers discovered from any source"))
        ↔ All Silent sources
  list_merged_fails_iff maps sources = (fails-Silent maps sources, Silent-fails maps sources)
