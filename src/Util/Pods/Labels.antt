-- ===== src/Util/Pods/Labels.antt =====
-- The short hash of a revision, and the labels of a pod after one was set.
use kruise.Prelude.{◌≡◌, String, str_eq, none, some, arith, if◌then◌else◌, Option-cases, inl, inr}
use kruise.Prelude.Assoc.{insert, lookup-insert}
use kruise.Util.Pods.{Pod, label, after_dash, get_short_hash}

after_dash-none : (s t : String) → after_dash s ≡ some t → after_dash t ≡ none
unfolding after_dash
after_dash-none String.[] t e = ground arith
after_dash-none (String.◌∷◌ c s) t e = elim (Option-cases (after_dash s)) [
  | inr (u, later) ↦ ground (arith, later, after_dash-none s u later)
  | inl last ↦ ground (arith, last)
]

-- Behind the last dash there is none, so that a short hash is its own short hash.
pub get_short_hash_idem : (s : String) → get_short_hash (get_short_hash s) ≡ get_short_hash s
unfolding get_short_hash
get_short_hash_idem s = elim (Option-cases (after_dash s)) [
  | inl whole ↦ ground (arith, whole)
  | inr (t, e) ↦ ground (arith, e, after_dash-none s t e)
]

-- Reading a label after one was set.
pub label-insert :
    (k j v : String) (pod : Pod)
    → label j (record pod { labels = insert k v pod.labels })
      ≡ (if str_eq k j then v else label j pod)
label-insert k j v pod = ground (arith, lookup-insert k j v pod.labels)
