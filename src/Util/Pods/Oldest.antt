-- ===== src/Util/Pods/Oldest.antt =====
-- getOldestPod as a search for a least time among the pods that match.
use mathlib.Core.Path.{subst}
use volcano_vgpu_device_plug.Prelude.{
  ℕ, ◌≤◌, ◌≡◌, refl, ◌⊎◌, inl, inr, Bool, true, false, ◌&&◌, Option, none, some, List, [], ◌∷◌,
  arith, ltb, ◌==◌, >>=-eq-some, some_eq, Bool-cases, filter, Member, Member-filter, Option-cases,
  ◌∙◌, sym,
}
use volcano_vgpu_device_plug.GoText.{Str, str_eq}
use volcano_vgpu_device_plug.Kube.Objects.{Pod, annotation}
use volcano_vgpu_device_plug.Util.Types.{
  assigned_ids_to_allocate_annotations, assigned_node_annotations,
}
use volcano_vgpu_device_plug.Util.Codec.{decode_pod_devices}
use volcano_vgpu_device_plug.Util.Pods.{
  predicate_time, filter_pods, earlier, oldest_loop, oldest_of, get_oldest_pod, last,
}

-- Whether the annotation of a pod lists so many devices; an annotation that cannot be read does not.
abbrev pub lists_devices : Pod → ℕ → Bool
lists_devices p gpu_amount =
    elim (decode_pod_devices (annotation assigned_ids_to_allocate_annotations p)) [
      | none ↦ false
      | some (_, count) ↦ count == gpu_amount
    ]

-- The pod is assigned to the node, and its annotation lists the requested number of devices.
abbrev pub is_candidate : Str → ℕ → Pod → Bool
is_candidate nodename gpu_amount p =
    str_eq (annotation assigned_node_annotations p) nodename && lists_devices p gpu_amount

-- What a call that did not panic has found.
abbrev pub IsOldest : List Pod → Str → ℕ → Option Pod → Type 0
IsOldest pods nodename gpu_amount none =
    (q : Pod) → Member q pods → is_candidate nodename gpu_amount q ≡ false
IsOldest pods nodename gpu_amount (some p) =
    Member p pods
    × (is_candidate nodename gpu_amount p ≡ true)
    × ((q : Pod)
        → Member q pods
        → is_candidate nodename gpu_amount q ≡ true
        → predicate_time p ≤ predicate_time q)

filter_pods-eq-filter :
    (nodename : Str) (gpu_amount : ℕ) (pods : List Pod) {filtered : List Pod}
    → filter_pods nodename gpu_amount pods ≡ some filtered
    → filtered ≡ filter (is_candidate nodename gpu_amount) pods
unfolding filter_pods
filter_pods-eq-filter nodename gpu_amount [] h = ground arith
filter_pods-eq-filter nodename gpu_amount (pod ∷ pods) h =
    elim (Option-cases (filter_pods nodename gpu_amount pods)) [
      | inl e ↦ ground arith
      | inr (rest, e) ↦ ground (arith, filter_pods-eq-filter nodename gpu_amount pods e)
    ]

earlier-cases :
    (o p : Pod)
    → (earlier o p ≡ p) × (predicate_time p ≤ predicate_time o)
      ⊎ (earlier o p ≡ o) × (predicate_time o ≤ predicate_time p)
unfolding earlier
earlier-cases o p = elim (Bool-cases (ltb (predicate_time p) (predicate_time o))) [
  | inl e ↦ inl (rw e refl, ground arith)
  | inr e ↦ inr (rw e refl, ground arith)
]

earlier-le :
    (o p : Pod)
    → (predicate_time (earlier o p) ≤ predicate_time o)
      × (predicate_time (earlier o p) ≤ predicate_time p)
earlier-le o p = elim (earlier-cases o p) [
  | inl (e, le) ↦ rw e (omega arith)
  | inr (e, le) ↦ rw e (omega arith)
]

oldest_loop_cons :
    (o p : Pod) (ps : List Pod) → oldest_loop o (p ∷ ps) ≡ oldest_loop (earlier o p) ps
unfolding oldest_loop
oldest_loop_cons o p ps = refl

oldest_loop-Member :
    (o : Pod) (ps : List Pod) → (oldest_loop o ps ≡ o) ⊎ Member (oldest_loop o ps) ps
oldest_loop-Member o [] = inl (unfold oldest_loop in refl)
oldest_loop-Member o (p ∷ ps) =
    subst (λ x. (x ≡ o) ⊎ Member x (p ∷ ps)) (sym (oldest_loop_cons o p ps))
      (elim (oldest_loop-Member (earlier o p) ps) [
        | inl d ↦ elim (earlier-cases o p) [
          | inl (e, _) ↦ inr (inl (d ∙ e))
          | inr (e, _) ↦ inl (d ∙ e)
        ]
        | inr m ↦ inr (inr m)
      ])

oldest_loop-le : (o : Pod) (ps : List Pod) → predicate_time (oldest_loop o ps) ≤ predicate_time o
oldest_loop-le o [] = unfold oldest_loop in omega arith
oldest_loop-le o (p ∷ ps) =
    rw (oldest_loop_cons o p ps) (omega (arith, oldest_loop-le (earlier o p) ps, earlier-le o p))

oldest_loop-least :
    (ps : List Pod) (o q : Pod) → Member q ps → predicate_time (oldest_loop o ps) ≤ predicate_time q
oldest_loop-least [] o q m = elim m [ ]
oldest_loop-least (p ∷ ps) o q (inr m) =
    rw (oldest_loop_cons o p ps) (oldest_loop-least ps (earlier o p) q m)
oldest_loop-least (p ∷ ps) o q (inl e) =
    rw (oldest_loop_cons o p ps, e) (omega (arith, oldest_loop-le (earlier o p) ps, earlier-le o p))

last-Member : (p : Pod) (ps : List Pod) → Member (last p ps) (p ∷ ps)
last-Member p [] = inl refl
last-Member p (q ∷ ps) = inr (last-Member q ps)

IsOldest-oldest_of :
    (pods : List Pod) (nodename : Str) (gpu_amount : ℕ) (filtered : List Pod)
    → filtered ≡ filter (is_candidate nodename gpu_amount) pods
    → IsOldest pods nodename gpu_amount (oldest_of filtered)
unfolding oldest_of
IsOldest-oldest_of pods nodename gpu_amount [] e = λ q m.
    elim (Bool-cases (is_candidate nodename gpu_amount q)) [
      | inl c ↦ absurd (
          subst (Member q) (sym e)
            ((Member-filter (is_candidate nodename gpu_amount) q pods).1 (m, c)))
      | inr c ↦ c
    ]
IsOldest-oldest_of pods nodename gpu_amount (p ∷ ps) e =
    let found : Member (oldest_loop (last p ps) (p ∷ ps)) (p ∷ ps) =
      elim (oldest_loop-Member (last p ps) (p ∷ ps)) [
        | inl d ↦ subst (λ x. Member x (p ∷ ps)) (sym d) (last-Member p ps)
        | inr m ↦ m
      ] in
    let (listed, chosen) =
      (Member-filter (is_candidate nodename gpu_amount) (oldest_loop (last p ps) (p ∷ ps)) pods).0
        (subst (Member (oldest_loop (last p ps) (p ∷ ps))) e found) in
    (
      listed,
      chosen,
      λ q m c. oldest_loop-least (p ∷ ps) _ q (
          subst (Member q) (sym e)
            ((Member-filter (is_candidate nodename gpu_amount) q pods).1 (m, c))),
    )

-- When getOldestPod returns, it returns a pod of the list that is assigned to the node, lists the
-- requested number of devices and has the earliest time of all such pods; it returns none only if
-- there is no such pod.
pub get_oldest_pod-IsOldest :
    (pods : List Pod) (nodename : Str) (gpu_amount : ℕ) {found : Option Pod}
    → get_oldest_pod pods nodename gpu_amount ≡ some found
    → IsOldest pods nodename gpu_amount found
unfolding get_oldest_pod
get_oldest_pod-IsOldest pods nodename gpu_amount {found} h =
    let (filtered, e, d) =
      >>=-eq-some (filter_pods nodename gpu_amount pods) (λ f. some (oldest_of f)) h in
    subst (IsOldest pods nodename gpu_amount) (some_eq d) (
      IsOldest-oldest_of pods nodename gpu_amount filtered
        (filter_pods-eq-filter nodename gpu_amount pods e))
