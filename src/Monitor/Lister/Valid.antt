-- ===== src/Monitor/Lister/Valid.antt =====
-- Which containers a round of Update leaves.
use volcano_vgpu_device_plug.Prelude.{
  ℕ, ◌≡◌, refl, sym, ap, ◌∙◌, Bool, true, false, not, none, some, List, [], ◌∷◌, All, is_none,
  if◌then◌else◌, arith, >>=-eq-some, some_eq, get_elem?, Bool-cases, inl, inr,
}
use volcano_vgpu_device_plug.GoText.{Str, str_eq, str_eq_iff, str_eq_refl, split}
use volcano_vgpu_device_plug.Kube.Dict.{Dict, lookup, insert, remove, lookup-insert, lookup-remove}
use volcano_vgpu_device_plug.Monitor.Lister.{
  Cache, not_loaded, no_cache, usage, is_valid_pod, Entry, ContainerUsage, ContainerLister,
  is_recent, add_container, add_cache, update_entry, update_loop, update,
}

-- The lister does not have the container.
abbrev pub Lacks : ContainerLister → Str → Type 0
Lacks l name = lookup name l.containers ≡ none

Lacks-insert :
    (name other : Str) (c : ContainerUsage) (containers : Dict ContainerUsage)
    → str_eq name other ≡ false
    → lookup other containers ≡ none
    → lookup other (insert name c containers) ≡ none
Lacks-insert name other c containers apart k =
    lookup-insert name other c containers
    ∙ ap (λ b. if b then some c else lookup other containers) apart
    ∙ k

names_apart :
    (uids : List Str) (name other : Str)
    → is_valid_pod name uids ≡ true
    → is_valid_pod other uids ≡ false
    → str_eq name other ≡ false
names_apart uids name other v i = elim (Bool-cases (str_eq name other)) [
  | inr e ↦ e
  | inl e ↦
      let same = (str_eq_iff name other).0 e in
      absurd (clash (sym v ∙ ap (λ x. is_valid_pod x uids) same ∙ i))
]
  where
    clash : true ≡ false → ⊥
    clash k = ground arith

add_cache-Lacks :
    (uids : List Str) (name other : Str) (c : Cache) (l l' : ContainerLister)
    → add_cache name c l ≡ some l'
    → is_valid_pod name uids ≡ true
    → is_valid_pod other uids ≡ false
    → Lacks l other
    → Lacks l' other
unfolding add_container
add_cache-Lacks uids name other not_loaded l l' h v i k =
    ap (λ (x : ContainerLister). lookup other x.containers) (sym (some_eq h)) ∙ k
add_cache-Lacks uids name other no_cache l l' h v i k =
    ap (λ (x : ContainerLister). lookup other x.containers) (sym (some_eq h)) ∙ k
add_cache-Lacks uids name other (usage info) l l' h v i k =
    let (pod_uid, h₀, h₁) = >>=-eq-some (get_elem? (split 95 name) 0) _ h in
    let (container_name, h₂, h₃) = >>=-eq-some (get_elem? (split 95 name) 1) _ h₁ in
    ap (λ (x : ContainerLister). lookup other x.containers) (sym (some_eq h₃))
    ∙ Lacks-insert name other _ l.containers (names_apart uids name other v i) k

update_entry-Lacks :
    (uids : List Str) (now : ℕ) (e : Entry) (other : Str) (l l' : ContainerLister)
    → update_entry uids now e l ≡ some l'
    → is_valid_pod other uids ≡ false
    → Lacks l other
    → Lacks l' other
unfolding update_entry
update_entry-Lacks uids now e other l l' h i k =
    round e.is_dir (is_valid_pod e.name uids) (is_recent now e)
      (not (is_none (lookup e.name l.containers))) refl h
  where
    Lacks-remove : (b : Bool) → (if b then none else lookup other l.containers) ≡ none
    Lacks-remove true = refl
    Lacks-remove false = k

    round :
        (dir valid recent known : Bool)
        → is_valid_pod e.name uids ≡ valid
        → (if not dir
            then some l
            else if not valid
            then (if recent
                then some l
                else some (record {
                  containers = remove e.name l.containers;
                  removed = e.name ∷ l.removed;
                }))
            else if known
            then some l
            else add_cache e.name e.cache l)
          ≡ some l'
        → Lacks l' other
    round false valid recent known v g =
        ap (λ (x : ContainerLister). lookup other x.containers) (sym (some_eq g)) ∙ k
    round true false true known v g =
        ap (λ (x : ContainerLister). lookup other x.containers) (sym (some_eq g)) ∙ k
    round true false false known v g =
        ap (λ (x : ContainerLister). lookup other x.containers) (sym (some_eq g))
        ∙ lookup-remove e.name other l.containers
        ∙ Lacks-remove (str_eq e.name other)
    round true true recent true v g =
        ap (λ (x : ContainerLister). lookup other x.containers) (sym (some_eq g)) ∙ k
    round true true recent false v g = add_cache-Lacks uids e.name other e.cache l l' g v i k

update_loop-Lacks :
    (uids : List Str) (now : ℕ) (entries : List Entry) (other : Str) (l l' : ContainerLister)
    → update_loop uids now entries l ≡ some l'
    → is_valid_pod other uids ≡ false
    → Lacks l other
    → Lacks l' other
unfolding update_loop
update_loop-Lacks uids now [] other l l' h i k =
    ap (λ (x : ContainerLister). lookup other x.containers) (sym (some_eq h)) ∙ k
update_loop-Lacks uids now (e ∷ entries) other l l' h i k =
    let (l₁, first, rest) = >>=-eq-some (update_entry uids now e l) _ h in
    update_loop-Lacks uids now entries other l₁ l' rest i
      (update_entry-Lacks uids now e other l l₁ first i k)

-- A directory of no pod, not changed for a while.
abbrev pub IsStale : List Str → ℕ → Entry → Type 0
IsStale uids now e =
    (e.is_dir ≡ true) × (is_valid_pod e.name uids ≡ false) × (is_recent now e ≡ false)

update_entry-IsStale :
    (uids : List Str) (now : ℕ) (e : Entry) (l l' : ContainerLister)
    → update_entry uids now e l ≡ some l'
    → IsStale uids now e
    → Lacks l' e.name
unfolding update_entry
update_entry-IsStale uids now e l l' h (d, v, r) =
    let removed : some
          (record { containers = remove e.name l.containers; removed = e.name ∷ l.removed })
        ≡ some l' =
      ground arith in
    ap (λ (x : ContainerLister). lookup e.name x.containers) (sym (some_eq removed))
    ∙ lookup-remove e.name e.name l.containers
    ∙ ap (λ b. if b then none else lookup e.name l.containers) (str_eq_refl e.name)

update_loop-IsStale :
    (uids : List Str) (now : ℕ) (entries : List Entry) (l l' : ContainerLister)
    → update_loop uids now entries l ≡ some l'
    → All (λ (e : Entry). IsStale uids now e → Lacks l' e.name) entries
unfolding update_loop
update_loop-IsStale uids now [] l l' h = tt
update_loop-IsStale uids now (e ∷ entries) l l' h =
    let (l₁, first, rest) = >>=-eq-some (update_entry uids now e l) _ h in
    (
      (λ (stale : IsStale uids now e).
          update_loop-Lacks uids now entries e.name l₁ l' rest stale.1
            (update_entry-IsStale uids now e l l₁ first stale)),
      update_loop-IsStale uids now entries l₁ l' rest,
    )

-- When Update returns without an error, the lister lacks the container of every directory that it
-- read whose name has the UID of no pod and which was not changed in the last 300 seconds, and it has
-- gained no container whose name has the UID of no pod.
pub update-Lacks :
    (uids : List Str) (now : ℕ) (entries : List Entry) (l l' : ContainerLister)
    → update (some uids) now (some entries) l ≡ some (true, l')
    → All (λ (e : Entry). IsStale uids now e → Lacks l' e.name) entries
      × ((name : Str) → is_valid_pod name uids ≡ false → Lacks l name → Lacks l' name)
unfolding update
update-Lacks uids now entries l l' h =
    let (l₁, ran, same) = >>=-eq-some (update_loop uids now entries l) _ h in
    let run : update_loop uids now entries l ≡ some l' =
      ran ∙ ap some (ap (λ (x : Bool × ContainerLister). x.1) (some_eq same)) in
    (
      update_loop-IsStale uids now entries l l' run,
      λ name i k. update_loop-Lacks uids now entries name l l' run i k,
    )
