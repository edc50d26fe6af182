-- ===== src/Plugin/Watch/Fades.antt =====
-- Two responses of ListAndWatch, before and after a device is marked.
use volcano_vgpu_device_plug.Prelude.{
  ℕ, zero, suc, ◌≡◌, refl, sym, ap, ◌∙◌, Bool, true, false, ◌&&◌, Option, some, List, [], ◌∷◌, ◌++◌,
  any, if◌then◌else◌, arith, >>=-eq-some, some_eq,
}
use mathlib.Core.Path.{subst}
use volcano_vgpu_device_plug.GoText.{Str, codes, str_eq}
use volcano_vgpu_device_plug.GoNum.{format_uint}
use volcano_vgpu_device_plug.Rm.Devices.{Device, Devices, plugin_devices}
use volcano_vgpu_device_plug.Plugin.Entries.{
  ApiDevice, entries_from, entries, memory_entries, registered_mem,
}
use volcano_vgpu_device_plug.Plugin.Watch.{mark, memory_of}

abbrev named : Str → ApiDevice → Bool
named id e = str_eq e.id id

abbrev named_healthy : Str → ApiDevice → Bool
named_healthy id e = str_eq e.id id && e.healthy

-- The later response has the ids of the earlier one, and is healthy at no id where that was not.
abbrev pub Fades : List ApiDevice → List ApiDevice → Type 0
Fades r r' =
    (id : Str)
    → (any (named id) r ≡ any (named id) r')
      × (any (named_healthy id) r' ≡ true → any (named_healthy id) r ≡ true)

-- The same, device by device.
abbrev Dims : Device → Device → Type 0
Dims d d' = (d.id ≡ d'.id) × (d'.healthy ≡ true → d.healthy ≡ true)

marked-Dims : (d : Device) (b : Bool) → Dims d (if b then record d { healthy = false } else d)
marked-Dims d true = (refl, λ h. absurd (ground arith))
marked-Dims d false = (refl, λ h. h)

Fades-refl : (r : List ApiDevice) → Fades r r
Fades-refl r id = (refl, λ h. h)

pub Fades-trans : (r r' r'' : List ApiDevice) → Fades r r' → Fades r' r'' → Fades r r''
Fades-trans r r' r'' h k id = ((h id).0 ∙ (k id).0, λ e. (h id).1 ((k id).1 e))

any-append :
    (p : ApiDevice → Bool) (r r' : List ApiDevice)
    → any p (r ++ r') ≡ (if any p r then true else any p r')
any-append p [] r' = refl
any-append p (e ∷ r) r' = ground (arith, any-append p r r')

Fades-append : (r r' q q' : List ApiDevice) → Fades r r' → Fades q q' → Fades (r ++ q) (r' ++ q')
Fades-append r r' q q' h k id =
    let a = any-append (named id) r q in
    let a' = any-append (named id) r' q' in
    let b = any-append (named_healthy id) r q in
    let b' = any-append (named_healthy id) r' q' in
    let (h₀, h₁) = h id in let (k₀, k₁) = k id in (ground arith, λ e. ground arith)

Fades-cons :
    (e e' : ApiDevice) (r r' : List ApiDevice)
    → e.id ≡ e'.id
    → (e'.healthy ≡ true → e.healthy ≡ true)
    → Fades r r'
    → Fades (e ∷ r) (e' ∷ r')
Fades-cons e e' r r' same dims h id = let (h₀, h₁) = h id in (ground arith, λ k. ground arith)

entries_from-Fades :
    (middle : Str) (d d' : Device) (i n : ℕ)
    → Dims d d'
    → Fades (entries_from middle d i n) (entries_from middle d' i n)
unfolding entries_from
entries_from-Fades middle d d' i zero h = Fades-refl []
entries_from-Fades middle d d' i (suc n) (same, dims) =
    Fades-cons _ _ (entries_from middle d (suc i) n) (entries_from middle d' (suc i) n)
      (ap (λ x. x ++ (middle ++ format_uint i)) same) dims
      (entries_from-Fades middle d d' (suc i) n (same, dims))

pub entries-Fades :
    (middle : Str) (n : ℕ) (id : Str) (ds : Devices)
    → Fades (entries middle n (plugin_devices ds)) (entries middle n (plugin_devices (mark id ds)))
unfolding entries plugin_devices mark
entries-Fades middle n id [] = Fades-refl []
entries-Fades middle n id ((k, d) ∷ ds) =
    let d' = if str_eq k id then record d { healthy = false } else d in
    Fades-append (entries_from middle d 0 n) (entries_from middle d' 0 n) _ _
      (entries_from-Fades middle d d' 0 n (marked-Dims d (str_eq k id)))
      (entries-Fades middle n id ds)

module _ (total : Str → ℕ) (factor : ℕ) where
  answered :
      (answers : Str → Bool) (id : Str) (t : ℕ) → memory_of total answers id ≡ some t → total id ≡ t
  answered answers id t h = ground arith

  memory_entries-cons :
      (answers : Str → Bool) (d : Device) (ds : List Device) (r : List ApiDevice)
      → memory_entries (memory_of total answers) factor (d ∷ ds) ≡ some r
      → (n : ℕ) × (rest : List ApiDevice) × (registered_mem (total d.id) factor ≡ some n)
        × (memory_entries (memory_of total answers) factor ds ≡ some rest)
        × (entries_from (codes "-memory-") d 0 n ++ rest ≡ r)
  unfolding memory_entries
  memory_entries-cons answers d ds r h =
      let (t, ht, h₁) = >>=-eq-some (memory_of total answers d.id) _ h in
      let (n, hn, h₂) = >>=-eq-some (registered_mem t factor) _ h₁ in
      let (rest, hr, h₃) = >>=-eq-some (memory_entries (memory_of total answers) factor ds) _ h₂ in
      (n, rest, ap (λ x. registered_mem x factor) (answered answers d.id t ht) ∙ hn, hr, cc)

  pub memory_entries-Fades :
      (answers answers' : Str → Bool) (id : Str) (ds : Devices) (r r' : List ApiDevice)
      → memory_entries (memory_of total answers) factor (plugin_devices ds) ≡ some r
      → memory_entries (memory_of total answers') factor (plugin_devices (mark id ds)) ≡ some r'
      → Fades r r'
  unfolding plugin_devices mark memory_entries
  memory_entries-Fades answers answers' id [] r r' h h' =
      subst (Fades r) (some_eq (sym h ∙ h')) (Fades-refl r)
  memory_entries-Fades answers answers' id ((k, d) ∷ ds) r r' h h' =
      let d' = if str_eq k id then record d { healthy = false } else d in
      let dims = marked-Dims d (str_eq k id) in
      let (n, q, hn, hq, hr) = memory_entries-cons answers d (plugin_devices ds) r h in
      let (n', q', hn', hq', hr') =
        memory_entries-cons answers' d' (plugin_devices (mark id ds)) r' h' in
      let same : n ≡ n' =
        some_eq (sym hn ∙ ap (λ x. registered_mem (total x) factor) dims.0 ∙ hn') in
      let later : entries_from (codes "-memory-") d' 0 n ++ q' ≡ r' =
        ap (λ m. entries_from (codes "-memory-") d' 0 m ++ q') same ∙ hr' in
      subst (λ x. Fades x r') hr
        (subst (λ y. Fades (entries_from (codes "-memory-") d 0 n ++ q) y) later
          (Fades-append (entries_from (codes "-memory-") d 0 n)
            (entries_from (codes "-memory-") d' 0 n) q q'
            (entries_from-Fades (codes "-memory-") d d' 0 n dims)
            (memory_entries-Fades answers answers' id ds q q' hq hq')))

-- The three kinds of resources, before and after.
pub by_resource-Fades :
    (b b' : Bool) (m m' : Option (List ApiDevice)) (c c' e e' r r' : List ApiDevice)
    → (if b then m else if b' then some c else some e) ≡ some r
    → (if b then m' else if b' then some c' else some e') ≡ some r'
    → (m ≡ some r → m' ≡ some r' → Fades r r')
    → Fades c c'
    → Fades e e'
    → Fades r r'
by_resource-Fades true b' m m' c c' e e' r r' h h' f g k = f h h'
by_resource-Fades false true m m' c c' e e' r r' h h' f g k =
    subst (λ x. Fades x r') (some_eq h) (subst (Fades c) (some_eq h') g)
by_resource-Fades false false m m' c c' e e' r r' h h' f g k =
    subst (λ x. Fades x r') (some_eq h) (subst (Fades e) (some_eq h') k)
