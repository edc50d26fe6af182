-- ===== src/Plugin/Mig/Template.antt =====
-- pkg/plugin/server.go and pkg/util/util.go: the MIG template that a device id names, and what it
-- changes in the configuration of a GPU. An id of an instance is `GPU-...[group-position]`.
use volcano_vgpu_device_plug.Prelude.{
  ℕ, ◌<◌, ◌≡◌, ◌≢◌, refl, sym, Bool, true, false, not, Option, none, some, List, [], ◌∷◌, ◌++◌,
  arith, ◌==◌, if◌then◌else◌, length, any, All, All-append, inr, append_assoc,
}
use volcano_vgpu_device_plug.Prelude.Int.{ℤ, pos, negsuc}
use volcano_vgpu_device_plug.GoText.{Str, str_eq, split, trim_space, Lacks}
use volcano_vgpu_device_plug.GoText.Split.{split_one, split-append}
use volcano_vgpu_device_plug.GoNum.{format_uint, itoa, parse_int, half64}
use volcano_vgpu_device_plug.GoNum.Decimal.{parse_int-itoa, itoa-Lacks, IsDigit, format_uint-digits}
use volcano_vgpu_device_plug.Kube.Dict.{Dict, lookup, insert}
use volcano_vgpu_device_plug.Plugin.Mig.{MigConfigSpec, contains_model, contains_device}

-- config.MigTemplate, without the memory, which is not read here.
pub record MigTemplate : Type 0 where
  pub name : Str
  pub count : ℕ

pub record Geometry : Type 0 where
  pub group : Str
  pub instances : List MigTemplate

pub record AllowedMigGeometries : Type 0 where
  pub models : List Str
  pub geometries : List Geometry

-- parts[1], if there are two
abbrev pub second : List Str → Option Str
second (_ ∷ p ∷ _) = some p
second _ = none

abbrev pub first_two : List Str → Option (Str × Str)
first_two (p ∷ q ∷ _) = some (p, q)
first_two _ = none

-- parts[0], if there are two
abbrev pub first : List Str → Option Str
first (p ∷ _ ∷ _) = some p
first _ = none

-- The part of ExtractMigTemplatesFromUUID behind the brackets.
unfoldable pub group_and_position : Str → Option (Str × ℤ)
group_and_position tmp = elim (first_two (split 45 tmp)) [
  | none ↦ none
  | some (group, position) ↦
      let (n, bad) = parse_int half64 position in
      if length (trim_space group) == 0
      then none
      else if bad
      then none
      else some (trim_space group, n)
]

-- ExtractMigTemplatesFromUUID
unfoldable pub extract_mig_templates : Str → Option (Str × ℤ)
unfolding group_and_position
extract_mig_templates uuid = elim (second (split 91 uuid)) [
  | none ↦ none
  | some tmp ↦ elim (first (split 93 tmp)) [ none ↦ none | some inner ↦ group_and_position inner ]
]

-- The instances of the first geometry of the group.
unfoldable pub instances_of : Str → List Geometry → Option (List MigTemplate)
instances_of group [] = none
instances_of group (g ∷ geometries) =
    if str_eq g.group group then some g.instances else instances_of group geometries

-- `!ok || currentCount != expectedCount`
unfoldable pub differs : Dict ℕ → MigTemplate → Bool
differs current t = elim (lookup t.name current) [
  | none ↦ true
  | some count ↦ not (count == t.count)
]

unfoldable pub needs_reset : Dict ℕ → List MigTemplate → Bool
unfolding differs
needs_reset current v = any (differs current) v

-- The instances of the template in an empty map; the last of a name stays.
unfoldable pub counts : List MigTemplate → Dict ℕ → Dict ℕ
counts [] current = current
counts (t ∷ v) current = counts v (insert t.name t.count current)

-- `MigEnabled = true` stands in the loop, so an empty template does not set it.
-- The map MigDevices is not nil here, where a write to a nil map would be a panic.
unfoldable pub reset : List MigTemplate → MigConfigSpec → MigConfigSpec
unfolding counts
reset v config = record config {
  mig_devices = counts v [];
  mig_enabled = if length v == 0 then config.mig_enabled else true;
}

-- The loop over the entries of the current configuration: the first that has the device is the one.
unfoldable pub apply_template :
    ℕ → List MigTemplate → List MigConfigSpec → List MigConfigSpec × Bool
unfolding needs_reset reset
apply_template devindex v [] = ([], false)
apply_template devindex v (config ∷ configs) =
    let (rest, changed) = apply_template devindex v configs in
    if contains_device devindex config.devices
    then (if needs_reset config.mig_devices v
        then (reset v config ∷ configs, true)
        else (config ∷ configs, false))
    else (config ∷ rest, changed)

-- The first geometries with the model.
unfoldable pub geometries_of : Str → List AllowedMigGeometries → Option (List Geometry)
geometries_of devtype [] = none
geometries_of devtype (allowed ∷ list) =
    if contains_model devtype allowed.models
    then some allowed.geometries
    else geometries_of devtype list

-- What GenerateMigTemplate returns: the configuration that is left, the position, and whether it
-- was changed.
pub record Generated : Type 0 where
  pub current : List MigConfigSpec
  pub position : ℤ
  pub needsreset : Bool

abbrev pub unchanged : List MigConfigSpec → Generated
unchanged current = record { current = current; position = negsuc 0; needsreset = false }

-- GenerateMigTemplate behind the model and behind the template.
unfoldable pub generate_at : ℕ → ℤ → List MigTemplate → List MigConfigSpec → Generated
unfolding apply_template
generate_at devindex position v current =
    let (current', changed) = apply_template devindex v current in
    record { current = current'; position = position; needsreset = changed }

unfoldable pub generate_in : ℕ → Option (Str × ℤ) → List Geometry → List MigConfigSpec → Generated
unfolding instances_of generate_at
generate_in devindex none geometries current = unchanged current
generate_in devindex (some (group, position)) geometries current =
    elim (instances_of group geometries) [
      | none ↦ unchanged current
      | some v ↦ generate_at devindex position v current
    ]

-- GenerateMigTemplate
unfoldable pub generate_mig_template :
    List AllowedMigGeometries → Str → ℕ → Str → List MigConfigSpec → Generated
unfolding geometries_of extract_mig_templates generate_in
generate_mig_template list devtype devindex uuid current = elim (geometries_of devtype list) [
  | none ↦ unchanged current
  | some geometries ↦ generate_in devindex (extract_mig_templates uuid) geometries current
]

abbrev pub LacksAll : List ℕ → Str → Type 0
LacksAll bs s = All (λ b. Lacks b s) bs

dash-digits : (s : Str) → All IsDigit s → Lacks 45 s
dash-digits [] h = tt
dash-digits (c ∷ s) (hc, h) = (ground arith, dash-digits s h)

Lacks-dash : (n : ℕ) → Lacks 45 (itoa (pos n))
unfolding itoa
Lacks-dash n = dash-digits (format_uint n) (format_uint-digits n)

group_and_position-instance :
    (group : Str) (position : ℕ)
    → Lacks 45 group
    → trim_space group ≡ group
    → group ≢ []
    → position < half64
    → group_and_position (group ++ 45 ∷ itoa (pos position)) ≡ some (group, pos position)
unfolding group_and_position
group_and_position-instance group position lacks trim full range =
    rw
      (
        group_and_position,
        split-append 45 group (itoa (pos position)) lacks,
        split_one 45 (itoa (pos position)) (Lacks-dash position),
        parse_int-itoa half64 (pos position) range,
        trim,
      )
      (named group full)
  where
    named :
        (group : Str)
        → group ≢ []
        → if◌then◌else◌ {A = Option (Str × ℤ)} (length group == 0) none (some (group, pos position))
          ≡ some (group, pos position)
    named [] full = absurd (full refl)
    named (c ∷ s) full = ground arith

Lacks-digits : (b n : ℕ) → 57 < b → Lacks b (itoa (pos n))
Lacks-digits b n h = itoa-Lacks b (pos n) (inr h) (omega arith)

-- The group and the position are read back from the id of an instance, if the group is not empty and
-- has no brackets, no dash, and no space around it, the rest of the id has no opening bracket, and the
-- position is an int.
pub extract_mig_templates-instance :
    (gpu group : Str) (position : ℕ)
    → Lacks 91 gpu
    → Lacks 91 group × Lacks 93 group × Lacks 45 group
    → trim_space group ≡ group
    → group ≢ []
    → position < half64
    → extract_mig_templates (gpu ++ 91 ∷ (group ++ 45 ∷ (itoa (pos position) ++ 93 ∷ [])))
      ≡ some (group, pos position)
unfolding extract_mig_templates split
extract_mig_templates-instance gpu group position hg (h91, h93, h45) trim full range =
    let digits = itoa (pos position) in
    let inner =
      All-append (λ c. c ≢ 91) group (45 ∷ (digits ++ 93 ∷ [])) h91
        (
          ground arith,
          All-append (λ c. c ≢ 91) digits (93 ∷ []) (Lacks-digits 91 position (omega arith))
              (ground arith, tt),
        ) in
    let outer =
      All-append (λ c. c ≢ 93) group (45 ∷ digits) h93
        (ground arith, Lacks-digits 93 position (omega arith)) in
    rw
      (
        extract_mig_templates,
        split-append 91 gpu (group ++ 45 ∷ (digits ++ 93 ∷ [])) hg,
        split_one 91 (group ++ 45 ∷ (digits ++ 93 ∷ [])) inner,
        sym (append_assoc group (45 ∷ digits) (93 ∷ [])),
        split-append 93 (group ++ 45 ∷ digits) [] outer,
      )
      (group_and_position-instance group position h45 trim full range)
