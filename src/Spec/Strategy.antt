-- ===== src/Spec/Strategy.antt =====
-- api/config/v1/strategy.go: the strategies for passing a list of devices to a container.
use volcano_vgpu_device_plug.Prelude.{
  ◌≡◌, Bool, true, false, not, ◌&&◌, ◌||◌, Option, none, some, List, [], ◌∷◌, arith, any,
  Option-cases, inl, inr,
}
use volcano_vgpu_device_plug.GoText.{Str, codes, str_eq, str_eq_iff, has_prefix}
use volcano_vgpu_device_plug.Kube.Dict.{Dict, lookup, insert, lookup-insert}

abbrev pub DeviceListStrategies : Type 0
DeviceListStrategies = Dict Bool

abbrev pub envvar : Str
envvar = codes "envvar"

abbrev pub volume_mounts : Str
volume_mounts = codes "volume-mounts"

abbrev pub cdi_annotations : Str
cdi_annotations = codes "cdi-annotations"

abbrev pub cdi_cri : Str
cdi_cri = codes "cdi-cri"

abbrev cdi_prefix : Str
cdi_prefix = codes "cdi-"

abbrev flag_or_false : Option Bool → Bool
flag_or_false none = false
flag_or_false (some v) = v

-- Includes
unfoldable pub includes : Str → DeviceListStrategies → Bool
includes strategy s = flag_or_false (lookup strategy s)

-- The loop of NewDeviceListStrategies; `none` is the error about a strategy that is not known.
unfoldable pub strategies_loop : DeviceListStrategies → List Str → Option DeviceListStrategies
strategies_loop ret [] = some ret
strategies_loop ret (s ∷ strategies) = elim (lookup s ret) [
  | none ↦ none
  | some _ ↦ strategies_loop (insert s true ret) strategies
]

unfoldable pub no_strategies : DeviceListStrategies
no_strategies =
    (envvar, false) ∷ (volume_mounts, false) ∷ (cdi_annotations, false) ∷ (cdi_cri, false) ∷ []

-- NewDeviceListStrategies
unfoldable pub new_device_list_strategies : List Str → Option DeviceListStrategies
unfolding strategies_loop no_strategies
new_device_list_strategies strategies = strategies_loop no_strategies strategies

-- AnyCDIEnabled
unfoldable pub any_cdi_enabled : DeviceListStrategies → Bool
any_cdi_enabled s = any (λ (e : Str × Bool). has_prefix e.0 cdi_prefix && e.1) s

-- AllCDIEnabled
unfoldable pub all_cdi_enabled : DeviceListStrategies → Bool
all_cdi_enabled s = not (any (λ (e : Str × Bool). not (has_prefix e.0 cdi_prefix) && e.1) s)

strategies_loop-includes :
    (ret ret' : DeviceListStrategies) (strategies : List Str) (k : Str)
    → strategies_loop ret strategies ≡ some ret'
    → includes k ret' ≡ (any (str_eq k) strategies || includes k ret)
unfolding strategies_loop includes
strategies_loop-includes ret ret' [] k h = ground arith
strategies_loop-includes ret ret' (s ∷ strategies) k h = elim (Option-cases (lookup s ret)) [
  | inl e ↦ ground arith
  | inr (v, e) ↦ ground (
    arith,
    str_eq_iff s k,
    str_eq_iff k s,
    lookup-insert s k true ret,
    λ (g : strategies_loop (insert s true ret) strategies ≡ some ret').
        strategies_loop-includes (insert s true ret) ret' strategies k g,
  )
]

includes-none : (k : Str) → includes k no_strategies ≡ false
unfolding includes no_strategies lookup
includes-none k = ground arith

-- The strategies that NewDeviceListStrategies accepts include exactly the ones it was given.
pub new_device_list_strategies-includes :
    (strategies : List Str) (ret : DeviceListStrategies) (k : Str)
    → new_device_list_strategies strategies ≡ some ret
    → includes k ret ≡ any (str_eq k) strategies
unfolding new_device_list_strategies
new_device_list_strategies-includes strategies ret k h =
    ground (arith, strategies_loop-includes no_strategies ret strategies k h, includes-none k)
